-- ===== src/Diff3.antt =====
-- The merge of two edits and the search for their common ancestor (crates/hub-api/src/diff3.rs).
pub mod Ancestor
use sync_stuff_opinionated.Base.{
  ℕ, ◌+◌, ◌-◌, Bool, Option, none, some, List, [], ◌∷◌, ◌++◌, if◌then◌else◌, ltb,
}
use sync_stuff_opinionated.Base.Text.{Text, Bytes, codes, ◌==◌}
use sync_stuff_opinionated.Base.Lists.{any, get_elem?}
use sync_stuff_opinionated.Base.Decimal.{decimal}
use sync_stuff_opinionated.Base.Effect.{Result, ok, err, then_ok, map_err}
use sync_stuff_opinionated.Couch.{Merged, Backend}

pub data MergeError : Type 0 where
  conflict : MergeError
  not_text : MergeError
  internal : Text → MergeError

module _ (B : Backend) where
  abbrev pub to_text : Bytes → Result MergeError Text
  to_text bytes = elim (B.from_utf8 bytes) [ none ↦ err not_text | some text ↦ ok text ]

  abbrev pub without_conflicts : Merged → Result MergeError Bytes
  without_conflicts merged =
      if merged.has_conflicts then err conflict else ok (B.into_bytes merged.content)

  unfoldable pub merge : Bytes → Bytes → Bytes → Result MergeError Bytes
  merge base mine theirs = then_ok (to_text base) λ base. then_ok (to_text mine) λ mine.
      then_ok (to_text theirs)
        λ theirs. then_ok (map_err internal (B.merge_strings base mine theirs)) without_conflicts

-- The revision of a generation: "N-hash".
abbrev pub rev_text : ℕ → Text → Text
rev_text generation hash = decimal generation ++ codes "-" ++ hash

abbrev pub checked_sub : ℕ → ℕ → Option ℕ
checked_sub m n = if ltb m n then none else some (m - n)

unfoldable pub revision_at : ℕ → List Text → ℕ → Option Text
revision_at start ids index = elim (checked_sub start index) [
  | none ↦ none
  | some generation ↦ elim (get_elem? ids index) [
    | none ↦ none
    | some hash ↦ some (rev_text generation hash)
  ]
]

abbrev pub contains : List Text → Text → Bool
contains ids id = any (λ other. other == id) ids

-- The loop over the history `rest`, which is that of `b_ids` from `index` on.
unfoldable pub ancestor_from : List Text → ℕ → List Text → ℕ → List Text → Option Text
ancestor_from a_ids b_start b_ids index [] = none
ancestor_from a_ids b_start b_ids index (id ∷ rest) =
    let onward = ancestor_from a_ids b_start b_ids (index + 1) rest in
    if contains a_ids id then revision_at b_start b_ids index else onward

unfoldable pub common_ancestor : List Text → ℕ → List Text → Option Text
common_ancestor a_ids b_start b_ids = ancestor_from a_ids b_start b_ids 0 b_ids
