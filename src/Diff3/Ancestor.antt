-- ===== src/Diff3/Ancestor.antt =====
-- The common ancestor of two histories (`common_ancestor`, crates/hub-api/src/diff3.rs).
use sync_stuff_opinionated.Base.{
  ℕ, ◌+◌, ◌∙◌, ◌≡◌, refl, true, false, some, List, [], ◌∷◌, ◌++◌, arith,
}
use sync_stuff_opinionated.Base.Text.{Text, ==_refl}
use sync_stuff_opinionated.Base.Lists.{length, All, get_elem?}
use sync_stuff_opinionated.Diff3.{revision_at, contains, rev_text, ancestor_from, common_ancestor}

-- No id of the first history is in the second.
abbrev pub Apart : List Text → List Text → Type 0
Apart ids others = All (λ id. contains others id ≡ false) ids

ancestor_from-append :
    (a ids : List Text) (start index : ℕ) (others : List Text) (id : Text) (rest : List Text)
    → Apart others a
    → contains a id ≡ true
    → ancestor_from a start ids index (others ++ id ∷ rest)
      ≡ revision_at start ids (length others + index)
unfolding ancestor_from
ancestor_from-append a ids start index [] id rest apart shared = ground (arith, shared)
ancestor_from-append a ids start index (o ∷ others) id rest (away, apart) shared =
    ground (arith, away, ancestor_from-append a ids start (index + 1) others id rest apart shared)

contains-append :
    (others : List Text) (id : Text) (rest : List Text) → contains (others ++ id ∷ rest) id ≡ true
contains-append [] id rest = ground (arith, ==_refl id)
contains-append (o ∷ others) id rest = ground (arith, contains-append others id rest)

get_elem?-append :
    (others : List Text) (id : Text) (rest : List Text)
    → get_elem? (others ++ id ∷ rest) (length others) ≡ some id
get_elem?-append [] id rest = refl
get_elem?-append (o ∷ others) id rest = get_elem?-append others id rest

revision_at-append :
    (others : List Text) (id : Text) (rest : List Text) (generation : ℕ)
    → revision_at (length others + generation) (others ++ id ∷ rest) (length others + 0)
      ≡ some (rev_text generation id)
unfolding revision_at
revision_at-append others id rest generation = ground (arith, get_elem?-append others id rest)

-- Two branches of one document, whose histories agree from the revision `id` on and have no
-- revision in common before it, have that revision as their common ancestor, whichever of them
-- is taken as the first.
pub common_ancestor-branches :
    (a b : List Text) (id : Text) (rest : List Text) (generation : ℕ)
    → Apart a (b ++ id ∷ rest)
    → Apart b (a ++ id ∷ rest)
    → (common_ancestor (a ++ id ∷ rest) (length b + generation) (b ++ id ∷ rest)
        ≡ some (rev_text generation id))
      × (common_ancestor (b ++ id ∷ rest) (length a + generation) (a ++ id ∷ rest)
          ≡ some (rev_text generation id))
unfolding common_ancestor
common_ancestor-branches a b id rest generation apart apart' = (one a b apart', one b a apart)
  where
    one :
        (a b : List Text)
        → Apart b (a ++ id ∷ rest)
        → ancestor_from (a ++ id ∷ rest) (length b + generation) (b ++ id ∷ rest) 0 (b ++ id ∷ rest)
          ≡ some (rev_text generation id)
    one a b away =
        ancestor_from-append (a ++ id ∷ rest) (b ++ id ∷ rest) (length b + generation) 0 b id rest
          away (contains-append a id rest)
        ∙ revision_at-append b id rest generation
