-- ===== src/Resolver/Resolve.antt =====
-- The resolution of a conflict (`resolve`, `resolve_delete_winner`,
-- crates/hub-api/src/resolver.rs).
use Prim.Native.String.{String}
use sync_stuff_opinionated.Base.{
  ℕ, zero, suc, Bool, true, false, Option, none, some, List, [], ◌∷◌, leb, ltb, if◌then◌else◌,
}
use sync_stuff_opinionated.Base.Text.{Text, Bytes, codes, is_empty}
use sync_stuff_opinionated.Base.Lists.{length, retain, filter_map}
use sync_stuff_opinionated.Base.Int.{pos, zleb}
use sync_stuff_opinionated.Base.Decimal.{parse_u64, before}
use sync_stuff_opinionated.Base.Effect.{Result, ok, err, panic, pure, fail, ◌>>=◌}
use sync_stuff_opinionated.Couch.{Backend}
use sync_stuff_opinionated.Engine.Queue.{unwrap_or, and_then}
use sync_stuff_opinionated.Resolver.{
  ResolveError, cas_conflict, max_retries, missing_leaf, Outcome, no_conflict, resolved, Leaf, Plan,
  Action, on_read,
}
use sync_stuff_opinionated.Resolver.Planning.{alive, losers_of, plan_edit_won, plan_resolution}
use sync_stuff_opinionated.Resolver.Apply.{apply_plan}

abbrev pub max_attempts : ℕ
max_attempts = 5

-- The last one of the greatest elements, as `max_by_key` finds it.
abbrev pub max_by {ℓ} : {A : Type ℓ} → (A → A → Bool) → A → List A → A
max_by le best [] = best
max_by le best (x ∷ xs) = max_by le (if le best x then x else best) xs

abbrev pub rev_generation : Text → ℕ
rev_generation rev = unwrap_or (parse_u64 (before 45 rev)) 0

abbrev pub plan_resurrect : List Leaf → Leaf → Leaf → Plan
plan_resurrect leaves edit tombstone =
    plan_edit_won tombstone.rev edit (losers_of tombstone.rev leaves)

-- What is left of a hidden conflict: the newest edit, and the deepest tombstone.
abbrev pub plan_delete_winner : List Leaf → List Leaf → List Leaf → Option Plan
plan_delete_winner leaves (e ∷ edits) (t ∷ tombstones) = some (
    plan_resurrect leaves (max_by (λ (a b : Leaf). zleb a.mtime b.mtime) e edits)
      (max_by (λ (a b : Leaf). leb (rev_generation a.rev) (rev_generation b.rev)) t tombstones))
plan_delete_winner leaves _ _ = none

module _ (B : Backend) where
  abbrev pub text_field : B.json.Value → String → Option Text
  text_field doc key = and_then (B.json.get doc (codes key)) B.json.as_str

  abbrev pub leaf_of : B.json.Value → Text → Bool → Bytes → Leaf
  leaf_of doc rev deleted content = record {
    rev = rev;
    deleted = deleted;
    mtime = unwrap_or (and_then (B.json.get doc (codes "mtime")) B.json.as_i64) (pos 0);
    content_type = unwrap_or (text_field doc "content_type") (codes "application/octet-stream");
    content = content;
    revisions = and_then (B.json.get doc (codes "_revisions")) B.json.revisions;
  }

  abbrev pub doc_rev : B.json.Value → Text
  doc_rev doc = unwrap_or (text_field doc "_rev") []

  abbrev pub doc_deleted : B.json.Value → Bool
  doc_deleted doc = unwrap_or (and_then (B.json.get doc (codes "_deleted")) B.json.as_bool) false

  unfoldable pub leaf_content : Text → Text → Bool → Action B Bytes
  leaf_content path rev true = pure []
  leaf_content path rev false =
      on_read B (B.couch.get_attachment_at_rev path (codes "content") (some rev))

  unfoldable pub leaf_from_doc : Text → B.json.Value → Action B Leaf
  leaf_from_doc path doc = do
    content ← leaf_content path (doc_rev doc) (doc_deleted doc)
    pure (leaf_of doc (doc_rev doc) (doc_deleted doc) content)

  abbrev pub leaf_from : Text → Option B.json.Value → Action B Leaf
  leaf_from path none = fail missing_leaf
  leaf_from path (some doc) = leaf_from_doc path doc

  unfoldable pub fetch_leaf : Text → Text → Action B Leaf
  fetch_leaf path rev = do doc ← on_read B (B.couch.get_doc_at_rev path rev); leaf_from path doc

  -- The two loops that collect the leaves.
  unfoldable pub fetch_leaves : Text → List Text → Action B (List Leaf)
  fetch_leaves path [] = pure []
  fetch_leaves path (rev ∷ revs) = do
    leaf ← fetch_leaf path rev
    leaves ← fetch_leaves path revs
    pure (leaf ∷ leaves)

  unfoldable pub leaves_from_docs : Text → List B.json.Value → Action B (List Leaf)
  leaves_from_docs path [] = pure []
  leaves_from_docs path (doc ∷ docs) = do
    leaf ← leaf_from_doc path doc
    leaves ← leaves_from_docs path docs
    pure (leaf ∷ leaves)

  -- The end of a round: a `CasConflict` starts the next round.
  abbrev pub after_apply :
      Text → Plan → Result ResolveError (List Text) → Action B Outcome → Action B Outcome
  after_apply path plan (ok copies) again w =
      (ok (resolved (record { path = path; kind = plan.kind; conflict_copies = copies })), w)
  after_apply path plan (err cas_conflict) again w = again w
  after_apply path plan (err e) again w = (err e, w)
  after_apply path plan panic again w = (panic, w)

  unfoldable pub try_plan : ℕ → Text → Plan → Action B Outcome → Action B Outcome
  try_plan fuel path plan again w =
      let (r, w') = apply_plan B fuel path plan w in after_apply path plan r again w'

  abbrev pub try_or_none : ℕ → Text → Option Plan → Action B Outcome → Action B Outcome
  try_or_none fuel path none again = pure no_conflict
  try_or_none fuel path (some plan) again = try_plan fuel path plan again

  unfoldable pub resolve_leaves : ℕ → Text → List B.json.Value → Action B Outcome → Action B Outcome
  resolve_leaves fuel path raws again = if ltb (length raws) 2 then pure no_conflict else do
    leaves ← leaves_from_docs path raws
    try_or_none fuel path
        (plan_delete_winner leaves (alive leaves) (retain (λ (l : Leaf). l.deleted) leaves)) again

  unfoldable pub delete_winner_rounds : ℕ → ℕ → Text → Action B Outcome
  delete_winner_rounds fuel zero path = fail max_retries
  delete_winner_rounds fuel (suc rounds) path = do
    raws ← on_read B (B.couch.get_doc_leaves path)
    resolve_leaves fuel path raws (delete_winner_rounds fuel rounds path)

  unfoldable pub resolve_delete_winner : ℕ → Text → Action B Outcome
  resolve_delete_winner fuel path = delete_winner_rounds fuel max_attempts path

  abbrev pub conflict_revs : B.json.Value → List Text
  conflict_revs winner =
      filter_map B.json.as_str
        (unwrap_or (and_then (B.json.get winner (codes "_conflicts")) B.json.as_array) [])

  -- A round of `resolve`, once the winner has been read.
  unfoldable pub resolve_winner : ℕ → Text → B.json.Value → Action B Outcome → Action B Outcome
  resolve_winner fuel path winner again =
      if is_empty (conflict_revs winner) then pure no_conflict else do
        leaves ← fetch_leaves path (doc_rev winner ∷ conflict_revs winner)
        plan ← plan_resolution B path leaves (doc_rev winner)
        try_plan fuel path plan again

  abbrev pub resolve_found : ℕ → Text → Option B.json.Value → Action B Outcome → Action B Outcome
  resolve_found fuel path none again = resolve_delete_winner fuel path
  resolve_found fuel path (some winner) again = resolve_winner fuel path winner again

  unfoldable pub resolve_rounds : ℕ → ℕ → Text → Action B Outcome
  resolve_rounds fuel zero path = fail max_retries
  resolve_rounds fuel (suc rounds) path = do
    doc ← on_read B (B.couch.get_doc path)
    resolve_found fuel path doc (resolve_rounds fuel rounds path)

  -- `fuel` bounds the names that are tried for a conflict copy.
  unfoldable pub resolve : ℕ → Text → Action B Outcome
  resolve fuel path = resolve_rounds fuel max_attempts path
