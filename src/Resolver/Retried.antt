-- ===== src/Resolver/Retried.antt =====
-- The rounds of a resolution (`resolve`, `resolve_delete_winner`,
-- crates/hub-api/src/resolver.rs): a revision conflict of a write starts the next round.
use sync_stuff_opinionated.Base.{ℕ, zero, suc, ◌≡◌, ◌≢◌, ◌⊎◌, none, some, List, ◌∷◌}
use sync_stuff_opinionated.Base.Text.{Text}
use sync_stuff_opinionated.Base.Lists.{retain}
use sync_stuff_opinionated.Base.Effect.{Result, ok, err}
use sync_stuff_opinionated.Couch.{Backend}
use sync_stuff_opinionated.Resolver.{
  ResolveError, couch, cas_conflict, max_retries, Outcome, Leaf, Plan, Action, on_read,
}
use sync_stuff_opinionated.Resolver.Planning.{alive, plan_resolution}
use sync_stuff_opinionated.Resolver.Apply.{apply_plan}
use sync_stuff_opinionated.Resolver.Avoided.{Avoids}
use sync_stuff_opinionated.Resolver.Resolve.{
  plan_delete_winner, conflict_revs, doc_rev, fetch_leaves, leaves_from_docs,
}

module _ (B : Backend) where
  abbrev Out : Type 0
  Out = Result ResolveError Outcome × B.World

  -- The outcome of a round that met no revision conflict in its writes.
  abbrev pub Ended : Out → Type 0
  Ended out = (out.0 ≢ err cas_conflict) × (out.0 ≢ err max_retries)

  module _ (fuel : ℕ) (path : Text) where
    -- A round of the resolution whose writes met a revision conflict: the winner and its conflicts
    -- were read, the resolution was planned, and applying the plan failed.
    abbrev pub Conflicted : B.World → B.World → Type 0
    Conflicted w w' =
        (winner : B.json.Value) × (leaves : List Leaf) × (plan : Plan) × (w₁ : B.World)
        × (w₂ : B.World) × (w₃ : B.World) × (on_read B (B.couch.get_doc path) w
            ≡ (ok (some winner), w₁))
        × (fetch_leaves B path (doc_rev B winner ∷ conflict_revs B winner) w₁ ≡ (ok leaves, w₂))
        × (plan_resolution B path leaves (doc_rev B winner) w₂ ≡ (ok plan, w₃))
        × (apply_plan B fuel path plan w₃ ≡ (err cas_conflict, w'))

    -- The same for a document whose winner is a deletion, which is read by its leaves.
    abbrev pub DeleteConflicted : B.World → B.World → Type 0
    DeleteConflicted w w' =
        (raws : List B.json.Value) × (leaves : List Leaf) × (plan : Plan) × (w₁ : B.World)
        × (w₂ : B.World) × (on_read B (B.couch.get_doc_leaves path) w ≡ (ok raws, w₁))
        × (leaves_from_docs B path raws w₁ ≡ (ok leaves, w₂))
        × (plan_delete_winner leaves (alive leaves) (retain (λ (l : Leaf). l.deleted) leaves)
            ≡ some plan)
        × (apply_plan B fuel path plan w₂ ≡ (err cas_conflict, w'))

    -- The outcome of at most so many rounds: after the last one the error is that they are used up;
    -- before that, a round that met a conflict is followed by the rest, from where it has left the
    -- database, and any other round is the last.
    abbrev pub DeleteRetries : ℕ → B.World → Out → Type 0
    DeleteRetries zero w out = out ≡ (err max_retries, w)
    DeleteRetries (suc k) w out =
        ((w' : B.World) × DeleteConflicted w w' × DeleteRetries k w' out) ⊎ Ended out

    -- The same for the rounds on the winner. If there is none, the rounds on the leaves follow.
    abbrev pub Retries : ℕ → B.World → Out → Type 0
    Retries zero w out = out ≡ (err max_retries, w)
    Retries (suc k) w out =
        ((w' : B.World) × Conflicted w w' × Retries k w' out)
        ⊎ ((w' : B.World) × (on_read B (B.couch.get_doc path) w ≡ (ok none, w'))
            × DeleteRetries 5 w' out)
        ⊎ Ended out

  -- The action fails with neither of the two errors.
  record Calm {A : Type 0} (m : Action B A) : Type 0 where
    conflict : Avoids B cas_conflict m
    rounds : Avoids B max_retries m
