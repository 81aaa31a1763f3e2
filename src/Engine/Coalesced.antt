-- ===== src/Engine/Coalesced.antt =====
-- The queue holds at most one change of a path (`upsert_pending`, crates/client-core/src/engine.rs).
use sync_stuff_opinionated.Base.{
  ◌≡◌, ◌≢◌, ◌⊎◌, refl, sym, false, List, [], ◌∷◌, ◌++◌, arith, if◌then◌else◌, inl, inr,
}
use mathlib.Core.Path.{subst}
use sync_stuff_opinionated.Base.Text.{Text, Bytes, ◌==◌}
use sync_stuff_opinionated.Base.Int.{ℤ}
use sync_stuff_opinionated.Base.Effect.{ok}
use sync_stuff_opinionated.Engine.Types.{PendingChange, Platform, World, SyncEngine, IsPlatform}
use sync_stuff_opinionated.Engine.Queue.{listed, retain_others}
use sync_stuff_opinionated.Engine.Queues.{queue}
use sync_stuff_opinionated.Engine.Record.{record_upsert, record_delete}
use sync_stuff_opinionated.Engine.Edits.{record_upsert_ok, record_delete_ok}

abbrev pub NodupPaths : List PendingChange → Type 0
NodupPaths [] = Unit
NodupPaths (p ∷ q) = (listed p.path q ≡ false) × NodupPaths q

-- A retained queue lists a path exactly if it was listed and is not the one taken out.
pub listed-retain_others :
    (j path : Text) (q : List PendingChange)
    → listed j (retain_others path q) ≡ (if j == path then false else listed j q)
listed-retain_others j path [] = ground arith
listed-retain_others j path (p ∷ q) = ground (arith, listed-retain_others j path q)

retain_others-NodupPaths :
    (path : Text) (q : List PendingChange) → NodupPaths q → NodupPaths (retain_others path q)
retain_others-NodupPaths path [] u = tt
retain_others-NodupPaths path (p ∷ q) (fresh, u) =
    ground (arith, retain_others-NodupPaths path q u, listed-retain_others p.path path q)

listed-append :
    (j : Text) (q : List PendingChange) (c : PendingChange)
    → listed j q ≡ false
    → c.path ≢ j
    → listed j (q ++ c ∷ []) ≡ false
listed-append j [] c h differs = ground arith
listed-append j (p ∷ q) c h differs = ground (arith, listed-append j q c)

append-NodupPaths :
    (q : List PendingChange) (c : PendingChange)
    → NodupPaths q
    → listed c.path q ≡ false
    → NodupPaths (q ++ c ∷ [])
append-NodupPaths [] c u fresh = (refl, tt)
append-NodupPaths (p ∷ q) c (first, u) fresh =
    ground (arith, append-NodupPaths q c u, listed-append p.path q c first)

-- The newest change of a path takes the place of the older ones.
coalesced-NodupPaths :
    (c : PendingChange) (q : List PendingChange)
    → NodupPaths q
    → NodupPaths (retain_others c.path q ++ c ∷ [])
coalesced-NodupPaths c q u =
    append-NodupPaths (retain_others c.path q) c (retain_others-NodupPaths c.path q u)
      (ground (arith, listed-retain_others c.path c.path q))

module _ (P : Platform) (L : IsPlatform P) where
  -- If the queue holds at most one change of each path, it still does after an edit or a deletion
  -- has been recorded.
  pub record-NodupPaths :
      (engine : SyncEngine P) (path : Text) (mtime : ℤ) (content_type : Text) (content : Bytes)
      (w w' : World P)
      → NodupPaths (queue P L w)
      → (record_upsert P engine path mtime content_type content w ≡ (ok tt, w'))
        ⊎ (record_delete P engine path mtime w ≡ (ok tt, w'))
      → NodupPaths (queue P L w')
  record-NodupPaths engine path mtime content_type content w w' u (inl e) =
      let done = record_upsert_ok P L engine path mtime content_type content w w' e in
      subst NodupPaths (sym done.queued) (coalesced-NodupPaths _ (queue P L w) u)
  record-NodupPaths engine path mtime content_type content w w' u (inr e) =
      let done = record_delete_ok P L engine path mtime w w' e in
      subst NodupPaths (sym done.queued) (coalesced-NodupPaths _ (queue P L w) u)
