-- ===== src/Engine/Queues.antt =====
-- What the engine reads as its queue: the decoded entry of `KEY_PENDING`.
use sync_stuff_opinionated.Base.{◌≡◌, refl, ap, Bool, List}
use sync_stuff_opinionated.Base.Text.{Text}
use sync_stuff_opinionated.Base.Effect.{Result, ok, err, panic, pure, map_err, ◌>>=◌, follow}
use sync_stuff_opinionated.Engine.Types.{
  key_pending, SyncError, store, PendingChange, Platform, World, IsPlatform,
}
use sync_stuff_opinionated.Engine.Queue.{
  on_meta, load_pending, listed, pending_contains, decode_pending,
}

map_err-eq-ok :
    {E F A : Type 0} (f : E → F) (r : Result E A) {a : A} → map_err f r ≡ ok a → r ≡ ok a
map_err-eq-ok f (ok b) h = cc
map_err-eq-ok f (err e) h = cc
map_err-eq-ok f panic h = cc

module _ (P : Platform) (L : IsPlatform P) where
  -- The queue that the metadata store holds.
  abbrev pub queue : World P → List PendingChange
  queue w = decode_pending P (L.meta_view w.meta key_pending)

  abbrev pub queued : Text → World P → Bool
  queued path w = listed path (queue w)

  -- A successful read of the metadata store returns what it holds.
  pub on_meta-get_ok :
      (k : Text) (w : World P) {found : _}
      → (on_meta P (P.meta.get k) w).0 ≡ ok found
      → found ≡ L.meta_view w.meta k
  unfolding on_meta
  on_meta-get_ok k w h =
      L.meta_laws.reads.returned w.meta k (map_err-eq-ok store (P.meta.get k w.meta).0 h)

  pub load_pending_ok :
      (w : World P) {q : List PendingChange} → (load_pending P w).0 ≡ ok q → q ≡ queue w
  unfolding load_pending ◌>>=◌
  load_pending_ok w {q} h = onward (on_meta P (P.meta.get key_pending) w).0 refl h
    where
      onward :
          (r : Result SyncError _)
          → (on_meta P (P.meta.get key_pending) w).0 ≡ r
          → (follow r
              (λ found. pure (decode_pending P found))
              (on_meta P (P.meta.get key_pending) w).1).0
            ≡ ok q
          → q ≡ queue w
      onward (ok found) e h = cc (ap (decode_pending P) (on_meta-get_ok key_pending w e))
      onward (err _) e h = cc
      onward panic e h = cc

  pub pending_contains_ok :
      (path : Text) (w : World P) {b : Bool}
      → (pending_contains P path w).0 ≡ ok b
      → b ≡ queued path w
  unfolding pending_contains ◌>>=◌
  pending_contains_ok path w {b} h = onward (load_pending P w).0 refl h
    where
      onward :
          (r : Result SyncError (List PendingChange))
          → (load_pending P w).0 ≡ r
          → (follow r (λ q. pure (listed path q)) (load_pending P w).1).0 ≡ ok b
          → b ≡ queued path w
      onward (ok q) e h = cc (ap (listed path) (load_pending_ok w e))
      onward (err _) e h = cc
      onward panic e h = cc
