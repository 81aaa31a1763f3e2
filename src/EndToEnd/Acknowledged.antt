-- ===== src/EndToEnd/Acknowledged.antt =====
-- A push that succeeds has stored every queued change on a hub (`push`,
-- crates/client-core/src/engine.rs, and `post_changes`, crates/hub-api/src/routes/push.rs).
use mathlib.Core.Path.{subst}
use sync_stuff_opinionated.Base.{
  ℕ, ◌≡◌, ◌⊎◌, inl, inr, refl, ap, ◌∙◌, false, Option, none, some, List, [], ◌∷◌, arith,
}
use sync_stuff_opinionated.Base.Text.{is_empty}
use sync_stuff_opinionated.Base.Lists.{All}
use sync_stuff_opinionated.Base.Effect.{Result, ok, err, panic, >>=-eq-ok}
use sync_stuff_opinionated.Protocol.{PushChange, PushResult, HubError}
use sync_stuff_opinionated.Couch.{Backend}
use sync_stuff_opinionated.Engine.Types.{
  SyncError, store, hub, PendingChange, PushReport, Platform, World, SyncEngine, IsPlatform,
}
use sync_stuff_opinionated.Engine.Queue.{load_pending}
use sync_stuff_opinionated.Engine.Pull.{Hub, notify, after_attempt, try_hubs}
use sync_stuff_opinionated.Engine.Push.{push_to, push_pending, push}
use sync_stuff_opinionated.Engine.Frame.{FileIs-load_pending, MetaIs-load_pending}
use sync_stuff_opinionated.Engine.Queues.{queue, load_pending_ok}
use sync_stuff_opinionated.Engine.Recorded.{report-ok, same_files, same_meta}
use sync_stuff_opinionated.Routes.Push.{post_changes}
use sync_stuff_opinionated.Routes.Storing.{AllStored}
use sync_stuff_opinionated.Routes.Stored.{post_changes-AllStored}
use sync_stuff_opinionated.EndToEnd.Sent.{AllSent, Same, build_push_changes-Sent}
use sync_stuff_opinionated.EndToEnd.Local.{
  Local-net, Local-load_pending, Local-build_push_changes, push_to-Answered,
}

-- A hub that answers a push does so by its route, at the database that the network leads to.
pub record Serves (P : Platform) (B : Backend) (db : P.Net → B.World) (fuel : ℕ) (h : Hub P)
    : Type 0 where
  pub answers :
      (changes : List PushChange) (n n' : P.Net) (results : List PushResult)
      → h.push changes n ≡ (ok results, n')
      → post_changes B fuel changes (db n) ≡ (ok results, db n')

module _ (P : Platform) where
  -- The hubs are tried in their order, each from where the one before it has left the network: those
  -- before the hub `h` answered with an error, and `h` answers from the state `n`.
  abbrev pub Tried : List (Hub P) → List PushChange → P.Net → Hub P → P.Net → Type 0
  Tried [] changes m h n = ⊥
  Tried (first ∷ hubs) changes m h n =
      ((first ≡ h) × (m ≡ n))
      ⊎ ((e : HubError) × (m' : P.Net) × (first.push changes m ≡ (err e, m'))
          × Tried hubs changes m' h n)

  -- The hub that ended the loop with a success.
  try_hubs-Tried :
      (Q : Hub P → Type 0) (engine : SyncEngine P) (pending : List PendingChange)
      (changes : List PushChange) (hubs : List (Hub P)) (last : Option SyncError) (w w' : World P)
      (r : PushReport)
      → All Q hubs
      → try_hubs P engine (push_to P pending changes) hubs last w ≡ (ok r, w')
      → (h : Hub P) × (n : P.Net) × (results : List PushResult) × Q h
        × Tried hubs changes w.net h n
        × (h.push changes n ≡ (ok results, w'.net))
  unfolding try_hubs notify
  try_hubs-Tried Q engine pending changes [] last w w' r all e = ground (arith, e)
  try_hubs-Tried Q engine pending changes (h ∷ hubs) last w w' r (q, all) e =
      onward (push_to P pending changes h w).0 (push_to P pending changes h w).1 refl e
        (λ l v. try_hubs-Tried Q engine pending changes hubs l v w' r all)
    where
      Found : List (Hub P) → P.Net → Type 0
      Found hubs m =
          (h : Hub P) × (n : P.Net) × (results : List PushResult) × Q h
          × Tried hubs changes m h n
          × (h.push changes n ≡ (ok results, w'.net))

      onward :
          (a : Result SyncError PushReport) (v : World P)
          → push_to P pending changes h w ≡ (a, v)
          → after_attempt P engine a (try_hubs P engine (push_to P pending changes) hubs) v
            ≡ (ok r, w')
          → ((l : Option SyncError) (v : World P)
              → try_hubs P engine (push_to P pending changes) hubs l v ≡ (ok r, w')
              → Found hubs v.net)
          → Found (h ∷ hubs) w.net
      onward (ok b) v g e rest =
          let (results, sent) = push_to-Answered P pending changes h w w' (ok r) (g ∙ e) in
          (h, w.net, results, q, inl (refl, refl), sent)
      onward (err (store x)) v g e rest = ground (arith, e)
      onward (err (hub x)) v g e rest =
          let (y, failed) = push_to-Answered P pending changes h w v (err (hub x)) g in
          let (h', n, results, q', tried, sent) = rest (some (hub x)) v e in
          (h', n, results, q', inr (y, v.net, failed, tried), sent)
      onward panic v g e rest = cc

  module _ (L : IsPlatform P) (B : Backend) (db : P.Net → B.World) (fuel : ℕ) where
    -- What a successful push has done with the changes of a queue: they were sent to a hub of the
    -- engine, which has stored each of them.
    abbrev pub Acknowledged : List (Hub P) → World P → World P → List PendingChange → Type 0
    Acknowledged hubs w w' pending =
        (changes : List PushChange) × (h : Hub P) × (n : P.Net) × (results : List PushResult)
        × AllSent P L w pending changes
        × Tried hubs changes w.net h n
        × (h.push changes n ≡ (ok results, w'.net))
        × AllStored B fuel changes results (db n) (db w'.net)

    push_pending-Acknowledged :
        (engine : SyncEngine P) (pending : List PendingChange) (v w w' : World P) (r : PushReport)
        → All (Serves P B db fuel) engine.hubs
        → is_empty pending ≡ false
        → Same P L v w
        → v.net ≡ w.net
        → push_pending P engine pending v ≡ (ok r, w')
        → Acknowledged engine.hubs w w' pending
    unfolding push_pending
    push_pending-Acknowledged engine [] v w w' r all some_pending same still e = cc
    push_pending-Acknowledged engine (p ∷ pending) v w w' r all some_pending same still e =
        let (changes, w₁, built, rest) = >>=-eq-ok _ _ e in
        let made = report-ok P L engine _ v built in
        let sent = build_push_changes-Sent P L v w w₁ (p ∷ pending) changes same made in
        let net : w₁.net ≡ w.net =
          Local-net P _ (Local-build_push_changes P (p ∷ pending)) v made ∙ still in
        let (h, n, results, serves, tried, answer) =
          try_hubs-Tried (Serves P B db fuel) engine (p ∷ pending) changes engine.hubs none w₁ w' r
            all rest in
        (
          changes,
          h,
          n,
          results,
          sent,
          subst (λ m. Tried engine.hubs changes m h n) net tried,
          answer,
          post_changes-AllStored B fuel changes (db n) (db w'.net) results
              (serves.answers changes n w'.net results answer),
        )

    -- If the hubs that answer do so by their route, a push that succeeds with a queue that is not
    -- empty has sent every queued change to a hub of the engine, the first one that did not answer
    -- with an error, and that hub has stored them one after the other and left the database as it is
    -- after the push. A change is sent with its path, kind, base revision and time, a deletion with
    -- nothing else, and an edit with the content that the file store has and with its content type:
    -- that of the stored metadata unless there is none or it is empty, else the one that was
    -- recorded with the change, else that of any bytes.
    pub push-Acknowledged :
        (engine : SyncEngine P) (w w' : World P) (r : PushReport)
        → All (Serves P B db fuel) engine.hubs
        → is_empty (queue P L w) ≡ false
        → push P engine w ≡ (ok r, w')
        → Acknowledged engine.hubs w w' (queue P L w)
    unfolding push
    push-Acknowledged engine w w' r all waiting e =
        let (pending, w₁, loaded, rest) = >>=-eq-ok _ _ e in
        let read = report-ok P L engine _ w loaded in
        let held : pending ≡ queue P L w =
          load_pending_ok P L w
            (ap (λ (out : Result SyncError (List PendingChange) × World P). out.0) read) in
        let same : Same P L w₁ w = record {
          files = same_files P L (load_pending P) w (λ j. FileIs-load_pending P L j _) read;
          meta = same_meta P L (load_pending P) w (λ j. MetaIs-load_pending P L j _) read;
        } in
        push_pending-Acknowledged engine (queue P L w) w₁ w w' r all waiting same
          (Local-net P _ (Local-load_pending P) w read)
          (subst (λ q. push_pending P engine q w₁ ≡ (ok r, w')) held rest)
