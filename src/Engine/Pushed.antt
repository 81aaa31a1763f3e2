-- ===== src/Engine/Pushed.antt =====
-- What a push does to the queue (`push`, `push_to`, crates/client-core/src/engine.rs).
use mathlib.Core.Path.{subst}
use sync_stuff_opinionated.Base.{
  ℕ, ◌≡◌, refl, sym, ap, ◌∙◌, Bool, true, false, ◌&&◌, Option, none, some, List, [], ◌∷◌, arith,
  if◌then◌else◌, nat_beq, ◌+◌,
}
use sync_stuff_opinionated.Base.Text.{Text, Bytes}
use sync_stuff_opinionated.Base.Lists.{length}
use sync_stuff_opinionated.Base.Effect.{
  Result, ok, err, panic, pure, ◌>>=◌, ◌>>◌, Keeps, Keeps-bind, Keeps-pure, Keeps-panics,
  keeps_rules, after_keeping, is_ok,
}
use sync_stuff_opinionated.Protocol.{HubError, PushChange, PushResult}
use sync_stuff_opinionated.Engine.Types.{
  key_pending, file_key, SyncError, store, hub, FileMeta, PendingChange, PushReport, Platform,
  World, SyncEngine, IsPlatform,
}
use sync_stuff_opinionated.Engine.Keys.{file_key-ne-key_pending}
use sync_stuff_opinionated.Engine.Queue.{
  Action, on_meta, on_net, bump_rev, bump_found, restamp, decode_pending, unwrap_or,
}
use sync_stuff_opinionated.Engine.Queues.{queue}
use sync_stuff_opinionated.Engine.Frame.{
  Keeps-if, MetaIs, MetaIs-get, MetaIs-put, MetaIs-on_files, MetaIs-on_net, MetaIs-load_pending,
}
use sync_stuff_opinionated.Engine.Pull.{Hub, after_attempt, try_hubs}
use sync_stuff_opinionated.Engine.Pulled.{MetaIs-notify}
use sync_stuff_opinionated.Engine.Push.{
  build_upsert, build_push_change, build_push_changes, adopt, adopt_all, clear_if_full, push_to,
  report, reported, push_pending, push,
}

-- The hub has answered every change.
abbrev pub answered : List PushChange → Result HubError (List PushResult) → Bool
answered changes (ok results) = nat_beq (length results) (length changes)
answered changes _ = false

on_net-answered :
    (P : Platform) (changes : List PushChange) (h : Hub P) (w : World P) (results : List PushResult)
    {w₁ : World P}
    → on_net P (h.push changes) w ≡ (ok results, w₁)
    → answered changes (h.push changes w.net).0 ≡ nat_beq (length results) (length changes)
unfolding on_net
on_net-answered P changes h w results e = ground arith

module _ (P : Platform) (L : IsPlatform P) where
  abbrev Pending : Option Bytes → World P → Type 0
  Pending = MetaIs P L key_pending

  module _ (q : Option Bytes) where
    Pending-bump_rev : (path rev : Text) → Keeps (Pending q) (bump_rev P path rev)
    unfolding bump_rev
    Pending-bump_rev path rev =
        Keeps-bind _ _ (MetaIs-get P L key_pending q (file_key path)) (λ found. stamped found)
      where
        restamped : (m : Option FileMeta) → Keeps (Pending q) (restamp P path rev m)
        restamped none = unfold restamp in Keeps-panics
        restamped (some m) =
            unfold restamp in
            MetaIs-put P L key_pending q _ _ (λ e. file_key-ne-key_pending path (sym e))

        stamped : (found : Option Bytes) → Keeps (Pending q) (bump_found P path rev found)
        stamped none = Keeps-pure tt
        stamped (some bytes) = restamped (P.file_meta.decode bytes)

    Pending-adopt :
        (change : PendingChange) (result : PushResult) → Keeps (Pending q) (adopt P change result)
    unfolding adopt
    Pending-adopt change result = search (keeps_rules, Keeps-if, Pending-bump_rev)

    Pending-adopt_all :
        (pending : List PendingChange) (results : List PushResult) (pushed : ℕ)
        → Keeps (Pending q) (adopt_all P pending results pushed)
    unfolding adopt_all
    Pending-adopt_all [] results pushed = Keeps-pure pushed
    Pending-adopt_all (change ∷ pending) [] pushed = Keeps-pure pushed
    Pending-adopt_all (change ∷ pending) (result ∷ results) pushed =
        Keeps-bind _ _ (Pending-adopt change result)
          (λ _. Pending-adopt_all pending results (pushed + 1))

    Pending-build_push_changes :
        (pending : List PendingChange) → Keeps (Pending q) (build_push_changes P pending)
    unfolding build_push_changes build_push_change build_upsert
    Pending-build_push_changes [] = search keeps_rules
    Pending-build_push_changes (p ∷ pending) =
        Keeps-bind _ _ (search (keeps_rules, Keeps-if, MetaIs-on_files, MetaIs-get))
          λ change. Keeps-bind _ _ (Pending-build_push_changes pending) (λ changes. Keeps-pure _)

    Pending-report :
        {A : Type 0} (engine : SyncEngine P) (m : Action P A)
        → Keeps (Pending q) m
        → Keeps (Pending q) (report P engine m)
    unfolding report
    Pending-report {A} engine m km = record { at = λ w h. onward (m w).0 (m w).1 (km.at w h) }
      where
        onward :
            (r : Result SyncError A) (w : World P)
            → Pending q w
            → Pending q (reported P engine r w).1
        onward (ok a) w h = h
        onward (err e) w h = (MetaIs-notify P L key_pending q engine e).at w h
        onward panic w h = h

  -- What a push has left in the queue, from the outcome and the answer of the hub.
  abbrev Left : Option Bytes → Bool → Result SyncError PushReport × World P → Type 0
  Left q full (r, w) =
      L.meta_view w.meta key_pending ≡ (if is_ok r && full then some (P.pending.encode []) else q)

  Left-clear :
      (changes : List PushChange) (results : List PushResult) (out : PushReport) (w : World P)
      → Left
          (L.meta_view w.meta key_pending)
          (nat_beq (length results) (length changes))
          ((clear_if_full P changes results >> pure out) w)
  unfolding clear_if_full on_meta ◌>>=◌
  Left-clear changes results out w =
      ground
        (arith, (L.meta_laws.puts key_pending (P.pending.encode [])).written w.meta key_pending)

  Left-push_to :
      (pending : List PendingChange) (changes : List PushChange) (h : Hub P) (w : World P)
      → Left
          (L.meta_view w.meta key_pending)
          (answered changes (h.push changes w.net).0)
          (push_to P pending changes h w)
  unfolding push_to
  Left-push_to pending changes h w =
      after_keeping {K = Pending q} (Left q full) (λ _ _ k. k.holds) (λ _ k. k.holds) _ _ w
        (MetaIs-on_net P L key_pending q (h.push changes)) (record { holds = refl })
        λ results w₁ e k₁.
          after_keeping {K = Pending q} (Left q full) (λ _ _ k. k.holds) (λ _ k. k.holds) _ _ w₁
            (Pending-adopt_all q pending results 0) k₁
            λ pushed w₂ _ k₂.
              subst (λ b. Left q b (cleared results pushed w₂)) (sym (full-eq results e))
                (subst
                  (λ v.
                    Left v (nat_beq (length results) (length changes)) (cleared results pushed w₂))
                  k₂.holds (Left-clear changes results _ w₂))
    where
      q : Option Bytes
      q = L.meta_view w.meta key_pending

      full : Bool
      full = answered changes (h.push changes w.net).0

      cleared : List PushResult → ℕ → Action P PushReport
      cleared results pushed =
          clear_if_full P changes results >> pure (record { hub = h.id; pushed = pushed })

      full-eq :
          (results : List PushResult) {w₁ : World P}
          → on_net P (h.push changes) w ≡ (ok results, w₁)
          → full ≡ nat_beq (length results) (length changes)
      full-eq results e = on_net-answered P changes h w results e

  -- A push to a hub empties the queue exactly if it succeeds and the hub has answered every change;
  -- otherwise, whether the hub refused, answered too little or a store failed, the queue is as before.
  pub queue-push_to :
      (pending : List PendingChange) (changes : List PushChange) (h : Hub P) (w : World P)
      → let (r, w') = push_to P pending changes h w in
        queue P L w'
        ≡ (if is_ok r && answered changes (h.push changes w.net).0 then [] else queue P L w)
  queue-push_to pending changes h w =
      ap (decode_pending P) (Left-push_to pending changes h w)
      ∙ back (is_ok (push_to P pending changes h w).0 && answered changes (h.push changes w.net).0)
    where
      back :
          (b : Bool)
          → decode_pending P
              (if b then some (P.pending.encode []) else L.meta_view w.meta key_pending)
            ≡ (if b then [] else queue P L w)
      back true = ap (λ o. unwrap_or o []) (L.pending_back [])
      back false = refl

  -- The queue is as it was, if the outcome is a failure.
  abbrev Kept : {A : Type 0} → Option Bytes → Result SyncError A × World P → Type 0
  Kept q (r, w) = is_ok r ≡ false → Pending q w

  module _ (q : Option Bytes) where
    Kept-push_to :
        (pending : List PendingChange) (changes : List PushChange) (h : Hub P) (w : World P)
        → Pending q w
        → Kept q (push_to P pending changes h w)
    Kept-push_to pending changes h w k failed = record {
      holds = ground (arith, failed, k.holds, Left-push_to pending changes h w);
    }

    Kept-try_hubs :
        (engine : SyncEngine P) (attempt : Hub P → Action P PushReport)
        → ((h : Hub P) (w : World P) → Pending q w → Kept q (attempt h w))
        → (hubs : List (Hub P)) (last : Option SyncError) (w : World P) → Pending q w
        → Kept q (try_hubs P engine attempt hubs last w)
    unfolding try_hubs
    Kept-try_hubs engine attempt each [] last w k failed =
        (MetaIs-notify P L key_pending q engine _).at w k
    Kept-try_hubs engine attempt each (h ∷ hubs) last w k failed =
        onward (attempt h w).0 (attempt h w).1 (each h w k) (Kept-try_hubs engine attempt each hubs)
          failed
      where
        onward :
            (r : Result SyncError PushReport) (w' : World P)
            → Kept q (r, w')
            → ((last : Option SyncError) (w : World P)
                → Pending q w
                → Kept q (try_hubs P engine attempt hubs last w))
            → Kept q (after_attempt P engine r (try_hubs P engine attempt hubs) w')
        onward (ok a) w' k' rest failed = cc
        onward (err (store e)) w' k' rest failed =
            (MetaIs-notify P L key_pending q engine _).at w' (k' refl)
        onward (err (hub e)) w' k' rest failed = rest (some (hub e)) w' (k' refl) failed
        onward panic w' k' rest failed = k' refl

    Kept-push_pending :
        (engine : SyncEngine P) (pending : List PendingChange) (w : World P)
        → Pending q w
        → Kept q (push_pending P engine pending w)
    unfolding push_pending pure
    Kept-push_pending engine [] w k failed = k
    Kept-push_pending engine (p ∷ pending) w k failed =
        after_keeping {K = Pending q} (Kept q) (λ _ _ k' _. k') (λ _ k' _. k') _ _ w
          (Pending-report q engine _ (Pending-build_push_changes q (p ∷ pending))) k
          (λ changes w₁ _ k₁.
            Kept-try_hubs engine (push_to P (p ∷ pending) changes)
              (Kept-push_to (p ∷ pending) changes) engine.hubs none w₁ k₁)
          failed

  -- A push that fails leaves the queue as it was: no rejected change is dropped.
  pub queue-push_failed :
      (engine : SyncEngine P) (w : World P)
      → is_ok (push P engine w).0 ≡ false
      → queue P L (push P engine w).1 ≡ queue P L w
  unfolding push
  queue-push_failed engine w failed =
      let q : Option Bytes = L.meta_view w.meta key_pending in
      ap (decode_pending P)
        (after_keeping {K = Pending q} (Kept q) (λ _ _ k _. k) (λ _ k _. k) _ _ w
          (Pending-report q engine _ (MetaIs-load_pending P L key_pending q))
          (record { holds = refl }) (λ pending w₁ _ k₁. Kept-push_pending q engine pending w₁ k₁)
          failed).holds
