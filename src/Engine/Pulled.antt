-- ===== src/Engine/Pulled.antt =====
-- What a pull leaves alone: the queue, the files with an unpushed local change, and the
-- checkpoints of the other hubs. All of it holds for a pull that fails, too.
use sync_stuff_opinionated.Base.{◌≡◌, ◌≢◌, refl, sym, ap, Option, none, some, List, [], ◌∷◌, arith}
use sync_stuff_opinionated.Base.Text.{Text, Bytes}
use sync_stuff_opinionated.Base.Effect.{Result, ok, err, panic, Keeps, Keeps-bind, keeps_rules}
use sync_stuff_opinionated.Protocol.{ChangeEntry, FileContent}
use sync_stuff_opinionated.Engine.Types.{
  key_pending, file_key, checkpoint_key, SyncError, store, hub, PullReport, Platform, World,
  SyncEngine, IsPlatform,
}
use sync_stuff_opinionated.Engine.Keys.{file_key-ne-key_pending, checkpoint_key-ne-key_pending}
use sync_stuff_opinionated.Engine.Queue.{Action, pending_contains, decode_pending}
use sync_stuff_opinionated.Engine.Queues.{queue}
use sync_stuff_opinionated.Engine.Frame.{
  Keeps-if, MetaIs, FileIs, MetaIs-get, MetaIs-put, MetaIs-delete, MetaIs-on_files, MetaIs-on_net,
  MetaIs-load_pending, FileIs-load_pending,
}
use sync_stuff_opinionated.Engine.Pull.{
  Hub, found_or_fail, apply_delete, apply_upsert, apply_checked, apply_remote, apply_all, pull_from,
  notify, after_attempt, try_hubs, pull,
}

module _ (P : Platform) {Q : World P → Type 0} where
  pub found_or_fail-Keeps :
      (path : Text) (o : Option FileContent) → Keeps Q (found_or_fail P path o)
  unfolding found_or_fail
  found_or_fail-Keeps path none = search keeps_rules
  found_or_fail-Keeps path (some file) = search keeps_rules

  module _ {A : Type 0} (engine : SyncEngine P) where
    pub try_hubs-Keeps :
        ((e : SyncError) → Keeps Q (notify P {A = A} engine e))
        → (attempt : Hub P → Action P A) → ((h : Hub P) → Keeps Q (attempt h))
        → (hubs : List (Hub P)) (last : Option SyncError)
        → Keeps Q (try_hubs P engine attempt hubs last)
    unfolding try_hubs
    try_hubs-Keeps tells attempt each [] last = record { at = λ w h. (tells _).at w h }
    try_hubs-Keeps tells attempt each (h ∷ hubs) last = record {
      at = λ w g.
          onward (attempt h w).0 (attempt h w).1 ((each h).at w g)
            (λ e. try_hubs-Keeps tells attempt each hubs e);
    }
      where
        onward :
            (r : Result SyncError A) (w' : World P)
            → Q w'
            → ((e : Option SyncError) → Keeps Q (try_hubs P engine attempt hubs e))
            → Q (after_attempt P engine r (try_hubs P engine attempt hubs) w').1
        onward (ok a) w' g rest = g
        onward (err (store e)) w' g rest = (tells (store e)).at w' g
        onward (err (hub e)) w' g rest = (rest (some (hub e))).at w' g
        onward panic w' g rest = g

module _ (P : Platform) (L : IsPlatform P) where
  pub MetaIs-notify :
      {A : Type 0} (k : Text) (v : Option Bytes) (engine : SyncEngine P) (e : SyncError)
      → Keeps (MetaIs P L k v) (notify P {A = A} engine e)
  unfolding notify
  MetaIs-notify k v engine e = record { at = λ w h. record { holds = ground (arith, h.holds) } }

  pub FileIs-notify :
      {A : Type 0} (path : Text) (v : Option Bytes) (engine : SyncEngine P) (e : SyncError)
      → Keeps (FileIs P L path v) (notify P {A = A} engine e)
  unfolding notify
  FileIs-notify path v engine e = record { at = λ w h. record { holds = ground (arith, h.holds) } }

  pub MetaIs-pending_contains :
      (k : Text) (v : Option Bytes) (path : Text) → Keeps (MetaIs P L k v) (pending_contains P path)
  unfolding pending_contains
  MetaIs-pending_contains k v path = search (keeps_rules, MetaIs-load_pending)

  pub FileIs-pending_contains :
      (q : Text) (v : Option Bytes) (path : Text) → Keeps (FileIs P L q v) (pending_contains P path)
  unfolding pending_contains
  FileIs-pending_contains q v path = search (keeps_rules, FileIs-load_pending)

  -- An entry of the metadata store that no key of the batch names.
  module _ (k : Text) (v : Option Bytes) where
    pub MetaIs-apply_delete :
        (entry : ChangeEntry) (report : PullReport)
        → k ≢ file_key entry.path
        → Keeps (MetaIs P L k v) (apply_delete P entry report)
    unfolding apply_delete
    MetaIs-apply_delete entry report differs = search (keeps_rules, MetaIs-on_files, MetaIs-delete)

    pub MetaIs-apply_upsert :
        (h : Hub P) (entry : ChangeEntry) (report : PullReport)
        → k ≢ file_key entry.path
        → Keeps (MetaIs P L k v) (apply_upsert P h entry report)
    unfolding apply_upsert
    MetaIs-apply_upsert h entry report differs =
        search (keeps_rules, MetaIs-on_net, found_or_fail-Keeps, MetaIs-on_files, MetaIs-put)

    pub MetaIs-apply_remote :
        (h : Hub P) (entry : ChangeEntry) (report : PullReport)
        → k ≢ file_key entry.path
        → Keeps (MetaIs P L k v) (apply_remote P h entry report)
    unfolding apply_remote apply_checked
    MetaIs-apply_remote h entry report differs =
        search
          (keeps_rules, Keeps-if, MetaIs-pending_contains, MetaIs-apply_delete, MetaIs-apply_upsert)

    pub MetaIs-apply_all :
        ((path : Text) → k ≢ file_key path)
        → (h : Hub P) (changes : List ChangeEntry) (report : PullReport)
        → Keeps (MetaIs P L k v) (apply_all P h changes report)
    unfolding apply_all
    MetaIs-apply_all differs h [] report = search keeps_rules
    MetaIs-apply_all differs h (entry ∷ changes) report =
        Keeps-bind _ _ (MetaIs-apply_remote h entry report (differs entry.path))
          (λ r. MetaIs-apply_all differs h changes r)

    pub MetaIs-pull_from :
        ((path : Text) → k ≢ file_key path)
        → (h : Hub P) → k ≢ checkpoint_key h.id
        → Keeps (MetaIs P L k v) (pull_from P h)
    unfolding pull_from
    MetaIs-pull_from differs h apart =
        search (keeps_rules, MetaIs-get, MetaIs-on_net, MetaIs-apply_all, MetaIs-put)

    pub MetaIs-pull :
        (engine : SyncEngine P)
        → ((path : Text) → k ≢ file_key path)
        → ((h : Hub P) → k ≢ checkpoint_key h.id)
        → Keeps (MetaIs P L k v) (pull P engine)
    unfolding pull
    MetaIs-pull engine differs apart =
        try_hubs-Keeps P engine (MetaIs-notify k v engine) (pull_from P)
          (λ h. MetaIs-pull_from differs h (apart h)) engine.hubs none

  -- A pull, whatever its outcome, leaves the queue of unpushed changes as it was.
  pub queue-pull :
      (engine : SyncEngine P) (w : World P) → queue P L (pull P engine w).1 ≡ queue P L w
  queue-pull engine w =
      ap (λ v. decode_pending P v)
        ((MetaIs-pull key_pending (L.meta_view w.meta key_pending) engine
            (λ path e. file_key-ne-key_pending path (sym e))
            (λ h e. checkpoint_key-ne-key_pending h.id (sym e))).at
          w (record { holds = refl })).holds
