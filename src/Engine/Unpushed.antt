-- ===== src/Engine/Unpushed.antt =====
-- A pull does not overwrite a file that has an unpushed local change (the check on the queue in
-- `apply_remote`, crates/client-core/src/engine.rs).
use sync_stuff_opinionated.Base.{◌≡◌, ◌≢◌, refl, sym, ap, ◌∙◌, true, Option, none, List, [], ◌∷◌}
use sync_stuff_opinionated.Base.Text.{Text, Bytes, text_dec}
use sync_stuff_opinionated.Base.Effect.{
  Eff, Keeps, Keeps-bind, Keeps-bind_at, Keeps-pure, keeps_rules,
}
use sync_stuff_opinionated.Protocol.{ChangeEntry}
use sync_stuff_opinionated.Engine.Types.{
  key_pending, file_key, checkpoint_key, SyncError, PullReport, Platform, World, SyncEngine,
  IsPlatform,
}
use sync_stuff_opinionated.Engine.Keys.{
  file_key-ne-key_pending, checkpoint_key-ne-key_pending, file_key-ne-checkpoint_key,
  file_key_injective,
}
use sync_stuff_opinionated.Engine.Queue.{on_meta, listed, decode_pending}
use sync_stuff_opinionated.Engine.Queues.{queued, pending_contains_ok}
use sync_stuff_opinionated.Engine.Frame.{
  Keeps-if, MetaIs, FileIs, MetaIs-get, MetaIs-put, MetaIs-on_net, FileIs-put, FileIs-delete,
  FileIs-on_meta, FileIs-on_net,
}
use sync_stuff_opinionated.Engine.Pull.{
  Hub, apply_delete, apply_upsert, apply_checked, apply_remote, apply_all, pull_from, pull,
}
use sync_stuff_opinionated.Engine.Pulled.{
  found_or_fail-Keeps, try_hubs-Keeps, MetaIs-notify, FileIs-notify, MetaIs-pending_contains,
  FileIs-pending_contains, MetaIs-apply_remote,
}

module _ (P : Platform) (L : IsPlatform P) where
  module _ (path : Text) (v : Option Bytes) where
    pub FileIs-apply_delete :
        (entry : ChangeEntry) (report : PullReport)
        → path ≢ entry.path
        → Keeps (FileIs P L path v) (apply_delete P entry report)
    unfolding apply_delete
    FileIs-apply_delete entry report differs = search (keeps_rules, FileIs-on_meta, FileIs-delete)

    pub FileIs-apply_upsert :
        (h : Hub P) (entry : ChangeEntry) (report : PullReport)
        → path ≢ entry.path
        → Keeps (FileIs P L path v) (apply_upsert P h entry report)
    unfolding apply_upsert
    FileIs-apply_upsert h entry report differs =
        search (keeps_rules, FileIs-on_net, found_or_fail-Keeps, FileIs-on_meta, FileIs-put)

    pub FileIs-apply_remote :
        (h : Hub P) (entry : ChangeEntry) (report : PullReport)
        → path ≢ entry.path
        → Keeps (FileIs P L path v) (apply_remote P h entry report)
    unfolding apply_remote apply_checked
    FileIs-apply_remote h entry report differs =
        search
          (keeps_rules, Keeps-if, FileIs-pending_contains, FileIs-apply_delete, FileIs-apply_upsert)

  module _ (path : Text) (q content meta : Option Bytes) where
    -- A path with an entry in the queue, its local content and its metadata.
    record Local (w : World P) : Type 0 where
      pending : MetaIs P L key_pending q w
      file : FileIs P L path content w
      known : MetaIs P L (file_key path) meta w

    Local-of :
        {A : Type 0} {m : Eff (World P) SyncError A}
        → Keeps (MetaIs P L key_pending q) m
        → Keeps (FileIs P L path content) m
        → Keeps (MetaIs P L (file_key path) meta) m
        → Keeps Local m
    Local-of pending file known = record {
      at = λ w h. record {
        pending = pending.at w h.pending;
        file = file.at w h.file;
        known = known.at w h.known;
      };
    }

    Local-apply_other :
        (h : Hub P) (entry : ChangeEntry) (report : PullReport)
        → path ≢ entry.path
        → Keeps Local (apply_remote P h entry report)
    Local-apply_other h entry report differs =
        Local-of
          (MetaIs-apply_remote P L key_pending q h entry report
            (λ e. file_key-ne-key_pending entry.path (sym e)))
          (FileIs-apply_remote path content h entry report differs)
          (MetaIs-apply_remote P L (file_key path) meta h entry report
            (λ e. differs (file_key_injective path entry.path e)))

    module _ (waits : listed path (decode_pending P q) ≡ true) where
      Local-apply_same :
          (h : Hub P) (entry : ChangeEntry) (report : PullReport)
          → entry.path ≡ path
          → Keeps Local (apply_remote P h entry report)
      unfolding apply_remote apply_checked
      Local-apply_same h entry report same =
          Keeps-bind_at _ _
            (Local-of (MetaIs-pending_contains P L key_pending q entry.path)
              (FileIs-pending_contains P L path content entry.path)
              (MetaIs-pending_contains P L (file_key path) meta entry.path))
            λ w b g r.
              let e : b ≡ true =
                pending_contains_ok P L entry.path w r
                ∙ ap (λ z. listed entry.path (decode_pending P z)) g.pending.holds
                ∙ ap (λ z. listed z (decode_pending P q)) same
                ∙ waits in
              rw e (Keeps-pure _)

      Local-apply_remote :
          (h : Hub P) (entry : ChangeEntry) (report : PullReport)
          → Keeps Local (apply_remote P h entry report)
      Local-apply_remote h entry report = elim (text_dec path entry.path) [
        | yes same ↦ Local-apply_same h entry report (sym same)
        | no differs ↦ Local-apply_other h entry report differs
      ]

      Local-apply_all :
          (h : Hub P) (changes : List ChangeEntry) (report : PullReport)
          → Keeps Local (apply_all P h changes report)
      unfolding apply_all
      Local-apply_all h [] report = search keeps_rules
      Local-apply_all h (entry ∷ changes) report =
          Keeps-bind _ _ (Local-apply_remote h entry report) (λ r. Local-apply_all h changes r)

      Local-get : (k : Text) → Keeps Local (on_meta P (P.meta.get k))
      Local-get k =
          Local-of (MetaIs-get P L key_pending q k) (FileIs-on_meta P L path content (P.meta.get k))
            (MetaIs-get P L (file_key path) meta k)

      Local-pull_from : (h : Hub P) → Keeps Local (pull_from P h)
      unfolding pull_from
      Local-pull_from h = Keeps-bind _ _ (Local-get (checkpoint_key h.id)) λ stored.
          Keeps-bind _ _
            (Local-of (MetaIs-on_net P L key_pending q _) (FileIs-on_net P L path content _)
              (MetaIs-on_net P L (file_key path) meta _))
            λ resp. Keeps-bind _ _ (Local-apply_all h resp.changes _) λ report.
              Keeps-bind _ _
                (Local-of
                  (MetaIs-put P L key_pending q (checkpoint_key h.id) resp.checkpoint
                    (λ e. checkpoint_key-ne-key_pending h.id (sym e)))
                  (FileIs-on_meta P L path content _)
                  (MetaIs-put P L (file_key path) meta (checkpoint_key h.id) resp.checkpoint
                    (file_key-ne-checkpoint_key path h.id)))
                (λ _. Keeps-pure report)

      Local-pull : (engine : SyncEngine P) → Keeps Local (pull P engine)
      unfolding pull
      Local-pull engine =
          try_hubs-Keeps P engine
            (λ e.
              Local-of (MetaIs-notify P L key_pending q engine e)
                (FileIs-notify P L path content engine e)
                (MetaIs-notify P L (file_key path) meta engine e))
            (pull_from P) Local-pull_from engine.hubs none

  -- A path with a queued change keeps its local content and its metadata across a pull, whichever
  -- hub answers, whatever it lists, and however the pull ends.
  pub pull-queued :
      (engine : SyncEngine P) (w : World P) (path : Text)
      → queued P L path w ≡ true
      → (L.files_view (pull P engine w).1.files path ≡ L.files_view w.files path)
        × (L.meta_view (pull P engine w).1.meta (file_key path)
            ≡ L.meta_view w.meta (file_key path))
  pull-queued engine w path waits =
      let kept =
        (Local-pull path (L.meta_view w.meta key_pending) (L.files_view w.files path)
            (L.meta_view w.meta (file_key path)) waits engine).at
          w
          (record {
            pending = record { holds = refl };
            file = record { holds = refl };
            known = record { holds = refl };
          }) in
      (kept.file.holds, kept.known.holds)
