-- ===== src/Engine/Pull.antt =====
-- `pull` (crates/client-core/src/engine.rs): a batch of hub changes is applied to the stores, then
-- the checkpoint of that hub advances; hubs are tried in order.
use sync_stuff_opinionated.Base.{◌+◌, Bool, Option, none, some, List, [], ◌∷◌, ◌++◌, if◌then◌else◌}
use sync_stuff_opinionated.Base.Text.{Text, codes}
use sync_stuff_opinionated.Base.Effect.{Result, ok, err, panic, pure, fail, ◌>>=◌, ◌>>◌}
use sync_stuff_opinionated.Protocol.{ChangeEntry, ChangesResponse, FileContent, HubError}
use sync_stuff_opinionated.Engine.Types.{
  file_key, checkpoint_key, SyncError, store, hub, PullReport, HubClient, Platform, SyncEngine,
}
use sync_stuff_opinionated.Engine.Queue.{
  Action, on_meta, on_files, on_net, pending_contains, encode_meta, and_then, unwrap_or,
}

abbrev pub not_found : Text → HubError
not_found path =
    HubError.decode (codes "change listed " ++ (path ++ codes " but file fetch returned 404"))

abbrev pub no_hubs : SyncError
no_hubs = hub (HubError.api 0 (codes "no hubs configured"))

module _ (P : Platform) where
  abbrev pub Hub : Type 0
  Hub = HubClient P.Net

  -- The `ok_or_else` of `apply_remote`.
  unfoldable pub found_or_fail : Text → Option FileContent → Action P FileContent
  found_or_fail path none = fail (hub (not_found path))
  found_or_fail path (some file) = pure file

  unfoldable pub apply_delete : ChangeEntry → PullReport → Action P PullReport
  apply_delete entry report = do
    on_files P (P.files.delete entry.path)
    on_meta P (P.meta.delete (file_key entry.path))
    pure (record report { deleted = report.deleted + 1 })

  unfoldable pub apply_upsert : Hub → ChangeEntry → PullReport → Action P PullReport
  unfolding found_or_fail
  apply_upsert h entry report = do
    response ← on_net P (h.get_file entry.path)
    file ← found_or_fail entry.path response
    on_files P (P.files.put entry.path file.content file.mtime)
    on_meta P (P.meta.put (file_key entry.path) (encode_meta P file))
    pure (record report { pulled = report.pulled + 1 })

  -- The branches of `apply_remote`, after the queue has been looked at.
  unfoldable pub apply_checked : Hub → ChangeEntry → PullReport → Bool → Action P PullReport
  apply_checked h entry report pending =
      if pending
      then pure (record report { local_conflicts = report.local_conflicts ++ entry.path ∷ [] })
      else if entry.deleted
      then apply_delete entry report
      else apply_upsert h entry report

  unfoldable pub apply_remote : Hub → ChangeEntry → PullReport → Action P PullReport
  apply_remote h entry report = do
    pending ← pending_contains P entry.path
    apply_checked h entry report pending

  unfoldable pub apply_all : Hub → List ChangeEntry → PullReport → Action P PullReport
  apply_all h [] report = pure report
  apply_all h (entry ∷ changes) report = do
    report ← apply_remote h entry report
    apply_all h changes report

  abbrev pub report_for : Hub → ChangesResponse → PullReport
  report_for h resp = record {
    hub = h.id;
    pulled = 0;
    deleted = 0;
    local_conflicts = [];
    checkpoint = some resp.checkpoint;
  }

  unfoldable pub pull_from : Hub → Action P PullReport
  pull_from h = do
    stored ← on_meta P (P.meta.get (checkpoint_key h.id))
    resp ← on_net P (h.changes (and_then stored P.from_utf8))
    report ← apply_all h resp.changes (report_for h resp)
    on_meta P (P.meta.put (checkpoint_key h.id) resp.checkpoint)
    pure report

  -- `notify` tells the notifier, and hands the error on.
  unfoldable pub notify : {A : Type 0} → SyncEngine P → SyncError → Action P A
  notify engine e w = elim engine.notifier [
    | none ↦ (err e, w)
    | some notify_error ↦ (err e, record w { ui = notify_error e w.ui })
  ]

  -- The loop over the hubs, in `pull` and in `push`: the first success returns, a store error ends
  -- the loop, and after the last hub the last hub error is reported.
  abbrev pub after_attempt :
      {A : Type 0}
      → SyncEngine P
      → Result SyncError A
      → (Option SyncError → Action P A)
      → Action P A
  after_attempt engine (ok report) others w = (ok report, w)
  after_attempt engine (err (store e)) others w = notify engine (store e) w
  after_attempt engine (err (hub e)) others w = others (some (hub e)) w
  after_attempt engine panic others w = (panic, w)

  unfoldable pub try_hubs :
      {A : Type 0} → SyncEngine P → (Hub → Action P A) → List Hub → Option SyncError → Action P A
  unfolding notify
  try_hubs engine attempt [] last w = notify engine (unwrap_or last no_hubs) w
  try_hubs engine attempt (h ∷ hubs) last w =
      let (r, w') = attempt h w in
      after_attempt engine r (λ last. try_hubs engine attempt hubs last) w'

  unfoldable pub pull : SyncEngine P → Action P PullReport
  pull engine = try_hubs engine pull_from engine.hubs none
