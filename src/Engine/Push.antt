-- ===== src/Engine/Push.antt =====
-- `push` and `sync` (crates/client-core/src/engine.rs).
use sync_stuff_opinionated.Base.{ℕ, ◌+◌, Option, none, some, List, [], ◌∷◌, if◌then◌else◌, nat_beq}
use sync_stuff_opinionated.Base.Text.{Text, is_empty}
use sync_stuff_opinionated.Base.Lists.{length}
use sync_stuff_opinionated.Base.Effect.{Result, ok, err, panic, pure, ◌>>=◌, ◌>>◌}
use sync_stuff_opinionated.Protocol.{PushChange, PushResult}
use sync_stuff_opinionated.Engine.Types.{
  file_key, key_pending, SyncError, FileMeta, PendingChange, PushReport, no_push, SyncReport,
  Platform, SyncEngine,
}
use sync_stuff_opinionated.Engine.Queue.{
  Action, on_meta, on_files, on_net, load_pending, bump_rev, and_then, unwrap_or, or_else, nonempty,
  octet_stream,
}
use sync_stuff_opinionated.Engine.Pull.{Hub, notify, try_hubs, pull}

-- The content type that is pushed: that of the stored metadata, else the queued one.
abbrev pub pushed_content_type : Option FileMeta → Option Text → Text
pushed_content_type none queued = unwrap_or queued octet_stream
pushed_content_type (some meta) queued =
    unwrap_or (or_else (nonempty (some meta.content_type)) queued) octet_stream

module _ (P : Platform) where
  abbrev pub push_change : PendingChange → Option Text → Option Text → PushChange
  push_change p content_type content_base64 = record {
    path = p.path;
    deleted = p.deleted;
    base_rev = p.base_rev;
    mtime = p.mtime;
    content_type = content_type;
    content_base64 = content_base64;
  }

  unfoldable pub build_upsert : PendingChange → Action P PushChange
  build_upsert p = do
    content ← on_files P (P.files.get p.path)
    meta ← on_meta P (P.meta.get (file_key p.path))
    pure (
        push_change p (some (pushed_content_type (and_then meta P.file_meta.decode) p.content_type))
          (some (P.base64.encode (unwrap_or content []))))

  unfoldable pub build_push_change : PendingChange → Action P PushChange
  build_push_change p = if p.deleted then pure (push_change p none none) else build_upsert p

  unfoldable pub build_push_changes : List PendingChange → Action P (List PushChange)
  build_push_changes [] = pure []
  build_push_changes (p ∷ pending) = do
    change ← build_push_change p
    changes ← build_push_changes pending
    pure (change ∷ changes)

  -- One round of the loop over the results: an upsert adopts the rev of the hub.
  unfoldable pub adopt : PendingChange → PushResult → Action P (Unit {0})
  adopt change result = if change.deleted then pure tt else bump_rev P change.path result.rev

  -- The loop over `pending.iter().zip(&results)`, with the count of what was pushed.
  unfoldable pub adopt_all : List PendingChange → List PushResult → ℕ → Action P ℕ
  adopt_all [] results pushed = pure pushed
  adopt_all (change ∷ pending) [] pushed = pure pushed
  adopt_all (change ∷ pending) (result ∷ results) pushed = do
    adopt change result
    adopt_all pending results (pushed + 1)

  -- The queue is cleared on a full batch only.
  unfoldable pub clear_if_full : List PushChange → List PushResult → Action P (Unit {0})
  clear_if_full changes results =
      if nat_beq (length results) (length changes)
      then on_meta P (P.meta.put key_pending (P.pending.encode []))
      else pure tt

  unfoldable pub push_to : List PendingChange → List PushChange → Hub P → Action P PushReport
  push_to pending changes h = do
    results ← on_net P (h.push changes)
    pushed ← adopt_all pending results 0
    clear_if_full changes results
    pure (record { hub = h.id; pushed = pushed })

  -- `report` notifies of an error, and hands the result on.
  abbrev pub reported : {A : Type 0} → SyncEngine P → Result SyncError A → Action P A
  reported engine (ok a) w = (ok a, w)
  reported engine (err e) w = notify P engine e w
  reported engine panic w = (panic, w)

  unfoldable pub report : {A : Type 0} → SyncEngine P → Action P A → Action P A
  report engine m w = let (r, w') = m w in reported engine r w'

  unfoldable pub push_pending : SyncEngine P → List PendingChange → Action P PushReport
  push_pending engine pending = if is_empty pending then pure no_push else do
    changes ← report engine (build_push_changes pending)
    try_hubs P engine (push_to pending changes) engine.hubs none

  unfoldable pub push : SyncEngine P → Action P PushReport
  push engine = do pending ← report engine (load_pending P); push_pending engine pending

  -- Push, then pull.
  unfoldable pub sync : SyncEngine P → Action P SyncReport
  sync engine = do
    pushed ← push engine
    pulled ← pull P engine
    pure (record { pull = pulled; push = pushed })
