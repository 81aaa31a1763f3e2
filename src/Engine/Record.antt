-- ===== src/Engine/Record.antt =====
-- The recording of local changes, and the reads (crates/client-core/src/engine.rs).
use sync_stuff_opinionated.Base.{true, false, Option, none, some, List, []}
use sync_stuff_opinionated.Base.Text.{Text, Bytes, strip_prefix}
use sync_stuff_opinionated.Base.Lists.{filter_map}
use sync_stuff_opinionated.Base.Int.{ℤ}
use sync_stuff_opinionated.Base.Effect.{pure, ◌>>=◌, ◌>>◌}
use sync_stuff_opinionated.Engine.Types.{
  file_key, file_prefix, checkpoint_key, FileMeta, PendingChange, Platform, SyncEngine,
}
use sync_stuff_opinionated.Engine.Queue.{
  Action, on_meta, on_files, upsert_pending, and_then, unwrap_or, nonempty,
}
use sync_stuff_opinionated.Engine.Push.{report}

abbrev pub rev_of : Option FileMeta → Option Text
rev_of none = none
rev_of (some meta) = some meta.rev

module _ (P : Platform) where
  -- The revision on which the next push of a path is based: the stored one, unless it is empty.
  abbrev pub base_rev_of : Option Bytes → Option Text
  base_rev_of stored = nonempty (rev_of (and_then stored P.file_meta.decode))

  abbrev pub upsert_meta : Option Text → ℤ → Text → FileMeta
  upsert_meta base_rev mtime content_type = record {
    rev = unwrap_or base_rev [];
    mtime = mtime;
    content_type = content_type;
  }

  abbrev pub upsert_change : Text → Option Text → ℤ → Text → PendingChange
  upsert_change path base_rev mtime content_type = record {
    path = path;
    deleted = false;
    base_rev = base_rev;
    mtime = mtime;
    content_type = some content_type;
  }

  abbrev pub delete_change : Text → Option Text → ℤ → PendingChange
  delete_change path base_rev mtime = record {
    path = path;
    deleted = true;
    base_rev = base_rev;
    mtime = mtime;
    content_type = none;
  }

  unfoldable pub record_upsert_inner : Text → ℤ → Text → Bytes → Action P (Unit {0})
  record_upsert_inner path mtime content_type content = do
    stored ← on_meta P (P.meta.get (file_key path))
    on_files P (P.files.put path content mtime)
    on_meta P (
        P.meta.put (file_key path)
          (P.file_meta.encode (upsert_meta (base_rev_of stored) mtime content_type)))
    upsert_pending P (upsert_change path (base_rev_of stored) mtime content_type)

  unfoldable pub record_upsert : SyncEngine P → Text → ℤ → Text → Bytes → Action P (Unit {0})
  record_upsert engine path mtime content_type content =
      report P engine (record_upsert_inner path mtime content_type content)

  unfoldable pub record_delete_inner : Text → ℤ → Action P (Unit {0})
  record_delete_inner path mtime = do
    stored ← on_meta P (P.meta.get (file_key path))
    on_files P (P.files.delete path)
    on_meta P (P.meta.delete (file_key path))
    upsert_pending P (delete_change path (base_rev_of stored) mtime)

  unfoldable pub record_delete : SyncEngine P → Text → ℤ → Action P (Unit {0})
  record_delete engine path mtime = report P engine (record_delete_inner path mtime)

  unfoldable pub read_file : Text → Action P (Option Bytes)
  read_file path = on_files P (P.files.get path)

  unfoldable pub read_file_meta : Text → Action P (Option FileMeta)
  read_file_meta path = do
    stored ← on_meta P (P.meta.get (file_key path))
    pure (and_then stored P.file_meta.decode)

  unfoldable pub checkpoint : Text → Action P (Option Text)
  checkpoint hub_id = do
    stored ← on_meta P (P.meta.get (checkpoint_key hub_id))
    pure (and_then stored P.from_utf8)

  unfoldable pub list_file_paths : Action P (List Text)
  list_file_paths = do
    keys ← on_meta P (P.meta.list_keys file_prefix)
    pure (filter_map (λ k. strip_prefix k file_prefix) keys)
