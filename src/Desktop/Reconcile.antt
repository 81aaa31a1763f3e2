-- ===== src/Desktop/Reconcile.antt =====
-- The reconciliation of the engine with the directory (crates/client-desktop/src/reconcile.rs):
-- what has changed on disk is recorded, what has vanished is recorded as deleted, then both sides
-- are synced. The files of a `HashMap` come in the order of the list.
pub mod Known
pub mod Unchanged
pub mod Noticed
use sync_stuff_opinionated.Base.{
  Bool, true, false, not, Option, none, some, List, [], ◌∷◌, if◌then◌else◌,
}
use sync_stuff_opinionated.Base.Text.{Text, Bytes}
use sync_stuff_opinionated.Base.Int.{ℤ, zeqb}
use sync_stuff_opinionated.Base.Effect.{
  Eff, Result, ok, err, panic, pure, fail, panics, with_err, caught, ◌>>=◌, ◌>>◌,
}
use sync_stuff_opinionated.Engine.Types.{
  SyncError, FileMeta, SyncReport, Platform, World, SyncEngine,
}
use sync_stuff_opinionated.Engine.Push.{sync}
use sync_stuff_opinionated.Engine.Record.{
  read_file_meta, list_file_paths, record_upsert, record_delete,
}
use sync_stuff_opinionated.Desktop.Files.{IoError, not_found, other}
use sync_stuff_opinionated.Desktop.Scan.{Entries, Local, contains_key, scan}

-- `anyhow::Error`, by where it comes from.
pub data ReconcileError : Type 0 where
  engine_error : SyncError → ReconcileError
  read_error : Text → ReconcileError

abbrev pub mtime_of : Option FileMeta → Option ℤ
mtime_of none = none
mtime_of (some m) = some m.mtime

abbrev pub is_changed : ℤ → Option ℤ → Bool
is_changed mtime none = true
is_changed mtime (some known) = not (zeqb known mtime)

module _ (P : Platform) (engine : SyncEngine P) where
  abbrev pub Action : Type 0 → Type 0
  Action A = Eff (World P) ReconcileError A

  abbrev pub on_engine : {A : Type 0} → Eff (World P) SyncError A → Action A
  on_engine m = with_err engine_error m

  -- `tokio::fs::read` of the path below the root, and the content type that `mime_guess` has.
  module _ (read : Text → Eff P.files.State IoError Bytes) (guess : Text → Text) where
    abbrev pub read_disk : Text → Eff (World P) IoError Bytes
    read_disk path w = let (r, s) = read path w.files in (r, record w { files = s })

    -- A file that has vanished since the scan is left for the next pass.
    abbrev pub upsert_read : Text → ℤ → Result IoError Bytes → Action (Unit {0})
    upsert_read path mtime (ok content) =
        on_engine (record_upsert P engine path mtime (guess path) content)
    upsert_read path mtime (err (not_found e)) = pure tt
    upsert_read path mtime (err (other e)) = fail (read_error e)
    upsert_read path mtime panic = panics

    abbrev pub record_changed : Text → ℤ → Action (Unit {0})
    record_changed path mtime = do content ← caught (read_disk path); upsert_read path mtime content

    unfoldable pub reconcile_file : Text → ℤ → Action (Unit {0})
    reconcile_file path mtime = do
      known ← on_engine (read_file_meta P path)
      if is_changed mtime (mtime_of known) then record_changed path mtime else pure tt

    unfoldable pub record_local : Local → Action (Unit {0})
    record_local [] = pure tt
    record_local ((path, mtime) ∷ files) = do reconcile_file path mtime; record_local files

    -- `now_secs` is read from the clock at each deletion.
    abbrev pub delete_now : (World P → ℤ) → Text → Action (Unit {0})
    delete_now now_secs path w = on_engine (record_delete P engine path (now_secs w)) w

    unfoldable pub record_vanished : Local → (World P → ℤ) → List Text → Action (Unit {0})
    record_vanished files now_secs [] = pure tt
    record_vanished files now_secs (path ∷ paths) = do
      if contains_key path files then pure tt else delete_now now_secs path
      record_vanished files now_secs paths

    -- The recording of what has changed in the directory.
    unfoldable pub record_directory : Local → (World P → ℤ) → Action (Unit {0})
    record_directory files now_secs = do
      record_local files
      paths ← on_engine (list_file_paths P)
      record_vanished files now_secs paths

    unfoldable pub reconcile_and_sync : Option Entries → (World P → ℤ) → Action (Unit {0})
    reconcile_and_sync directory now_secs = do
      record_directory (scan directory) now_secs
      report ← on_engine (sync P engine)
      pure tt
