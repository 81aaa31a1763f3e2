-- ===== src/Desktop/FsStore.antt =====
-- The stores of the desktop client over a directory (crates/client-desktop/src/fs_store.rs).
pub mod Replaced
pub mod Written
pub mod Metadata
pub mod Synced
use sync_stuff_opinionated.Base.{
  ℕ, ◌+◌, ◌%◌, ◌^◌, Option, none, some, List, [], ◌∷◌, ◌++◌, if◌then◌else◌,
}
use sync_stuff_opinionated.Base.Text.{Text, Bytes, codes, starts_with}
use sync_stuff_opinionated.Base.Split.{ends_with}
use sync_stuff_opinionated.Base.Int.{ℤ, pos, zleb}
use sync_stuff_opinionated.Base.Decimal.{decimal}
use sync_stuff_opinionated.Base.Effect.{
  Eff, Result, ok, err, panic, pure, fail, of_result, ◌>>=◌, ◌>>◌, map_err,
}
use sync_stuff_opinionated.Store.{StoreError, MetaStore, FileStore}
use sync_stuff_opinionated.Desktop.Files.{
  IoError, not_found, other, PathBuf, components, escapes, parent, FileSystem,
}

abbrev pub io_err : IoError → StoreError
io_err (not_found e) = StoreError.io e
io_err (other e) = StoreError.io e

-- A missing file is no content, and nothing to delete.
abbrev pub or_none : Result IoError Bytes → Result StoreError (Option Bytes)
or_none (ok bytes) = ok (some bytes)
or_none (err (not_found e)) = ok none
or_none (err (other e)) = err (StoreError.io e)
or_none panic = panic

abbrev pub or_done : Result IoError (Unit {0}) → Result StoreError (Unit {0})
or_done (ok _) = ok tt
or_done (err (not_found e)) = ok tt
or_done (err (other e)) = err (StoreError.io e)
or_done panic = panic

-- The name of a temporary file, of the process and its counter.
abbrev pub temp_name : ℕ → ℕ → Text
temp_name pid n = codes "." ++ (decimal pid ++ (codes "-" ++ (decimal n ++ codes ".tmp")))

module _ (F : FileSystem) where
  -- The disk, and `TMP_COUNTER`.
  pub record Disk : Type 0 where
    pub files : F.State
    pub counter : ℕ

  abbrev pub Action : Type 0 → Type 0
  Action A = Eff Disk StoreError A

  -- A call of the file system, with the `map_err` of its result.
  unfoldable pub on_disk :
      {A B : Type 0} → (Result IoError A → Result StoreError B) → Eff F.State IoError A → Action B
  on_disk convert call d = let (r, s) = call d.files in (convert r, record d { files = s })

  abbrev pub checked : {A : Type 0} → Eff F.State IoError A → Action A
  checked call = on_disk (map_err io_err) call

  unfoldable pub tmp_name : ℕ → Action Text
  tmp_name pid d = (ok (temp_name pid d.counter), record d { counter = (d.counter + 1) % 2 ^ 64 })

  unfoldable pub atomic_write : ℕ → PathBuf → Bytes → Action (Unit {0})
  atomic_write pid path bytes = do
    checked (F.create_dir_all (parent path))
    name ← tmp_name pid
    checked (F.write (parent path ++ name ∷ []) bytes)
    checked (F.rename (parent path ++ name ∷ []) path)

  -- `let _ = filetime::set_file_mtime(..)`: a failure is ignored.
  abbrev pub ignored : Result IoError (Unit {0}) → Result StoreError (Unit {0})
  ignored (ok _) = ok tt
  ignored (err _) = ok tt
  ignored panic = panic

  abbrev pub touch : PathBuf → ℤ → Action (Unit {0})
  touch path mtime =
      if zleb (pos 1) mtime then on_disk ignored (F.set_file_mtime path mtime) else pure tt

  -- The steps of a write of the file store.
  abbrev pub write_touched : ℕ → PathBuf → Bytes → ℤ → Action (Unit {0})
  write_touched pid full bytes mtime = do
    checked (F.create_dir_all (parent full))
    name ← tmp_name pid
    checked (F.write (parent full ++ name ∷ []) bytes)
    touch (parent full ++ name ∷ []) mtime
    checked (F.rename (parent full ++ name ∷ []) full)

  -- The metadata store: one file per key, named by the encoded key.
  module _ (pid : ℕ) (dir : PathBuf) (encode : Text → Text) (decode : Text → Option Text) where
    -- `FsMetaStore::open`.
    abbrev pub open_meta : Action (Unit {0})
    open_meta = checked (F.create_dir_all dir)

    abbrev pub path_for : Text → PathBuf
    path_for key = dir ++ encode key ∷ []

    unfoldable pub get_meta : Text → Action (Option Bytes)
    get_meta key = on_disk or_none (F.read (path_for key))

    unfoldable pub put_meta : Text → Bytes → Action (Unit {0})
    put_meta key value = atomic_write pid (path_for key) value

    unfoldable pub delete_meta : Text → Action (Unit {0})
    delete_meta key = on_disk or_done (F.remove_file (path_for key))

    -- The key of a name in the directory, if it is one with the prefix.
    abbrev pub with_prefix : Text → Option Text → Option Text
    with_prefix prefix none = none
    with_prefix prefix (some key) = if starts_with key prefix then some key else none

    abbrev pub key_of : Text → Option Text → Option Text
    key_of prefix none = none
    key_of prefix (some name) =
        if ends_with name (codes ".tmp") then none else with_prefix prefix (decode name)

    abbrev pub add_key : Option Text → List Text → List Text
    add_key none keys = keys
    add_key (some key) keys = key ∷ keys

    abbrev pub keys_in : Text → List (Result IoError (Option Text)) → Result StoreError (List Text)
    keys_in prefix [] = ok []
    keys_in prefix (ok name ∷ entries) =
        let rest = keys_in prefix entries in
        elim rest [
          | ok keys ↦ ok (add_key (key_of prefix name) keys)
          | err e ↦ err e
          | panic ↦ panic
        ]
    keys_in prefix (err e ∷ entries) = err (io_err e)
    keys_in prefix (panic ∷ entries) = panic

    unfoldable pub list_meta_keys : Text → Action (List Text)
    list_meta_keys prefix = do
      entries ← checked (F.read_dir dir)
      of_result (keys_in prefix entries)

    abbrev pub fs_meta : MetaStore
    fs_meta = record {
      State = Disk;
      get = get_meta;
      put = put_meta;
      delete = delete_meta;
      list_keys = list_meta_keys;
    }

  -- The file store: the directory that is synced.
  module _ (pid : ℕ) (root : PathBuf) where
    abbrev pub unsafe_path : Text → StoreError
    unsafe_path path = StoreError.io (codes "unsafe path: " ++ path)

    -- A call at a path, which must not lead out of the root.
    abbrev pub at_path : {A : Type 0} → Text → (PathBuf → Action A) → Action A
    at_path path call =
        if escapes path then fail (unsafe_path path) else call (root ++ components path)

    unfoldable pub get_file : Text → Action (Option Bytes)
    get_file path = at_path path (λ full. on_disk or_none (F.read full))

    unfoldable pub put_file : Text → Bytes → ℤ → Action (Unit {0})
    put_file path bytes mtime = at_path path (λ full. write_touched pid full bytes mtime)

    unfoldable pub delete_file : Text → Action (Unit {0})
    delete_file path = at_path path (λ full. on_disk or_done (F.remove_file full))

    abbrev pub fs_files : FileStore
    fs_files = record { State = Disk; get = get_file; put = put_file; delete = delete_file }
