-- ===== src/Desktop/FsStore/Metadata.antt =====
-- The metadata store of the desktop client is an atomic map (`FsMetaStore`,
-- crates/client-desktop/src/fs_store.rs), as far as the names of its files are no temporary names.
use mathlib.Core.Path.{subst}
use sync_stuff_opinionated.Base.{ℕ, ◌≡◌, ◌≢◌, refl, sym, ap, ◌∙◌, false, Option, none, some, List}
use sync_stuff_opinionated.Base.Text.{Text, Bytes}
use sync_stuff_opinionated.Base.Effect.{Result, ok, err, panic, of_result, map_err, ◌>>=◌, follow}
use sync_stuff_opinionated.Store.{IsMetaStoreOn}
use sync_stuff_opinionated.Desktop.Files.{IoError, PathBuf, file_name, FileSystem, IsFileSystem}
use sync_stuff_opinionated.Desktop.FsStore.{
  io_err, Disk, on_disk, path_for, get_meta, put_meta, delete_meta, list_meta_keys, keys_in,
  fs_meta,
}
use sync_stuff_opinionated.Desktop.FsStore.Replaced.{
  is_temp, file_name-append, atomic_write-Replaced,
}
use sync_stuff_opinionated.Desktop.FsStore.Written.{read-ok, remove-Replaced, Replaced-written}

module _ (F : FileSystem) (view : F.State → PathBuf → Option Bytes) (L : IsFileSystem F view) where
  module _ (pid : ℕ) (dir : PathBuf) (encode : Text → Text) (decode : Text → Option Text)
      (back : (key : Text) → decode (encode key) ≡ some key) where
    -- A key whose file has no temporary name.
    abbrev pub MetaKey : Text → Type 0
    MetaKey key = is_temp (encode key) ≡ false

    abbrev pub meta_view : Disk F → Text → Option Bytes
    meta_view w key = view w.files (path_for F pid dir encode decode key)

    meta_proper :
        (key : Text)
        → MetaKey key
        → is_temp (file_name (path_for F pid dir encode decode key)) ≡ false
    meta_proper key h = ap is_temp (file_name-append dir (encode key)) ∙ h

    meta_apart :
        (j k : Text)
        → j ≢ k
        → path_for F pid dir encode decode j ≢ path_for F pid dir encode decode k
    meta_apart j k differs same =
        let names : encode j ≡ encode k =
          sym (file_name-append dir (encode j))
          ∙ ap file_name same
          ∙ file_name-append dir (encode k) in
        let keys : some j ≡ some k = sym (back j) ∙ ap decode names ∙ back k in differs cc

    listing :
        (prefix : Text) (w : Disk F)
        → (list_meta_keys F pid dir encode decode prefix w).1
          ≡ record w { files = (F.read_dir dir w.files).1 }
    unfolding list_meta_keys on_disk of_result ◌>>=◌
    listing prefix w = onward (F.read_dir dir w.files).0
      where
        after : Disk F
        after = record w { files = (F.read_dir dir w.files).1 }

        onward :
            (r : Result IoError (List (Result IoError (Option Text))))
            → (follow
                (map_err io_err r)
                (λ entries. of_result (keys_in F pid dir encode decode prefix entries))
                after).1
              ≡ after
        onward (ok entries) = refl
        onward (err e) = refl
        onward panic = refl

    -- The metadata store of the desktop client reads back what was last put at a key, has nothing at
    -- a key that was deleted, and a failed write changes nothing: provided that the encoding of the
    -- keys can be decoded, at the keys whose encoding is no temporary name.
    pub fs_meta-IsMetaStoreOn : IsMetaStoreOn MetaKey (fs_meta F pid dir encode decode) meta_view
    unfolding get_meta put_meta delete_meta list_meta_keys on_disk
    fs_meta-IsMetaStoreOn = record {
      reads = record {
        returned =
            λ w k found is_key e. read-ok F view L (path_for F pid dir encode decode k) w found e;
        same = λ w k j is_key. L.read_leaves (path_for F pid dir encode decode k) w.files _;
      };
      puts = λ k v is_key.
          Replaced-written F view L MetaKey (path_for F pid dir encode decode) k (some v) _
            meta_proper (λ j h differs. meta_apart j k differs)
            (atomic_write-Replaced F view L (path_for F pid dir encode decode k) v
              (meta_proper k is_key) pid);
      deletes = λ k is_key.
          Replaced-written F view L MetaKey (path_for F pid dir encode decode) k none _ meta_proper
            (λ j h differs. meta_apart j k differs)
            (remove-Replaced F view L (path_for F pid dir encode decode k));
      lists = λ prefix w j is_key.
          subst (λ (v : Disk F). view v.files (path_for F pid dir encode decode j) ≡ meta_view w j)
            (sym (listing prefix w))
            (L.list_leaves dir w.files (path_for F pid dir encode decode j));
    }
