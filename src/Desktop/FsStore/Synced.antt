-- ===== src/Desktop/FsStore/Synced.antt =====
-- The file store of the desktop client is an atomic map (`FsFileStore`,
-- crates/client-desktop/src/fs_store.rs), as far as a path is written in its normal form.
use mathlib.Core.Path.{subst}
use sync_stuff_opinionated.Base.{
  ℕ, ◌≡◌, ◌≢◌, refl, sym, ap, ◌∙◌, Bool, true, false, Option, none, some, [], ◌∷◌, ◌++◌,
  if◌then◌else◌,
}
use sync_stuff_opinionated.Base.Text.{Text, Bytes}
use sync_stuff_opinionated.Base.Split.{split, join, join-split, more, split-more}
use sync_stuff_opinionated.Base.Effect.{fail}
use sync_stuff_opinionated.Store.{KeyedWrites, IsFileStoreOn}
use sync_stuff_opinionated.Desktop.Files.{
  PathBuf, slash, components, escapes, file_name, FileSystem, IsFileSystem,
}
use sync_stuff_opinionated.Desktop.FsStore.{
  or_none, or_done, Disk, Action, on_disk, unsafe_path, write_touched, at_path, get_file, put_file,
  delete_file, fs_files,
}
use sync_stuff_opinionated.Desktop.FsStore.Replaced.{is_temp, Replaced, write_touched-Replaced}
use sync_stuff_opinionated.Desktop.FsStore.Written.{read-ok, remove-Replaced, Replaced-written}

append-cancel : (root p q : PathBuf) → root ++ p ≡ root ++ q → p ≡ q
append-cancel [] p q e = e
append-cancel (name ∷ root) p q e = append-cancel root p q cc

file_name-root : (root p : PathBuf) → more p ≡ true → file_name (root ++ p) ≡ file_name p
file_name-root [] p h = refl
file_name-root (d ∷ []) [] h = cc
file_name-root (d ∷ []) (name ∷ p) h = refl
file_name-root (d ∷ e ∷ root) p h = file_name-root (e ∷ root) p h

module _ (F : FileSystem) (view : F.State → PathBuf → Option Bytes) (L : IsFileSystem F view) where
  module _ (pid : ℕ) (root : PathBuf) where
    -- A path inside the root, written the way that its components spell it, whose name is no
    -- temporary name.
    pub record FileKey (path : Text) : Type 0 where
      pub inside : escapes path ≡ false
      pub spelled : components path ≡ split slash path
      pub lasting : is_temp (file_name (split slash path)) ≡ false

    abbrev pub file_view : Disk F → Text → Option Bytes
    file_view w path = view w.files (root ++ components path)

    file_proper :
        (path : Text) → FileKey path → is_temp (file_name (root ++ components path)) ≡ false
    file_proper path key =
        ap (λ p. is_temp (file_name (root ++ p))) key.spelled
        ∙ ap is_temp (file_name-root root (split slash path) (split-more slash path))
        ∙ key.lasting

    file_apart :
        (i k : Text) → FileKey i → FileKey k → i ≢ k → root ++ components i ≢ root ++ components k
    file_apart i k key_i key_k differs same = differs (
        sym (join-split slash i)
        ∙ ap (join slash) (sym key_i.spelled ∙ append-cancel root _ _ same ∙ key_k.spelled)
        ∙ join-split slash k)

    -- A call at such a path goes to the file.
    at_path-inside :
        {A : Type 0} (path : Text) (call : PathBuf → Action F A)
        → FileKey path
        → at_path F pid root path call ≡ call (root ++ components path)
    at_path-inside path call key =
        ap (λ b. if b then fail (unsafe_path F pid root path) else call (root ++ components path))
          key.inside

    file_read :
        (path : Text)
        → FileKey path
        → get_file F pid root path ≡ on_disk F or_none (F.read (root ++ components path))
    unfolding get_file
    file_read path key = at_path-inside path (λ full. on_disk F or_none (F.read full)) key

    -- A write of the store is one of its file.
    file_written :
        (k : Text) (new : Option Bytes) (call : PathBuf → Action F (Unit {0}))
        → FileKey k
        → ((w : Disk F)
            → Replaced F view L (root ++ components k) new w (call (root ++ components k) w))
        → KeyedWrites FileKey file_view k new (at_path F pid root k call)
    file_written k new call key done =
        subst (KeyedWrites FileKey file_view k new) (sym (at_path-inside k call key)) (
          Replaced-written F view L FileKey (λ path. root ++ components path) k new _ file_proper
            (λ j key_j differs. file_apart j k key_j key differs) done)

    read_same :
        (k : Text) (w : Disk F) (j : PathBuf)
        → view (get_file F pid root k w).1.files j ≡ view w.files j
    unfolding get_file on_disk fail
    read_same k w j = onward (escapes k)
      where
        onward :
            (b : Bool)
            → view
                ((if b
                    then fail (unsafe_path F pid root k)
                    else on_disk F or_none (F.read (root ++ components k)))
                  w).1.files
                j
              ≡ view w.files j
        onward true = refl
        onward false = L.read_leaves (root ++ components k) w.files j

    -- The file store of the desktop client reads back what was last put at a path, has nothing at a
    -- path that was deleted, and a failed write changes nothing: at the paths that do not lead out
    -- of the directory, are written in their normal form, and whose name is no temporary name.
    pub fs_files-IsFileStoreOn : IsFileStoreOn FileKey (fs_files F pid root) file_view
    unfolding get_file put_file delete_file on_disk
    fs_files-IsFileStoreOn = record {
      reads = record {
        returned = λ w k found key e.
            read-ok F view L (root ++ components k) w found
              (ap (λ (call : Action F (Option Bytes)). (call w).0) (sym (file_read k key)) ∙ e);
        same = λ w k j key. read_same k w (root ++ components j);
      };
      puts = λ k v mtime key.
          file_written k (some v) (λ full. write_touched F pid full v mtime) key
            (write_touched-Replaced F view L (root ++ components k) v (file_proper k key) pid
              mtime);
      deletes = λ k key.
          file_written k none (λ full. on_disk F or_done (F.remove_file full)) key
            (remove-Replaced F view L (root ++ components k));
    }
