-- ===== src/Desktop/FsStore/Written.antt =====
-- What a file of the desktop client holds after a call (crates/client-desktop/src/fs_store.rs), and
-- the same of the keys whose files are apart.
use mathlib.Core.Path.{subst}
use sync_stuff_opinionated.Base.{◌≡◌, ◌≢◌, refl, sym, ◌∙◌, true, false, Option, none, if◌then◌else◌}
use mathlib.Core.Logic.{ite}
use sync_stuff_opinionated.Base.Text.{Text, Bytes, text_dec}
use sync_stuff_opinionated.Base.Effect.{Result, ok, err, panic}
use sync_stuff_opinionated.Store.{landed, KeyedWrites}
use sync_stuff_opinionated.Desktop.Files.{
  IoError, not_found, other, PathBuf, file_name, FileSystem, IsFileSystem,
}
use sync_stuff_opinionated.Desktop.FsStore.{or_none, or_done, Disk, Action, on_disk}
use sync_stuff_opinionated.Desktop.FsStore.Replaced.{is_temp, Replaced}

module _ (F : FileSystem) (view : F.State → PathBuf → Option Bytes) (L : IsFileSystem F view) where
  pub read-ok :
      (p : PathBuf) (w : Disk F) (found : Option Bytes)
      → (on_disk F or_none (F.read p) w).0 ≡ ok found
      → found ≡ view w.files p
  unfolding on_disk
  read-ok p w found = onward (F.read p w.files).0 refl
    where
      onward :
          (r : Result IoError Bytes)
          → (F.read p w.files).0 ≡ r
          → or_none r ≡ ok found
          → found ≡ view w.files p
      onward (ok b) g e = cc (e, L.read_ok w.files p b g)
      onward (err (not_found x)) g e = cc (e, L.read_missing w.files p x g)
      onward (err (other x)) g e = cc
      onward panic g e = cc

  pub remove-Replaced :
      (p : PathBuf) (w : Disk F)
      → Replaced F view L p none w (on_disk F or_done (F.remove_file p) w)
  unfolding on_disk
  remove-Replaced p w = onward (F.remove_file p w.files).0 refl
    where
      after : F.State
      after = (F.remove_file p w.files).1

      onward :
          (r : Result IoError (Unit {0}))
          → (F.remove_file p w.files).0 ≡ r
          → Replaced F view L p none w (or_done r, record w { files = after })
      onward (ok _) e = record {
        here = L.remove_ok w.files p e;
        elsewhere = λ j free differs. L.remove_other w.files p j differs;
      }
      onward (err (not_found x)) e = record {
        here = L.remove_failed w.files p p (not_found x) e ∙ L.remove_missing w.files p x e;
        elsewhere = λ j free differs. L.remove_other w.files p j differs;
      }
      onward (err (other x)) e = record {
        here = L.remove_failed w.files p p (other x) e;
        elsewhere = λ j free differs. L.remove_other w.files p j differs;
      }
      onward panic e = absurd ((L.returns w.files p p).1 e)

  -- From files to keys: a key is a file of its own.
  pub Replaced-written :
      (Key : Text → Type 0) (file : Text → PathBuf) (k : Text) (new : Option Bytes)
      (write : Action F (Unit {0}))
      → ((j : Text) → Key j → is_temp (file_name (file j)) ≡ false)
      → ((j : Text) → Key j → j ≢ k → file j ≢ file k)
      → ((w : Disk F) → Replaced F view L (file k) new w (write w))
      → KeyedWrites Key (λ (w : Disk F) j. view w.files (file j)) k new write
  Replaced-written Key file k new write proper apart done = record {
    written = λ w j is_key. onward w j is_key (text_dec j k);
  }
    where
      onward :
          (w : Disk F) (j : Text)
          → Key j
          → (d : Dec (j ≡ k))
          → view (write w).1.files (file j) ≡ (
              if ite d true false
              then landed (write w).0 new (view w.files (file j))
              else view w.files (file j))
      onward w j is_key (yes same) =
          subst
            (λ i. view (write w).1.files (file i) ≡ landed (write w).0 new (view w.files (file i)))
            (sym same) (done w).here
      onward w j is_key (no differs) =
          (done w).elsewhere (file j) (proper j is_key) (apart j is_key differs)
