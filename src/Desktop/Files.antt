-- ===== src/Desktop/Files.antt =====
-- The file system below the desktop client, as `std::fs` and `tokio::fs` show it, and the paths of
-- `std::path` on Unix. What a call does is a parameter; IsFileSystem says what is relied on.
use sync_stuff_opinionated.Base.{ℕ, ◌≡◌, ◌≢◌, Bool, not, ◌||◌, Option, none, some, List, [], ◌∷◌}
use sync_stuff_opinionated.Base.Text.{Text, Bytes, codes, ◌==◌, starts_with, is_empty}
use sync_stuff_opinionated.Base.Lists.{any, retain}
use sync_stuff_opinionated.Base.Split.{split}
use sync_stuff_opinionated.Base.Int.{ℤ}
use sync_stuff_opinionated.Base.Effect.{Eff, Result, ok, err, panic}

-- `std::io::Error`: whether its kind is `NotFound`, and its text.
pub data IoError : Type 0 where
  not_found : Text → IoError
  other : Text → IoError

-- A path is the list of its components, as two paths are compared and as the system resolves them:
-- empty and `.` components are left out.
abbrev pub PathBuf : Type 0
PathBuf = List Text

abbrev pub slash : ℕ
slash = 47

-- The normal components of a path as it is written.
abbrev pub components : Text → PathBuf
components path = retain (λ part. not (is_empty part || part == codes ".")) (split slash path)

-- Whether a path has a root or parent component; there is no prefix component on Unix.
abbrev pub escapes : Text → Bool
escapes path = starts_with path (slash ∷ []) || any (λ part. part == codes "..") (split slash path)

-- `Path::parent`; that of the empty path is the current directory, which is the empty path, too.
abbrev pub parent : PathBuf → PathBuf
parent [] = []
parent (name ∷ []) = []
parent (dir ∷ next ∷ path) = dir ∷ parent (next ∷ path)

abbrev pub file_name : PathBuf → Text
file_name [] = []
file_name (name ∷ []) = name
file_name (dir ∷ next ∷ path) = file_name (next ∷ path)

-- An entry of a directory: its name is `none` if it is no Unicode.
pub record FileSystem : Type 1 where
  pub State : Type 0
  pub read : PathBuf → Eff State IoError Bytes
  pub write : PathBuf → Bytes → Eff State IoError (Unit {0})
  pub rename : PathBuf → PathBuf → Eff State IoError (Unit {0})
  pub remove_file : PathBuf → Eff State IoError (Unit {0})
  pub create_dir_all : PathBuf → Eff State IoError (Unit {0})
  pub set_file_mtime : PathBuf → ℤ → Eff State IoError (Unit {0})
  pub read_dir : PathBuf → Eff State IoError (List (Result IoError (Option Text)))

-- A call that changes no content.
abbrev pub Leaves : {S E A : Type 0} → (S → PathBuf → Option Bytes) → Eff S E A → Type 0
Leaves {S} view call = (s : S) (j : PathBuf) → view (call s).1 j ≡ view s j

-- A write may fail half way, so it is only said to leave the other files alone; a rename is atomic.
pub record IsFileSystem (F : FileSystem) (view : F.State → PathBuf → Option Bytes) : Type 0 where
  pub read_ok : (s : F.State) (p : PathBuf) (b : Bytes) → (F.read p s).0 ≡ ok b → view s p ≡ some b
  pub read_missing :
      (s : F.State) (p : PathBuf) (e : Text) → (F.read p s).0 ≡ err (not_found e) → view s p ≡ none
  pub read_leaves : (p : PathBuf) → Leaves view (F.read p)
  pub write_ok :
      (s : F.State) (p : PathBuf) (b : Bytes)
      → (F.write p b s).0 ≡ ok tt
      → view (F.write p b s).1 p ≡ some b
  pub write_other :
      (s : F.State) (p : PathBuf) (b : Bytes) (j : PathBuf)
      → j ≢ p
      → view (F.write p b s).1 j ≡ view s j
  pub rename_ok :
      (s : F.State) (p q : PathBuf)
      → (F.rename p q s).0 ≡ ok tt
      → view (F.rename p q s).1 q ≡ view s p
  pub rename_other :
      (s : F.State) (p q j : PathBuf) → j ≢ p → j ≢ q → view (F.rename p q s).1 j ≡ view s j
  pub rename_failed :
      (s : F.State) (p q : PathBuf) (e : IoError) (j : PathBuf)
      → (F.rename p q s).0 ≡ err e
      → view (F.rename p q s).1 j ≡ view s j
  pub remove_ok :
      (s : F.State) (p : PathBuf)
      → (F.remove_file p s).0 ≡ ok tt
      → view (F.remove_file p s).1 p ≡ none
  pub remove_other : (s : F.State) (p j : PathBuf) → j ≢ p → view (F.remove_file p s).1 j ≡ view s j
  pub remove_failed :
      (s : F.State) (p j : PathBuf) (e : IoError)
      → (F.remove_file p s).0 ≡ err e
      → view (F.remove_file p s).1 j ≡ view s j
  pub remove_missing :
      (s : F.State) (p : PathBuf) (e : Text)
      → (F.remove_file p s).0 ≡ err (not_found e)
      → view s p ≡ none
  pub returns :
      (s : F.State) (p q : PathBuf) → ((F.rename p q s).0 ≢ panic) × ((F.remove_file p s).0 ≢ panic)
  pub create_leaves : (p : PathBuf) → Leaves view (F.create_dir_all p)
  pub touch_leaves : (p : PathBuf) (mtime : ℤ) → Leaves view (F.set_file_mtime p mtime)
  pub list_leaves : (p : PathBuf) → Leaves view (F.read_dir p)
