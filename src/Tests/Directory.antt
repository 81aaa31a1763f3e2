-- ===== src/Tests/Directory.antt =====
-- A directory for the runs: a file system in memory, where every call succeeds but those on a
-- missing file.
use mathlib.Core.Logic.{ite}
use sync_stuff_opinionated.Base.{◌≡◌, ◌≢◌, refl, ◌∙◌, arith, Option, none, some, [], ◌∷◌}
use sync_stuff_opinionated.Base.Text.{Bytes, codes, text_dec}
use sync_stuff_opinionated.Base.Effect.{Result, ok, err, panic}
use sync_stuff_opinionated.Desktop.Files.{IoError, not_found, PathBuf, FileSystem, IsFileSystem}
use sync_stuff_opinionated.Desktop.FsStore.{Disk}

abbrev Content : Type 0
Content = PathBuf → Option Bytes

unfoldable pub path_dec : Discrete PathBuf
path_dec [] [] = yes refl
path_dec [] (_ ∷ _) = no λ e. cc
path_dec (_ ∷ _) [] = no λ e. cc
path_dec (name ∷ p) (other ∷ q) = both (text_dec name other) (path_dec p q)
  where
    both : Dec (name ≡ other) → Dec (p ≡ q) → Dec ((name ∷ p) ≡ (other ∷ q))
    both (yes e) (yes f) = yes cc
    both (yes e) (no differs) = no λ f. differs cc
    both (no differs) _ = no λ f. differs cc

-- One file of the content replaced.
abbrev set : PathBuf → Option Bytes → Content → Content
set p new s j = ite (path_dec j p) new (s j)

abbrev missing : IoError
missing = not_found (codes "no such file")

abbrev moved : PathBuf → PathBuf → Option Bytes → Content → Result IoError (Unit {0}) × Content
moved p q none s = (err missing, s)
moved p q (some b) s = (ok tt, set q (some b) (set p none s))

abbrev read_result : Option Bytes → Result IoError Bytes
read_result none = err missing
read_result (some b) = ok b

abbrev removed : PathBuf → Option Bytes → Content → Result IoError (Unit {0}) × Content
removed p none s = (err missing, s)
removed p (some b) s = (ok tt, set p none s)

abbrev pub memory : FileSystem
memory = record {
  State = Content;
  read = λ p s. (read_result (s p), s);
  write = λ p b s. (ok tt, set p (some b) s);
  rename = λ p q s. moved p q (s p) s;
  remove_file = λ p s. removed p (s p) s;
  create_dir_all = λ p s. (ok tt, s);
  set_file_mtime = λ p mtime s. (ok tt, s);
  read_dir = λ p s. (ok [], s);
}

set-eq : (p : PathBuf) (new : Option Bytes) (s : Content) → set p new s p ≡ new
set-eq p new s = ground arith

set-ne :
    (p : PathBuf) (new : Option Bytes) (s : Content) (j : PathBuf) → j ≢ p → set p new s j ≡ s j
set-ne p new s j differs = ground arith

abbrev pub memory_view : Content → PathBuf → Option Bytes
memory_view s p = s p

read_result-ok : (o : Option Bytes) (b : Bytes) → read_result o ≡ ok b → o ≡ some b
read_result-ok none b e = cc
read_result-ok (some a) b e = cc

read_result-err : (o : Option Bytes) (x : IoError) → read_result o ≡ err x → o ≡ none
read_result-err none x e = refl
read_result-err (some a) x e = cc

moved-ok :
    (p q : PathBuf) (o : Option Bytes) (s : Content)
    → (moved p q o s).0 ≡ ok tt
    → (moved p q o s).1 q ≡ o
moved-ok p q none s e = cc
moved-ok p q (some b) s e = set-eq q (some b) (set p none s)

moved-other :
    (p q : PathBuf) (o : Option Bytes) (s : Content) (j : PathBuf)
    → j ≢ p
    → j ≢ q
    → (moved p q o s).1 j ≡ s j
moved-other p q none s j d e = refl
moved-other p q (some b) s j d e = set-ne q (some b) (set p none s) j e ∙ set-ne p none s j d

moved-failed :
    (p q : PathBuf) (o : Option Bytes) (s : Content) (x : IoError) (j : PathBuf)
    → (moved p q o s).0 ≡ err x
    → (moved p q o s).1 j ≡ s j
moved-failed p q none s x j e = refl
moved-failed p q (some b) s x j e = cc

moved-returns : (p q : PathBuf) (o : Option Bytes) (s : Content) → (moved p q o s).0 ≢ panic
moved-returns p q none s e = cc
moved-returns p q (some b) s e = cc

removed-ok :
    (p : PathBuf) (o : Option Bytes) (s : Content)
    → (removed p o s).0 ≡ ok tt
    → (removed p o s).1 p ≡ none
removed-ok p none s e = cc
removed-ok p (some b) s e = set-eq p none s

removed-other :
    (p : PathBuf) (o : Option Bytes) (s : Content) (j : PathBuf) → j ≢ p → (removed p o s).1 j ≡ s j
removed-other p none s j d = refl
removed-other p (some b) s j d = set-ne p none s j d

removed-failed :
    (p : PathBuf) (o : Option Bytes) (s : Content) (x : IoError)
    → (removed p o s).0 ≡ err x
    → (o ≡ none) × ((j : PathBuf) → (removed p o s).1 j ≡ s j)
removed-failed p none s x e = (refl, λ j. refl)
removed-failed p (some b) s x e = cc

removed-returns : (p : PathBuf) (o : Option Bytes) (s : Content) → (removed p o s).0 ≢ panic
removed-returns p none s e = cc
removed-returns p (some b) s e = cc

pub memory-IsFileSystem : IsFileSystem memory memory_view
memory-IsFileSystem = record {
  read_ok = λ s p b e. read_result-ok (s p) b e;
  read_missing = λ s p x e. read_result-err (s p) (not_found x) e;
  read_leaves = λ p s j. refl;
  write_ok = λ s p b e. set-eq p (some b) s;
  write_other = λ s p b j differs. set-ne p (some b) s j differs;
  rename_ok = λ s p q e. moved-ok p q (s p) s e;
  rename_other = λ s p q j d e. moved-other p q (s p) s j d e;
  rename_failed = λ s p q x j e. moved-failed p q (s p) s x j e;
  remove_ok = λ s p e. removed-ok p (s p) s e;
  remove_other = λ s p j d. removed-other p (s p) s j d;
  remove_failed = λ s p j x e. (removed-failed p (s p) s x e).1 j;
  remove_missing = λ s p x e. (removed-failed p (s p) s (not_found x) e).0;
  returns = λ s p q. (moved-returns p q (s p) s, removed-returns p (s p) s);
  create_leaves = λ p s j. refl;
  touch_leaves = λ p mtime s j. refl;
  list_leaves = λ p s j. refl;
}

abbrev pub empty_disk : Disk memory
empty_disk = record { files = λ p. none; counter = 0 }
