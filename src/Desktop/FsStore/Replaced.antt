-- ===== src/Desktop/FsStore/Replaced.antt =====
-- A file is replaced as a whole or not at all (`atomic_write`, the writes of `FsFileStore`,
-- crates/client-desktop/src/fs_store.rs): the content is written under a temporary name, and the
-- rename is the only step that touches the file.
use mathlib.Core.Path.{subst}
use sync_stuff_opinionated.Base.{
  ℕ, ◌≡◌, ◌≢◌, refl, sym, ap, ◌∙◌, Bool, true, false, ◌&&◌, Option, some, [], ◌∷◌, ◌++◌, arith,
  if◌then◌else◌,
}
use sync_stuff_opinionated.Base.Text.{Text, Bytes, codes, starts_with}
use sync_stuff_opinionated.Base.Split.{ends_with, ends_with-append, ends_with_refl}
use sync_stuff_opinionated.Base.Int.{ℤ, pos, zleb}
use sync_stuff_opinionated.Base.Decimal.{decimal}
use sync_stuff_opinionated.Base.Effect.{
  Eff, Result, ok, err, panic, pure, map_err, ◌>>=◌, ◌>>◌, Keeps, Keeps-pure, after_keeping,
}
use sync_stuff_opinionated.Store.{StoreError, landed}
use sync_stuff_opinionated.Desktop.Files.{
  IoError, PathBuf, parent, file_name, FileSystem, IsFileSystem, Leaves,
}
use sync_stuff_opinionated.Desktop.FsStore.{
  io_err, temp_name, Disk, Action, on_disk, checked, tmp_name, atomic_write, ignored, touch,
  write_touched,
}

-- Whether a name may be that of a temporary file.
abbrev pub is_temp : Text → Bool
is_temp name = starts_with name (codes ".") && ends_with name (codes ".tmp")

temp_name-is_temp : (pid n : ℕ) → is_temp (temp_name pid n) ≡ true
temp_name-is_temp pid n = ends_with-append (codes ".") _ (codes ".tmp") (
    ends_with-append (decimal pid) _ (codes ".tmp") (
      ends_with-append (codes "-") _ (codes ".tmp")
        (ends_with-append (decimal n) _ (codes ".tmp") (ends_with_refl (codes ".tmp")))))

pub file_name-append : (dir : PathBuf) (name : Text) → file_name (dir ++ name ∷ []) ≡ name
file_name-append [] name = refl
file_name-append (d ∷ []) name = refl
file_name-append (d ∷ e ∷ dir) name = file_name-append (e ∷ dir) name

module _ (F : FileSystem) (view : F.State → PathBuf → Option Bytes) (L : IsFileSystem F view) where
  -- The files that are not temporary are as they were.
  pub record Steady (w v : Disk F) : Type 0 where
    pub kept : (j : PathBuf) → is_temp (file_name j) ≡ false → view v.files j ≡ view w.files j

  Steady-Leaves :
      {A C : Type 0} (w : Disk F) (convert : Result IoError A → Result StoreError C)
      (call : Eff F.State IoError A)
      → Leaves view call
      → Keeps (Steady w) (on_disk F convert call)
  unfolding on_disk
  Steady-Leaves w convert call leaves = record {
    at = λ v h. record { kept = λ j free. leaves v.files j ∙ h.kept j free };
  }

  Steady-tmp_name : (w : Disk F) (pid : ℕ) → Keeps (Steady w) (tmp_name F pid)
  unfolding tmp_name
  Steady-tmp_name w pid = record { at = λ v h. record { kept = λ j free. h.kept j free } }

  tmp_name-is_temp :
      (pid : ℕ) (v v' : Disk F) (name : Text)
      → tmp_name F pid v ≡ (ok name, v')
      → is_temp name ≡ true
  unfolding tmp_name
  tmp_name-is_temp pid v v' name e =
      let made : temp_name pid v.counter ≡ name = cc in
      subst (λ n. is_temp n ≡ true) made (temp_name-is_temp pid v.counter)

  Steady-touch : (w : Disk F) (path : PathBuf) (mtime : ℤ) → Keeps (Steady w) (touch F path mtime)
  Steady-touch w path mtime = onward (zleb (pos 1) mtime)
    where
      onward :
          (b : Bool)
          → Keeps
              (Steady w)
              (if b then on_disk F (ignored F) (F.set_file_mtime path mtime) else pure tt)
      onward true = Steady-Leaves w (ignored F) _ (L.touch_leaves path mtime)
      onward false = Keeps-pure _

  -- What a write of the whole file has done, by its result.
  pub record Replaced (path : PathBuf) (new : Option Bytes) (w : Disk F)
      (out : Result StoreError (Unit {0}) × Disk F) : Type 0 where
    pub here : view out.1.files path ≡ landed out.0 new (view w.files path)
    pub elsewhere :
        (j : PathBuf)
        → is_temp (file_name j) ≡ false
        → j ≢ path
        → view out.1.files j ≡ view w.files j

  module _ (path : PathBuf) (bytes : Bytes) (proper : is_temp (file_name path) ≡ false) where
    Replaced-err :
        (w v : Disk F) (e : StoreError) → Steady w v → Replaced path (some bytes) w (err e, v)
    Replaced-err w v e h = record {
      here = h.kept path proper;
      elsewhere = λ j free differs. h.kept j free;
    }

    Replaced-panic : (w v : Disk F) → Steady w v → Replaced path (some bytes) w (panic, v)
    Replaced-panic w v h = record {
      here = h.kept path proper;
      elsewhere = λ j free differs. h.kept j free;
    }

    -- The rename of a temporary file that has the content.
    Replaced-rename :
        (tmp : PathBuf) (w v : Disk F)
        → Steady w v
        → is_temp (file_name tmp) ≡ true
        → view v.files tmp ≡ some bytes
        → Replaced path (some bytes) w (checked F (F.rename tmp path) v)
    unfolding on_disk
    Replaced-rename tmp w v h temp full = onward (F.rename tmp path v.files).0 refl
      where
        after : F.State
        after = (F.rename tmp path v.files).1

        onward :
            (r : Result IoError (Unit {0}))
            → (F.rename tmp path v.files).0 ≡ r
            → Replaced path (some bytes) w (map_err io_err r, record v { files = after })
        onward (ok _) e = record {
          here = L.rename_ok v.files tmp path e ∙ full;
          elsewhere = λ j free differs.
              L.rename_other v.files tmp path j
                (λ same. cc (temp, free, ap (λ p. is_temp (file_name p)) same)) differs
              ∙ h.kept j free;
        }
        onward (err x) e = record {
          here = L.rename_failed v.files tmp path x path e ∙ h.kept path proper;
          elsewhere = λ j free differs. L.rename_failed v.files tmp path x j e ∙ h.kept j free;
        }
        onward panic e = absurd ((L.returns v.files tmp path).0 e)

    -- The rest of a write, where each step keeps the other files and the last one is right.
    Replaced-step :
        {A : Type 0} (w v : Disk F) (step : Action F A) (rest : A → Action F (Unit {0}))
        → Keeps (Steady w) step
        → ((a : A) (v' : Disk F)
            → step v ≡ (ok a, v')
            → Steady w v'
            → Replaced path (some bytes) w (rest a v'))
        → Steady w v
        → Replaced path (some bytes) w ((step >>= rest) v)
    Replaced-step w v step rest keeps good h =
        after_keeping {K = Steady w} (Replaced path (some bytes) w)
          (λ e v' k. Replaced-err w v' e k) (λ v' k. Replaced-panic w v' k) step rest v keeps h good

    module _ (dir : PathBuf) (name : Text) (temp : is_temp name ≡ true) where
      tmp_is_temp : is_temp (file_name (dir ++ name ∷ [])) ≡ true
      tmp_is_temp = ap is_temp (file_name-append dir name) ∙ temp

      Steady-write : (w : Disk F) → Keeps (Steady w) (checked F (F.write (dir ++ name ∷ []) bytes))
      unfolding on_disk
      Steady-write w = record {
        at = λ v h. record {
          kept = λ j free.
              L.write_other v.files (dir ++ name ∷ []) bytes j
                (λ same. cc (tmp_is_temp, free, ap (λ p. is_temp (file_name p)) same))
              ∙ h.kept j free;
        };
      }

      written :
          (v v' : Disk F)
          → checked F (F.write (dir ++ name ∷ []) bytes) v ≡ (ok tt, v')
          → view v'.files (dir ++ name ∷ []) ≡ some bytes
      unfolding on_disk
      written v v' e = ground (arith, e, L.write_ok v.files (dir ++ name ∷ []) bytes)

      -- The temporary file is written, and moved.
      Replaced-write :
          (w v : Disk F)
          → Steady w v
          → Replaced path (some bytes) w (
              (checked F (F.write (dir ++ name ∷ []) bytes)
                  >> checked F (F.rename (dir ++ name ∷ []) path))
                v)
      Replaced-write w v h =
          Replaced-step w v _ _ (Steady-write w)
            (λ _ v' e k. Replaced-rename (dir ++ name ∷ []) w v' k tmp_is_temp (written v v' e)) h

      touched :
          (mtime : ℤ) (v : Disk F) (j : PathBuf)
          → view (touch F (dir ++ name ∷ []) mtime v).1.files j ≡ view v.files j
      unfolding on_disk pure
      touched mtime v j = onward (zleb (pos 1) mtime)
        where
          onward :
              (b : Bool)
              → view
                  ((if b
                      then on_disk F (ignored F) (F.set_file_mtime (dir ++ name ∷ []) mtime)
                      else pure tt)
                    v).1.files
                  j
                ≡ view v.files j
          onward true = L.touch_leaves (dir ++ name ∷ []) mtime v.files j
          onward false = refl

      -- The same, with the time set in between.
      Replaced-write_touched :
          (mtime : ℤ) (w v : Disk F)
          → Steady w v
          → Replaced path (some bytes) w (
              (checked F (F.write (dir ++ name ∷ []) bytes)
                  >> (touch F (dir ++ name ∷ []) mtime
                      >> checked F (F.rename (dir ++ name ∷ []) path)))
                v)
      Replaced-write_touched mtime w v h =
          Replaced-step w v _ _ (Steady-write w)
            (λ _ v' e k.
              Replaced-step w v' _ _ (Steady-touch w (dir ++ name ∷ []) mtime)
                (λ _ v'' f k'. Replaced-rename (dir ++ name ∷ []) w v'' k' tmp_is_temp (
                  ap
                    (λ (out : Result StoreError (Unit {0}) × Disk F).
                      view out.1.files (dir ++ name ∷ []))
                    (sym f)
                  ∙ touched mtime v' (dir ++ name ∷ [])
                  ∙ written v v' e))
                k)
            h

    -- If the name of the file is no temporary name, `atomic_write` leaves the new content in the file
    -- if it succeeds and the old one if it fails, and all other files as they were, but those with
    -- a temporary name: provided that a rename is atomic, and that a failed write changes no other
    -- file.
    pub atomic_write-Replaced :
        (pid : ℕ) (w : Disk F) → Replaced path (some bytes) w (atomic_write F pid path bytes w)
    unfolding atomic_write
    atomic_write-Replaced pid w =
        Replaced-step w w _ _ (Steady-Leaves w _ _ (L.create_leaves (parent path)))
          (λ _ v e k.
            Replaced-step w v _ _ (Steady-tmp_name w pid)
              (λ name v' f k'.
                Replaced-write (parent path) name (tmp_name-is_temp pid v v' name f) w v' k')
              k)
          (record { kept = λ j free. refl })

    pub write_touched-Replaced :
        (pid : ℕ) (mtime : ℤ) (w : Disk F)
        → Replaced path (some bytes) w (write_touched F pid path bytes mtime w)
    write_touched-Replaced pid mtime w =
        Replaced-step w w _ _ (Steady-Leaves w _ _ (L.create_leaves (parent path)))
          (λ _ v e k.
            Replaced-step w v _ _ (Steady-tmp_name w pid)
              (λ name v' f k'.
                Replaced-write_touched (parent path) name (tmp_name-is_temp pid v v' name f) mtime w
                  v' k')
              k)
          (record { kept = λ j free. refl })
