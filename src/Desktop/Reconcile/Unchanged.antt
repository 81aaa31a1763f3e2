-- ===== src/Desktop/Reconcile/Unchanged.antt =====
-- A directory that is as the engine knows it records nothing (`reconcile_and_sync`,
-- crates/client-desktop/src/reconcile.rs).
use mathlib.Core.Path.{subst}
use sync_stuff_opinionated.Base.{
  ◌≡◌, ◌≢◌, refl, sym, ap, ◌∙◌, true, not, Option, none, some, List, [], ◌∷◌, if◌then◌else◌,
}
use sync_stuff_opinionated.Base.Text.{Text, Bytes, strip_prefix}
use sync_stuff_opinionated.Base.Int.{ℤ, zeqb}
use sync_stuff_opinionated.Base.Lists.{All, All-map, filter_map}
use sync_stuff_opinionated.Base.Effect.{
  Eff, ok, pure, with_err, Keeps, Keeps-pure, Keeps-bind, Keeps-bind_at,
}
use sync_stuff_opinionated.Engine.Types.{
  FileMeta, Platform, World, SyncEngine, IsPlatform, file_key, file_prefix,
}
use sync_stuff_opinionated.Engine.Queue.{and_then}
use sync_stuff_opinionated.Engine.Record.{read_file_meta, list_file_paths}
use sync_stuff_opinionated.Desktop.Files.{IoError}
use sync_stuff_opinionated.Desktop.Scan.{Local, contains_key}
use sync_stuff_opinionated.Desktop.Reconcile.{
  ReconcileError, mtime_of, is_changed, record_changed, reconcile_file, record_local, delete_now,
  record_vanished, record_directory,
}
use sync_stuff_opinionated.Desktop.Reconcile.Known.{
  strip_prefix-eq, zeqb_refl, Same, file_meta, Keeps-with_err, Same-list_keys, Same-read_file_meta,
  read_file_meta_ok, list_file_paths_ok,
}

module _ (P : Platform) (L : IsPlatform P) where
  module _ (engine : SyncEngine P) (read : Text → Eff P.files.State IoError Bytes)
      (guess : Text → Text) (w : World P) where
    -- A file whose time is the one that the engine knows.
    abbrev pub Known : Text × ℤ → Type 0
    Known file = mtime_of (file_meta P L w file.0) ≡ some file.1

    Same-reconcile_file :
        (path : Text) (mtime : ℤ)
        → Known (path, mtime)
        → Keeps (Same P L w) (reconcile_file P engine read guess path mtime)
    unfolding reconcile_file read_file_meta
    Same-reconcile_file path mtime is_known =
        Keeps-bind_at _ _ (Same-read_file_meta P L w path) (λ v known same e. onward known (
          ap mtime_of (read_file_meta_ok P L path v known e)
          ∙ ap (λ stored. mtime_of (and_then stored P.file_meta.decode)) (same.meta (file_key path))
          ∙ is_known))
      where
        onward :
            (known : Option FileMeta)
            → mtime_of known ≡ some mtime
            → Keeps (Same P L w) (
                if is_changed mtime (mtime_of known)
                then record_changed P engine read guess path mtime
                else pure tt)
        onward none e = cc
        onward (some m) e =
            let same : m.mtime ≡ mtime = cc in
            subst
              (λ b.
                Keeps (Same P L w)
                  (if not b then record_changed P engine read guess path mtime else pure tt))
              (sym (ap (zeqb m.mtime) (sym same) ∙ zeqb_refl m.mtime)) (Keeps-pure tt)

    Same-record_local :
        (files : Local)
        → All Known files
        → Keeps (Same P L w) (record_local P engine read guess files)
    unfolding record_local
    Same-record_local [] all = Keeps-pure tt
    Same-record_local ((path, mtime) ∷ files) (h, all) =
        Keeps-bind _ _ (Same-reconcile_file path mtime h) (λ _. Same-record_local files all)

    Same-record_vanished :
        (files : Local) (now_secs : World P → ℤ) (paths : List Text)
        → All (λ path. contains_key path files ≡ true) paths
        → Keeps (Same P L w) (record_vanished P engine read guess files now_secs paths)
    unfolding record_vanished
    Same-record_vanished files now_secs [] all = Keeps-pure tt
    Same-record_vanished files now_secs (path ∷ paths) (h, all) =
        Keeps-bind _ _
          (subst
            (λ b.
              Keeps (Same P L w)
                (if b then pure tt else delete_now P engine read guess now_secs path))
            (sym h) (Keeps-pure tt))
          (λ _. Same-record_vanished files now_secs paths all)

    -- The files that the engine tracks are in the directory.
    tracked :
        (files : Local) (keys : List Text)
        → ((path : Text)
            → L.meta_view w.meta (file_key path) ≢ none
            → contains_key path files ≡ true)
        → All (λ k. L.meta_view w.meta k ≢ none) keys
        → All
            (λ path. contains_key path files ≡ true)
            (filter_map (λ k. strip_prefix k file_prefix) keys)
    unfolding file_key
    tracked files [] there all = tt
    tracked files (k ∷ keys) there (h, all) =
        onward (strip_prefix k file_prefix) refl (tracked files keys there all)
      where
        onward :
            (o : Option Text)
            → strip_prefix k file_prefix ≡ o
            → All
                (λ path. contains_key path files ≡ true)
                (filter_map (λ k. strip_prefix k file_prefix) keys)
            → All
                (λ path. contains_key path files ≡ true)
                (elim o as (λ _. List Text) [
                  | none ↦ filter_map (λ k. strip_prefix k file_prefix) keys
                  | some path ↦ path ∷ filter_map (λ k. strip_prefix k file_prefix) keys
                ])
        onward none e rest = rest
        onward (some path) e rest = (
          there path
              (subst (λ j. L.meta_view w.meta j ≢ none) (strip_prefix-eq k file_prefix path e) h),
          rest,
        )

    -- If the time of each file of the directory is the one that the engine knows, and each file that
    -- the engine has metadata of is in the directory, then the recording of the directory changes
    -- nothing in either store, however it ends: provided that a listing of the store returns keys
    -- that it holds.
    pub record_directory-Same :
        (files : Local) (now_secs : World P → ℤ)
        → ((v : World P) (keys : List Text)
            → (P.meta.list_keys file_prefix v.meta).0 ≡ ok keys
            → All (λ k. L.meta_view v.meta k ≢ none) keys)
        → All Known files
        → ((path : Text)
            → L.meta_view w.meta (file_key path) ≢ none
            → contains_key path files ≡ true)
        → Same P L w (record_directory P engine read guess files now_secs w).1
    unfolding record_directory list_file_paths
    record_directory-Same files now_secs listed all there =
        (Keeps-bind _ _ (Same-record_local files all) (λ _.
            Keeps-bind_at _ _ list_kept (λ v paths same e.
              let (keys, got, made) = list_file_paths_ok P L v paths e in
              Same-record_vanished files now_secs paths (
                subst (All (λ path. contains_key path files ≡ true)) made (
                  tracked files keys there (
                    All-map (λ k held gone. held (same.meta k ∙ gone)) keys
                      (listed v keys got))))))).at
          w (record { meta = λ k. refl; files = λ path. refl })
      where
        list_kept : Keeps (Same P L w) (with_err ReconcileError.engine_error (list_file_paths P))
        list_kept =
            Keeps-with_err P L _ _
              (Keeps-bind _ _ (Same-list_keys P L w file_prefix) (λ keys. Keeps-pure _))
