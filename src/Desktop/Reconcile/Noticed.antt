-- ===== src/Desktop/Reconcile/Noticed.antt =====
-- A changed file of the directory is recorded (`reconcile_and_sync`,
-- crates/client-desktop/src/reconcile.rs).
use mathlib.Core.Path.{subst}
use sync_stuff_opinionated.Base.{
  ◌≡◌, refl, sym, ap, ◌∙◌, true, Option, some, ◌⊎◌, inl, inr, if◌then◌else◌,
}
use sync_stuff_opinionated.Base.Text.{Text, Bytes}
use sync_stuff_opinionated.Base.Int.{ℤ}
use sync_stuff_opinionated.Base.Effect.{
  Eff, Result, ok, err, panic, pure, >>=-eq-ok, caught-ok, with_err-ok, fail, panics,
}
use sync_stuff_opinionated.Engine.Types.{FileMeta, Platform, World, SyncEngine, IsPlatform}
use sync_stuff_opinionated.Engine.Record.{read_file_meta, record_upsert}
use sync_stuff_opinionated.Desktop.Files.{IoError, not_found, other}
use sync_stuff_opinionated.Engine.Record.{upsert_change, upsert_meta}
use sync_stuff_opinionated.Engine.Recorded.{Recorded}
use sync_stuff_opinionated.Engine.Edits.{stored_base, record_upsert_ok}
use sync_stuff_opinionated.Desktop.Reconcile.{
  ReconcileError, mtime_of, is_changed, record_changed, reconcile_file, read_disk, upsert_read,
}
use sync_stuff_opinionated.Desktop.Reconcile.Known.{
  Same, file_meta, Same-read_file_meta, read_file_meta_ok,
}

module _ (P : Platform) (L : IsPlatform P) (engine : SyncEngine P)
    (read : Text → Eff P.files.State IoError Bytes) (guess : Text → Text) where
  -- What has become of a changed file: it has vanished since the scan, or the content that was read
  -- is recorded as an edit with the time of the file.
  pub record Edited (path : Text) (mtime : ℤ) (w w' : World P) : Type 0 where
    pub content : Bytes
    pub before : World P
    pub same : Same P L w before
    pub from_disk : (s : P.files.State) × (read path s ≡ (ok content, before.files))
    pub recorded :
        Recorded P L
          (upsert_change P path (stored_base P L path before) mtime (guess path))
          (some content)
          (some
            (P.file_meta.encode (upsert_meta P (stored_base P L path before) mtime (guess path))))
          before
          w'

  abbrev pub Vanished : Text → Type 0
  Vanished path = (s : P.files.State) × (e : Text) × ((read path s).0 ≡ err (not_found e))

  -- If the engine knows no time of a file, or another one, then `reconcile_file` succeeds only if
  -- the file has vanished, or after it has recorded the content of the file as an edit: provided
  -- that reading a file changes no file.
  pub reconcile_file-Edited :
      (path : Text) (mtime : ℤ) (w w' : World P)
      → ((s : P.files.State) (j : Text) → L.files_view (read path s).1 j ≡ L.files_view s j)
      → is_changed mtime (mtime_of (file_meta P L w path)) ≡ true
      → reconcile_file P engine read guess path mtime w ≡ (ok tt, w')
      → Vanished path ⊎ Edited path mtime w w'
  unfolding reconcile_file read_file_meta fail panics
  reconcile_file-Edited path mtime w w' leaves changed e =
      let (known, v, got, rest) = >>=-eq-ok _ _ e in
      let same : Same P L w v =
        subst (Same P L w)
          (ap (λ (out : Result ReconcileError (Option FileMeta) × World P). out.1) got)
          ((Same-read_file_meta P L w path).at w
            (record { meta = λ k. refl; files = λ j. refl })) in
      let found : known ≡ file_meta P L w path =
        read_file_meta_ok P L path w known
          (ap (λ (out : Result ReconcileError (Option FileMeta) × World P). out.0) got) in
      let noticed : is_changed mtime (mtime_of known) ≡ true =
        ap (λ m. is_changed mtime (mtime_of m)) found ∙ changed in
      let done : record_changed P engine read guess path mtime v ≡ (ok tt, w') =
        subst
          (λ b.
            (if b then record_changed P engine read guess path mtime else pure tt) v ≡ (ok tt, w'))
          noticed rest in
      let (outcome, u, caught_at, last) = >>=-eq-ok _ _ done in
      let read_at = caught-ok (read_disk P engine read guess path) v u outcome caught_at in
      onward v u same outcome read_at last
    where
      onward :
          (v u : World P)
          → Same P L w v
          → (outcome : Result IoError Bytes) → read_disk P engine read guess path v ≡ (outcome, u)
          → upsert_read P engine read guess path mtime outcome u ≡ (ok tt, w')
          → Vanished path ⊎ Edited path mtime w w'
      onward v u same (ok content) got f =
          let held : v.meta ≡ u.meta =
            ap (λ (out : Result IoError Bytes × World P). out.1.meta) got in
          let moved : (read path v.files).1 ≡ u.files =
            ap (λ (out : Result IoError Bytes × World P). out.1.files) got in
          let came : (read path v.files).0 ≡ ok content =
            ap (λ (out : Result IoError Bytes × World P). out.0) got in
          inr (record {
            content = content;
            before = u;
            same = record {
              meta = λ k. ap (λ m. L.meta_view m k) (sym held) ∙ same.meta k;
              files = λ j. ap (λ s. L.files_view s j) (sym moved) ∙ leaves v.files j ∙ same.files j;
            };
            from_disk = (v.files, cc (came, moved));
            recorded = record_upsert_ok P L engine path mtime (guess path) content u w' (
                with_err-ok ReconcileError.engine_error
                  (record_upsert P engine path mtime (guess path) content) u w' tt f);
          })
      onward v u same (err (not_found x)) got f =
          inl (v.files, x, ap (λ (out : Result IoError Bytes × World P). out.0) got)
      onward v u same (err (other x)) got f = cc
      onward v u same panic got f = cc
