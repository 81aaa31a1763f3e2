-- ===== src/Desktop/Reconcile/Known.antt =====
-- What the reconciliation reads from the engine (crates/client-desktop/src/reconcile.rs), and that
-- reading changes nothing.
use sync_stuff_opinionated.Base.{
  ◌≡◌, refl, sym, ap, ◌∙◌, true, Option, some, List, [], ◌∷◌, ◌++◌, arith,
}
use sync_stuff_opinionated.Base.Text.{Text, Bytes, strip_prefix}
use sync_stuff_opinionated.Base.Int.{ℤ, pos, negsuc, zeqb}
use sync_stuff_opinionated.Base.Lists.{filter_map}
use sync_stuff_opinionated.Base.Effect.{
  Eff, Result, ok, err, panic, pure, map_err, follow, with_err, Keeps, Keeps-pure, Keeps-bind,
  ◌>>=◌,
}
use sync_stuff_opinionated.Store.{StoreError}
use sync_stuff_opinionated.Engine.Types.{
  SyncError, FileMeta, Platform, World, IsPlatform, file_key, file_prefix,
}
use sync_stuff_opinionated.Engine.Queue.{on_meta, and_then}
use sync_stuff_opinionated.Engine.Queues.{on_meta-get_ok}
use sync_stuff_opinionated.Engine.Record.{read_file_meta, list_file_paths}
use sync_stuff_opinionated.Desktop.Reconcile.{ReconcileError}

-- A prefix that is stripped was there.
pub strip_prefix-eq :
    (text prefix rest : Text) → strip_prefix text prefix ≡ some rest → text ≡ prefix ++ rest
strip_prefix-eq text [] rest e = cc
strip_prefix-eq [] (c ∷ prefix) rest e = cc
strip_prefix-eq (d ∷ text) (c ∷ prefix) rest e = ground (arith, strip_prefix-eq text prefix rest)

pub zeqb_refl : (n : ℤ) → zeqb n n ≡ true
zeqb_refl (pos n) = ground arith
zeqb_refl (negsuc n) = ground arith

module _ (P : Platform) (L : IsPlatform P) where
  -- Both stores hold what they held.
  pub record Same (w v : World P) : Type 0 where
    pub meta : (k : Text) → L.meta_view v.meta k ≡ L.meta_view w.meta k
    pub files : (path : Text) → L.files_view v.files path ≡ L.files_view w.files path

  -- The metadata of a file, as the engine reads it.
  abbrev pub file_meta : World P → Text → Option FileMeta
  file_meta w path = and_then (L.meta_view w.meta (file_key path)) P.file_meta.decode

  pub Keeps-with_err :
      {E F A : Type 0} {Q : World P → Type 0} (f : E → F) (m : Eff (World P) E A)
      → Keeps Q m
      → Keeps Q (with_err f m)
  Keeps-with_err f m keeps = record { at = λ w h. keeps.at w h }

  pub Same-get : (w : World P) (j : Text) → Keeps (Same w) (on_meta P (P.meta.get j))
  unfolding on_meta
  Same-get w j = record {
    at =
        λ v h. record { meta = λ k. L.meta_laws.reads.same v.meta j k ∙ h.meta k; files = h.files };
  }

  pub Same-list_keys :
      (w : World P) (prefix : Text) → Keeps (Same w) (on_meta P (P.meta.list_keys prefix))
  unfolding on_meta
  Same-list_keys w prefix = record {
    at =
        λ v h. record { meta = λ k. L.meta_laws.lists prefix v.meta k ∙ h.meta k; files = h.files };
  }

  pub Same-read_file_meta :
      (w : World P) (path : Text)
      → Keeps (Same w) (with_err ReconcileError.engine_error (read_file_meta P path))
  unfolding read_file_meta
  Same-read_file_meta w path =
      Keeps-with_err _ _ (Keeps-bind _ _ (Same-get w (file_key path)) (λ found. Keeps-pure _))

  -- What a read of the metadata of a file has found.
  pub read_file_meta_ok :
      (path : Text) (v : World P) (known : Option FileMeta)
      → (with_err ReconcileError.engine_error (read_file_meta P path) v).0 ≡ ok known
      → known ≡ file_meta v path
  unfolding read_file_meta ◌>>=◌ pure
  read_file_meta_ok path v known e = onward (on_meta P (P.meta.get (file_key path)) v).0 refl e
    where
      onward :
          (r : Result SyncError (Option Bytes))
          → (on_meta P (P.meta.get (file_key path)) v).0 ≡ r
          → map_err ReconcileError.engine_error
              (follow r
                (λ stored. pure (and_then stored P.file_meta.decode))
                (on_meta P (P.meta.get (file_key path)) v).1).0
            ≡ ok known
          → known ≡ file_meta v path
      onward (ok found) g h =
          let got = on_meta-get_ok P L (file_key path) v g in
          let made : and_then found P.file_meta.decode ≡ known = cc in
          sym made ∙ ap (λ stored. and_then stored P.file_meta.decode) got
      onward (err x) g h = cc
      onward panic g h = cc

  -- The paths that are listed come from the keys of the store.
  pub list_file_paths_ok :
      (v : World P) (paths : List Text)
      → (with_err ReconcileError.engine_error (list_file_paths P) v).0 ≡ ok paths
      → (keys : List Text) × ((P.meta.list_keys file_prefix v.meta).0 ≡ ok keys)
        × (filter_map (λ k. strip_prefix k file_prefix) keys ≡ paths)
  unfolding list_file_paths ◌>>=◌ pure on_meta
  list_file_paths_ok v paths e = onward (P.meta.list_keys file_prefix v.meta).0 refl e
    where
      onward :
          (r : Result StoreError (List Text))
          → (P.meta.list_keys file_prefix v.meta).0 ≡ r
          → map_err ReconcileError.engine_error
              (follow
                (map_err SyncError.store r)
                (λ keys. pure (filter_map (λ k. strip_prefix k file_prefix) keys))
                (on_meta P (P.meta.list_keys file_prefix) v).1).0
            ≡ ok paths
          → (keys : List Text) × ((P.meta.list_keys file_prefix v.meta).0 ≡ ok keys)
            × (filter_map (λ k. strip_prefix k file_prefix) keys ≡ paths)
      onward (ok keys) g h = (keys, g, cc)
      onward (err x) g h = cc
      onward panic g h = cc
