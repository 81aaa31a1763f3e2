-- ===== src/Engine/Edits.antt =====
-- Local edits and deletions (`record_upsert`, `record_delete`, crates/client-core/src/engine.rs):
-- what is durable after them, and on which revision they are based.
use mathlib.Core.Path.{subst}
use sync_stuff_opinionated.Base.{◌≡◌, ap, ◌∙◌, Option, none, some, [], ◌∷◌, ◌++◌, arith}
use sync_stuff_opinionated.Base.Text.{Text, Bytes}
use sync_stuff_opinionated.Base.Int.{ℤ}
use sync_stuff_opinionated.Base.Effect.{Result, ok, >>=-eq-ok}
use sync_stuff_opinionated.Engine.Types.{
  file_key, SyncError, Platform, World, SyncEngine, IsPlatform,
}
use sync_stuff_opinionated.Engine.Queue.{on_meta, retain_others}
use sync_stuff_opinionated.Engine.Queues.{queue, on_meta-get_ok}
use sync_stuff_opinionated.Engine.Record.{
  base_rev_of, upsert_meta, upsert_change, delete_change, record_upsert_inner, record_upsert,
  record_delete_inner, record_delete,
}
use sync_stuff_opinionated.Engine.Recorded.{
  Recorded, Recorded-steps, on_meta-put_ok, on_meta-delete_ok, on_files-put_ok, on_files-delete_ok,
  files-on_meta, meta-on_files, meta-get, report-ok,
}

module _ (P : Platform) (L : IsPlatform P) where
  -- The revision on which the next recorded change of a path is based.
  abbrev pub stored_base : Text → World P → Option Text
  stored_base path w = base_rev_of P (L.meta_view w.meta (file_key path))

  got_stored :
      (path : Text) (w w₁ : World P) {stored : Option Bytes}
      → on_meta P (P.meta.get (file_key path)) w ≡ (ok stored, w₁)
      → stored ≡ L.meta_view w.meta (file_key path)
  got_stored path w w₁ e =
      on_meta-get_ok P L (file_key path) w
        (ap (λ (out : Result SyncError (Option Bytes) × World P). out.0) e)

  -- A recorded edit leaves the content in the file store, the metadata in the metadata store and the
  -- change in the queue, based on the revision that was stored before the edit.
  pub record_upsert_ok :
      (engine : SyncEngine P) (path : Text) (mtime : ℤ) (content_type : Text) (content : Bytes)
      (w w' : World P)
      → record_upsert P engine path mtime content_type content w ≡ (ok tt, w')
      → let base = stored_base path w in
        Recorded P L
          (upsert_change P path base mtime content_type)
          (some content)
          (some (P.file_meta.encode (upsert_meta P base mtime content_type)))
          w
          w'
  unfolding record_upsert record_upsert_inner
  record_upsert_ok engine path mtime content_type content w w' e =
      let (stored, w₁, got, rest₁) = >>=-eq-ok _ _ (report-ok P L engine _ w e) in
      let (_, w₂, put, rest₂) = >>=-eq-ok _ _ rest₁ in
      let (_, w₃, known, rest₃) = >>=-eq-ok _ _ rest₂ in
      subst
        (λ s.
          Recorded P L (upsert_change P path (base_rev_of P s) mtime content_type) (some content)
            (some (P.file_meta.encode (upsert_meta P (base_rev_of P s) mtime content_type))) w w')
        (got_stored path w w₁ got)
        (Recorded-steps P L (upsert_change P path (base_rev_of P stored) mtime content_type)
          (some content) _ w w₁ w₂ w₃ w' (meta-get P L (file_key path) w got)
          (files-on_meta P L _ w got) (meta-on_files P L _ w₁ put)
          (on_files-put_ok P L path content mtime w₁ put)
          (on_meta-put_ok P L (file_key path) _ w₂ known) (files-on_meta P L _ w₂ known) rest₃)

  -- A recorded deletion removes the content and the metadata, and leaves the deletion in the queue,
  -- based on the revision that was stored before.
  pub record_delete_ok :
      (engine : SyncEngine P) (path : Text) (mtime : ℤ) (w w' : World P)
      → record_delete P engine path mtime w ≡ (ok tt, w')
      → Recorded P L (delete_change P path (stored_base path w) mtime) none none w w'
  unfolding record_delete record_delete_inner
  record_delete_ok engine path mtime w w' e =
      let (stored, w₁, got, rest₁) = >>=-eq-ok _ _ (report-ok P L engine _ w e) in
      let (_, w₂, gone, rest₂) = >>=-eq-ok _ _ rest₁ in
      let (_, w₃, known, rest₃) = >>=-eq-ok _ _ rest₂ in
      subst (λ s. Recorded P L (delete_change P path (base_rev_of P s) mtime) none none w w')
        (got_stored path w w₁ got)
        (Recorded-steps P L (delete_change P path (base_rev_of P stored) mtime) none none w w₁ w₂ w₃
          w' (meta-get P L (file_key path) w got) (files-on_meta P L _ w got)
          (meta-on_files P L _ w₁ gone) (on_files-delete_ok P L path w₁ gone)
          (on_meta-delete_ok P L (file_key path) w₂ known) (files-on_meta P L _ w₂ known) rest₃)

  -- A path that is deleted twice before a push loses its base revision: the second deletion finds no
  -- metadata, and takes the place of the first one in the queue.
  pub record_delete_twice :
      (engine : SyncEngine P) (path : Text) (mtime mtime' : ℤ) (w w₁ w₂ : World P)
      → record_delete P engine path mtime w ≡ (ok tt, w₁)
      → record_delete P engine path mtime' w₁ ≡ (ok tt, w₂)
      → queue P L w₂ ≡ retain_others path (queue P L w₁) ++ delete_change P path none mtime' ∷ []
  record_delete_twice engine path mtime mtime' w w₁ w₂ e f =
      let gone : L.meta_view w₁.meta (file_key path) ≡ none =
        ground (arith, (record_delete_ok engine path mtime w w₁ e).known path) in
      (record_delete_ok engine path mtime' w₁ w₂ f).queued
      ∙ ap
          (λ m.
            retain_others path (queue P L w₁) ++ delete_change P path (base_rev_of P m) mtime' ∷ [])
          gone
