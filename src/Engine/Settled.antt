-- ===== src/Engine/Settled.antt =====
-- The stores after a whole batch (`apply_remote` over the entries, `pull_from`,
-- crates/client-core/src/engine.rs), path by path.
use mathlib.Core.Path.{subst}
use mathlib.Core.Logic.{ite}
use sync_stuff_opinionated.Base.{
  ◌≡◌, refl, sym, ap, ◌∙◌, Bool, true, false, Option, none, some, List, [], ◌∷◌, arith,
  if◌then◌else◌,
}
use sync_stuff_opinionated.Base.Text.{Text, Bytes, ◌==◌, text_dec}
use sync_stuff_opinionated.Base.Effect.{Result, ok, pure, >>=-eq-ok, Keeps}
use sync_stuff_opinionated.Protocol.{ChangeEntry, ChangesResponse}
use sync_stuff_opinionated.Engine.Types.{
  key_pending, file_key, checkpoint_key, SyncError, PullReport, Platform, World, IsPlatform,
}
use sync_stuff_opinionated.Engine.Keys.{
  file_key-ne-key_pending, file_key-ne-checkpoint_key, file_key_injective,
}
use sync_stuff_opinionated.Engine.Queue.{on_meta, on_net, listed, decode_pending, and_then, or_else}
use sync_stuff_opinionated.Engine.Queues.{queued, on_meta-get_ok}
use sync_stuff_opinionated.Engine.Frame.{MetaIs}
use sync_stuff_opinionated.Engine.Pull.{Hub, apply_remote, apply_all, pull_from, report_for}
use sync_stuff_opinionated.Engine.Pulled.{MetaIs-apply_remote}
use sync_stuff_opinionated.Engine.Unpushed.{FileIs-apply_remote}
use sync_stuff_opinionated.Engine.Recorded.{
  on_meta-put_ok, files-on_meta, meta-get, files-on_net, meta-on_net, net-on_meta,
}
use sync_stuff_opinionated.Engine.Delivered.{
  last_entry, Absent, Served, Delivered, on_net-ok, Delivered-apply_remote,
}

module _ (P : Platform) (L : IsPlatform P) (h : Hub P) (path : Text) where
  -- What a batch has done to the path, from the last entry of the path in it.
  abbrev pub Settled : Option ChangeEntry → World P → World P → Type 0
  Settled none w w' =
      (L.files_view w'.files path ≡ L.files_view w.files path)
      × (L.meta_view w'.meta (file_key path) ≡ L.meta_view w.meta (file_key path))
  Settled (some entry) w w' = (entry.path ≡ path) × Delivered P L h entry w'

  after_remote :
      {Q : World P → Type 0} (entry : ChangeEntry) (report r : PullReport) (w w' : World P)
      → Keeps Q (apply_remote P h entry report)
      → Q w
      → apply_remote P h entry report w ≡ (ok r, w')
      → Q w'
  after_remote {Q} entry report r w w' keeps h e =
      subst (λ (out : Result SyncError PullReport × World P). Q out.1) e (keeps.at w h)

  -- A delivered path stays delivered while its content and its metadata stay as they are.
  Delivered-stays :
      (entry : ChangeEntry) (w w' : World P)
      → entry.path ≡ path
      → Settled none w w'
      → Delivered P L h entry w
      → Delivered P L h entry w'
  Delivered-stays entry w w' same (f, m) = onward entry.deleted
    where
      files : L.files_view w'.files entry.path ≡ L.files_view w.files entry.path
      files = subst (λ p. L.files_view w'.files p ≡ L.files_view w.files p) (sym same) f

      meta : L.meta_view w'.meta (file_key entry.path) ≡ L.meta_view w.meta (file_key entry.path)
      meta =
          subst (λ p. L.meta_view w'.meta (file_key p) ≡ L.meta_view w.meta (file_key p)) (sym same)
            m

      onward :
          (gone : Bool)
          → (if gone then Absent P L h entry.path w else Served P L h entry.path w)
          → (if gone then Absent P L h entry.path w' else Served P L h entry.path w')
      onward true (a, b) = (files ∙ a, meta ∙ b)
      onward false (file, net, served, a, b) = (file, net, served, files ∙ a, meta ∙ b)

  module _ (q : Option Bytes) (free : listed path (decode_pending P q) ≡ false) where
    -- The entry at hand settles the path, unless a later one does.
    Settled-entry :
        (entry : ChangeEntry) (report r : PullReport) (w w₁ w' : World P)
        (later : Option ChangeEntry)
        → L.meta_view w.meta key_pending ≡ q
        → apply_remote P h entry report w ≡ (ok r, w₁)
        → Settled later w₁ w'
        → Settled (or_else later (if entry.path == path then some entry else none)) w w'
    Settled-entry entry report r w w₁ w' (some e) k first s = s
    Settled-entry entry report r w w₁ w' none k first s = onward (text_dec entry.path path)
      where
        onward :
            (d : Dec (entry.path ≡ path))
            → Settled (if ite d true false then some entry else none) w w'
        onward (yes same) = (
          same,
          Delivered-stays entry w₁ w' same s
              (Delivered-apply_remote P L h path q free entry report r w w₁ same k first),
        )
        onward (no differs) = (
          s.0
              ∙ (after_remote entry report r w w₁
                  (FileIs-apply_remote P L path (L.files_view w.files path) h entry report
                    (λ x. differs (sym x)))
                  (record { holds = refl }) first).holds,
          s.1
              ∙ (after_remote entry report r w w₁
                  (MetaIs-apply_remote P L (file_key path) (L.meta_view w.meta (file_key path)) h
                    entry report (λ x. differs (sym (file_key_injective path entry.path x))))
                  (record { holds = refl }) first).holds,
        )

    Settled-apply_all :
        (changes : List ChangeEntry) (report r : PullReport) (w w' : World P)
        → L.meta_view w.meta key_pending ≡ q
        → apply_all P h changes report w ≡ (ok r, w')
        → Settled (last_entry path changes) w w'
    unfolding apply_all pure
    Settled-apply_all [] report r w w' k e =
        let end : w ≡ w' = ap (λ (out : Result SyncError PullReport × World P). out.1) e in
        (
          ap (λ (v : World P). L.files_view v.files path) (sym end),
          ap (λ (v : World P). L.meta_view v.meta (file_key path)) (sym end),
        )
    Settled-apply_all (entry ∷ changes) report r w w' k e =
        let (r₁, w₁, first, rest) = >>=-eq-ok _ _ e in
        let k₁ : MetaIs P L key_pending q w₁ =
          after_remote entry report r₁ w w₁
            (MetaIs-apply_remote P L key_pending q h entry report
              (λ x. file_key-ne-key_pending entry.path (sym x)))
            (record { holds = k }) first in
        Settled-entry entry report r₁ w w₁ w' (last_entry path changes) k first
          (Settled-apply_all changes r₁ r w₁ w' k₁.holds rest)

  -- The path has the same content and the same metadata in both worlds.
  abbrev Same : World P → World P → Type 0
  Same = Settled none

  Settled-between :
      (o : Option ChangeEntry) (w₁ w₂ w₃ w₄ : World P)
      → Same w₁ w₂
      → Settled o w₂ w₃
      → Same w₃ w₄
      → Settled o w₁ w₄
  Settled-between none w₁ w₂ w₃ w₄ (f, m) (f', m') (f'', m'') = (f'' ∙ f' ∙ f, m'' ∙ m' ∙ m)
  Settled-between (some entry) w₁ w₂ w₃ w₄ a (same, d) b =
      (same, Delivered-stays entry w₃ w₄ same b d)

  Settled-steps :
      (stored : Option Bytes) (resp : ChangesResponse) (r : PullReport) (w w₁ w₂ w₃ w₄ : World P)
      → queued P L path w ≡ false
      → on_meta P (P.meta.get (checkpoint_key h.id)) w ≡ (ok stored, w₁)
      → on_net P (h.changes (and_then stored P.from_utf8)) w₁ ≡ (ok resp, w₂)
      → apply_all P h resp.changes (report_for P h resp) w₂ ≡ (ok r, w₃)
      → on_meta P (P.meta.put (checkpoint_key h.id) resp.checkpoint) w₃ ≡ (ok tt, w₄)
      → ((h.changes (and_then (L.meta_view w.meta (checkpoint_key h.id)) P.from_utf8) w.net).0
          ≡ ok resp)
        × Settled (last_entry path resp.changes) w w₄
        × (L.meta_view w₄.meta (checkpoint_key h.id) ≡ some resp.checkpoint)
  Settled-steps stored resp r w w₁ w₂ w₃ w₄ free got answer applied put = (
    asked,
    Settled-between (last_entry path resp.changes) w w₂ w₃ w₄
        (files-on_net P L _ w₁ answer path ∙ files-on_meta P L _ w got path, before (file_key path))
        (Settled-apply_all (L.meta_view w.meta key_pending) free resp.changes _ r w₂ w₃
          (before key_pending) applied)
        (
          files-on_meta P L _ w₃ put path,
          ground (
            arith,
            on_meta-put_ok P L (checkpoint_key h.id) resp.checkpoint w₃ put (file_key path),
            file_key-ne-checkpoint_key path h.id,
          ),
        ),
    ground (
      arith,
      on_meta-put_ok P L (checkpoint_key h.id) resp.checkpoint w₃ put (checkpoint_key h.id),
    ),
  )
    where
      before : (j : Text) → L.meta_view w₂.meta j ≡ L.meta_view w.meta j
      before j = meta-on_net P L _ w₁ answer j ∙ meta-get P L (checkpoint_key h.id) w got j

      asked :
          (h.changes (and_then (L.meta_view w.meta (checkpoint_key h.id)) P.from_utf8) w.net).0
          ≡ ok resp
      asked =
          ap (λ z. (h.changes (and_then z P.from_utf8) w.net).0)
            (sym (
              on_meta-get_ok P L (checkpoint_key h.id) w
                (ap (λ (out : Result SyncError (Option Bytes) × World P). out.0) got)))
          ∙ ap (λ n. (h.changes (and_then stored P.from_utf8) n).0) (sym (net-on_meta P _ w got))
          ∙ on_net-ok P L h _ w₁ answer

  -- A pull that succeeds has settled every path that has no queued change, by the last entry of the
  -- path in the batch that the hub lists after the stored checkpoint: a deletion leaves neither
  -- content nor metadata, an upsert leaves a content that the hub has served with its metadata, and
  -- a path that is not in the batch is as it was. The checkpoint of the batch is stored.
  pub pull_from-Settled :
      (w w' : World P) (report : PullReport)
      → queued P L path w ≡ false
      → pull_from P h w ≡ (ok report, w')
      → (resp : ChangesResponse) × ((h.changes
            (and_then (L.meta_view w.meta (checkpoint_key h.id)) P.from_utf8)
            w.net).0
          ≡ ok resp)
        × Settled (last_entry path resp.changes) w w'
        × (L.meta_view w'.meta (checkpoint_key h.id) ≡ some resp.checkpoint)
  unfolding pull_from pure
  pull_from-Settled w w' report free e =
      let (stored, w₁, got, rest₁) = >>=-eq-ok _ _ e in
      let (resp, w₂, answer, rest₂) = >>=-eq-ok _ _ rest₁ in
      let (r, w₃, applied, rest₃) = >>=-eq-ok _ _ rest₂ in
      let (_, w₄, put, rest₄) = >>=-eq-ok _ _ rest₃ in
      let end : w₄ ≡ w' = ap (λ (out : Result SyncError PullReport × World P). out.1) rest₄ in
      let (asked, settled, ck) =
        Settled-steps stored resp r w w₁ w₂ w₃ w₄ free got answer applied put in
      (
        resp,
        asked,
        subst (Settled (last_entry path resp.changes) w) end settled,
        subst (λ (v : World P). L.meta_view v.meta (checkpoint_key h.id) ≡ some resp.checkpoint) end
            ck,
      )
