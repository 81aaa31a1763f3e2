-- ===== src/Engine/Delivered.antt =====
-- What a successful pull delivers (`apply_remote`, `pull_from`, crates/client-core/src/engine.rs):
-- every entry of the batch is durable before the checkpoint advances.
use mathlib.Core.Path.{subst}
use sync_stuff_opinionated.Base.{
  ◌≡◌, sym, ap, ◌∙◌, Bool, true, false, Option, none, some, List, [], ◌∷◌, arith, if◌then◌else◌,
}
use sync_stuff_opinionated.Base.Text.{Text, Bytes, ◌==◌}
use sync_stuff_opinionated.Base.Effect.{Eff, Result, ok, pure, fail, >>=-eq-ok}
use sync_stuff_opinionated.Protocol.{ChangeEntry, FileContent, HubError}
use sync_stuff_opinionated.Engine.Types.{
  key_pending, file_key, SyncError, PullReport, Platform, World, IsPlatform,
}
use sync_stuff_opinionated.Engine.Queue.{on_net, listed, decode_pending, encode_meta, or_else}
use sync_stuff_opinionated.Engine.Queues.{pending_contains_ok}
use sync_stuff_opinionated.Engine.Pull.{
  Hub, found_or_fail, apply_delete, apply_upsert, apply_checked, apply_remote,
}
use sync_stuff_opinionated.Engine.Recorded.{
  on_meta-put_ok, on_meta-delete_ok, on_files-put_ok, on_files-delete_ok, files-on_meta,
}

-- The last entry of a path in a batch.
abbrev pub last_entry : Text → List ChangeEntry → Option ChangeEntry
last_entry path [] = none
last_entry path (entry ∷ changes) =
    or_else (last_entry path changes) (if entry.path == path then some entry else none)

module _ (P : Platform) (L : IsPlatform P) (h : Hub P) where
  -- A deletion leaves neither content nor metadata; an upsert leaves a content that the hub has
  -- served for the path, with its metadata.
  abbrev pub Absent : Text → World P → Type 0
  Absent path w = (L.files_view w.files path ≡ none) × (L.meta_view w.meta (file_key path) ≡ none)

  abbrev pub Served : Text → World P → Type 0
  Served path w =
      (file : FileContent) × (net : P.Net) × ((h.get_file path net).0 ≡ ok (some file))
      × (L.files_view w.files path ≡ some file.content)
      × (L.meta_view w.meta (file_key path) ≡ some (encode_meta P file))

  abbrev pub Delivered : ChangeEntry → World P → Type 0
  Delivered entry w = if entry.deleted then Absent entry.path w else Served entry.path w

  Delivered-apply_delete :
      (entry : ChangeEntry) (report r : PullReport) (w w' : World P)
      → apply_delete P entry report w ≡ (ok r, w')
      → Absent entry.path w'
  unfolding apply_delete pure
  Delivered-apply_delete entry report r w w' e =
      let (_, w₁, gone, rest₁) = >>=-eq-ok _ _ e in
      let (_, w₂, known, rest₂) = >>=-eq-ok _ _ rest₁ in
      let end : w₂ ≡ w' = ap (λ (out : Result SyncError PullReport × World P). out.1) rest₂ in
      subst (Absent entry.path) end (
        files-on_meta P L _ w₁ known entry.path
            ∙ ground (arith, on_files-delete_ok P L entry.path w gone entry.path),
        ground (arith, on_meta-delete_ok P L (file_key entry.path) w₁ known (file_key entry.path)),
      )

  found_or_fail-ok :
      (path : Text) (o : Option FileContent) (w : World P) {file : FileContent} {w' : World P}
      → found_or_fail P path o w ≡ (ok file, w')
      → (o ≡ some file) × (w ≡ w')
  unfolding found_or_fail pure fail
  found_or_fail-ok path none w e = cc
  found_or_fail-ok path (some file) w e = (cc, cc)

  pub on_net-ok :
      {A : Type 0} (m : Eff P.Net HubError A) (w : World P) {a : A} {w' : World P}
      → on_net P m w ≡ (ok a, w')
      → (m w.net).0 ≡ ok a
  unfolding on_net
  on_net-ok m w e = ground arith

  Delivered-apply_upsert :
      (entry : ChangeEntry) (report r : PullReport) (w w' : World P)
      → apply_upsert P h entry report w ≡ (ok r, w')
      → Served entry.path w'
  unfolding apply_upsert pure
  Delivered-apply_upsert entry report r w w' e =
      let (response, w₁, served, rest₁) = >>=-eq-ok _ _ e in
      let (file, w₂, found, rest₂) = >>=-eq-ok _ _ rest₁ in
      let (_, w₃, put, rest₃) = >>=-eq-ok _ _ rest₂ in
      let (_, w₄, known, rest₄) = >>=-eq-ok _ _ rest₃ in
      let end : w₄ ≡ w' = ap (λ (out : Result SyncError PullReport × World P). out.1) rest₄ in
      let is_file : response ≡ some file = (found_or_fail-ok entry.path response w₁ found).0 in
      (
        file,
        w.net,
        on_net-ok (h.get_file entry.path) w served ∙ ap ok is_file,
        ap (λ (v : World P). L.files_view v.files entry.path) (sym end)
            ∙ files-on_meta P L _ w₃ known entry.path
            ∙ ground
                (arith, on_files-put_ok P L entry.path file.content file.mtime w₂ put entry.path),
        ap (λ (v : World P). L.meta_view v.meta (file_key entry.path)) (sym end)
            ∙ ground (
              arith,
              on_meta-put_ok P L (file_key entry.path) (encode_meta P file) w₃ known
                  (file_key entry.path),
            ),
      )

  Delivered-apply_checked :
      (entry : ChangeEntry) (report r : PullReport) (w w' : World P)
      → apply_checked P h entry report false w ≡ (ok r, w')
      → Delivered entry w'
  unfolding apply_checked
  Delivered-apply_checked entry report r w w' = onward entry.deleted
    where
      onward :
          (gone : Bool)
          → (if gone then apply_delete P entry report else apply_upsert P h entry report) w
            ≡ (ok r, w')
          → (if gone then Absent entry.path w' else Served entry.path w')
      onward true e = Delivered-apply_delete entry report r w w' e
      onward false e = Delivered-apply_upsert entry report r w w' e

  module _ (path : Text) (q : Option Bytes) (free : listed path (decode_pending P q) ≡ false) where
    -- The queue does not change during a pull, so no check of `path` finds it.
    pub Delivered-apply_remote :
        (entry : ChangeEntry) (report r : PullReport) (w w' : World P)
        → entry.path ≡ path
        → L.meta_view w.meta key_pending ≡ q
        → apply_remote P h entry report w ≡ (ok r, w')
        → Delivered entry w'
    unfolding apply_remote
    Delivered-apply_remote entry report r w w' same k e =
        let (b, w₁, asked, rest) = >>=-eq-ok _ _ e in
        let no_edit : b ≡ false =
          pending_contains_ok P L entry.path w
            (ap (λ (out : Result SyncError Bool × World P). out.0) asked)
          ∙ ap (λ z. listed entry.path (decode_pending P z)) k
          ∙ ap (λ z. listed z (decode_pending P q)) same
          ∙ free in
        Delivered-apply_checked entry report r w₁ w'
          (subst (λ b. apply_checked P h entry report b w₁ ≡ (ok r, w')) no_edit rest)
