-- ===== src/EndToEnd/Sent.antt =====
-- What a push sends for the queue (`build_push_changes`, crates/client-core/src/engine.rs).
use mathlib.Core.Path.{subst}
use sync_stuff_opinionated.Base.{
  ◌≡◌, ◌≢◌, ◌⊎◌, inl, inr, refl, sym, ap, ◌∙◌, Bool, true, false, Option, none, some, List, [], ◌∷◌,
  arith, if◌then◌else◌,
}
use sync_stuff_opinionated.Base.Text.{Text, Bytes, codes}
use sync_stuff_opinionated.Base.Effect.{Result, ok, pure, >>=-eq-ok, Keeps, keeps_rules}
use sync_stuff_opinionated.Protocol.{PushChange}
use sync_stuff_opinionated.Engine.Types.{
  file_key, SyncError, FileMeta, PendingChange, Platform, World, IsPlatform,
}
use sync_stuff_opinionated.Engine.Queue.{on_files, unwrap_or, and_then}
use sync_stuff_opinionated.Engine.Push.{
  push_change, pushed_content_type, build_upsert, build_push_change, build_push_changes,
}
use sync_stuff_opinionated.Engine.Frame.{
  Keeps-if, FileIs, FileIs-get, FileIs-on_meta, MetaIs, MetaIs-get, MetaIs-on_files,
}
use sync_stuff_opinionated.Engine.Queues.{on_meta-get_ok}
use sync_stuff_opinionated.Engine.Recorded.{same_files, same_meta, meta-on_files}

-- The content type of an edit: that of the metadata, if there are any and they have one; else the
-- one that was recorded with the change; else that of any bytes.
abbrev pub QueuedType : Option Text → Text → Type 0
QueuedType none t = t ≡ codes "application/octet-stream"
QueuedType (some queued) t = t ≡ queued

abbrev pub TypeOf : Option FileMeta → Option Text → Text → Type 0
TypeOf none queued t = QueuedType queued t
TypeOf (some meta) queued t =
    ((meta.content_type ≢ []) × (t ≡ meta.content_type))
    ⊎ ((meta.content_type ≡ []) × QueuedType queued t)

pushed_content_type-TypeOf :
    (meta : Option FileMeta) (queued : Option Text)
    → TypeOf meta queued (pushed_content_type meta queued)
pushed_content_type-TypeOf none none = refl
pushed_content_type-TypeOf none (some q) = refl
pushed_content_type-TypeOf (some meta) queued = onward meta.content_type queued
  where
    Onward : Text → Option Text → Type 0
    Onward t queued =
        TypeOf (some (record meta { content_type = t })) queued
          (pushed_content_type (some (record meta { content_type = t })) queued)

    onward : (t : Text) (queued : Option Text) → Onward t queued
    onward [] none = inr (refl, refl)
    onward [] (some q) = inr (refl, refl)
    onward (c ∷ t) queued = inl (λ e. cc, refl)

module _ (P : Platform) (L : IsPlatform P) where
  -- The metadata that the store has for a path.
  abbrev pub known : World P → Text → Option FileMeta
  known w path = and_then (L.meta_view w.meta (file_key path)) P.file_meta.decode

  -- An edit is sent with its content type, and the content that the file store has.
  abbrev pub EditSent : World P → PendingChange → PushChange → Type 0
  EditSent w p c =
      (t : Text) × (c.content_type ≡ some t)
      × TypeOf (known w p.path) p.content_type t
      × (c.content_base64 ≡ some (P.base64.encode (unwrap_or (L.files_view w.files p.path) [])))

  -- A queued change as it is sent: the same path, kind, base revision and time, and for an edit the
  -- content type and the content.
  pub record Sent (w : World P) (p : PendingChange) (c : PushChange) : Type 0 where
    pub path : c.path ≡ p.path
    pub deleted : c.deleted ≡ p.deleted
    pub base_rev : c.base_rev ≡ p.base_rev
    pub mtime : c.mtime ≡ p.mtime
    pub content :
        if p.deleted then (c.content_type ≡ none) × (c.content_base64 ≡ none) else EditSent w p c

  abbrev pub AllSent : World P → List PendingChange → List PushChange → Type 0
  AllSent w [] [] = Unit
  AllSent w (p ∷ pending) (c ∷ changes) = Sent w p c × AllSent w pending changes
  AllSent w _ _ = ⊥

  -- Two states whose stores have the same entries.
  pub record Same (v w : World P) : Type 0 where
    pub files : (j : Text) → L.files_view v.files j ≡ L.files_view w.files j
    pub meta : (j : Text) → L.meta_view v.meta j ≡ L.meta_view w.meta j

  FileIs-build_push_change :
      (j : Text) (v : Option Bytes) (p : PendingChange)
      → Keeps (FileIs P L j v) (build_push_change P p)
  unfolding build_push_change build_upsert
  FileIs-build_push_change j v p = search (keeps_rules, Keeps-if, FileIs-get, FileIs-on_meta)

  MetaIs-build_push_change :
      (j : Text) (v : Option Bytes) (p : PendingChange)
      → Keeps (MetaIs P L j v) (build_push_change P p)
  unfolding build_push_change build_upsert
  MetaIs-build_push_change j v p = search (keeps_rules, Keeps-if, MetaIs-get, MetaIs-on_files)

  on_files-get_ok :
      (k : Text) (w : World P) {found : Option Bytes} {w' : World P}
      → on_files P (P.files.get k) w ≡ (ok found, w')
      → found ≡ L.files_view w.files k
  unfolding on_files
  on_files-get_ok k w {found} e = L.files_laws.reads.returned w.files k (ground (arith, e))

  build_upsert-Sent :
      (v w w' : World P) (p : PendingChange) (c : PushChange)
      → Same v w
      → p.deleted ≡ false
      → build_upsert P p v ≡ (ok c, w')
      → Sent w p c
  unfolding build_upsert pure
  build_upsert-Sent v w w' p c same alive e =
      let (content, w₁, read, rest₁) = >>=-eq-ok _ _ e in
      let (meta, w₂, found, rest₂) = >>=-eq-ok _ _ rest₁ in
      let body : Bytes = unwrap_or content [] in
      let t : Text = pushed_content_type (and_then meta P.file_meta.decode) p.content_type in
      let made : push_change P p (some t) (some (P.base64.encode body)) ≡ c = cc in
      let held : content ≡ L.files_view w.files p.path =
        on_files-get_ok p.path v read ∙ same.files p.path in
      let told : meta ≡ L.meta_view w.meta (file_key p.path) =
        on_meta-get_ok P L (file_key p.path) w₁
          (ap (λ (out : Result SyncError (Option Bytes) × World P). out.0) found)
        ∙ meta-on_files P L _ v read (file_key p.path)
        ∙ same.meta (file_key p.path) in
      let typed : TypeOf (known w p.path) p.content_type t =
        subst (λ m. TypeOf (and_then m P.file_meta.decode) p.content_type t) told
          (pushed_content_type-TypeOf (and_then meta P.file_meta.decode) p.content_type) in
      let edit : EditSent w p c = (
        t,
        ap (λ (x : PushChange). x.content_type) (sym made),
        typed,
        ap (λ (x : PushChange). x.content_base64) (sym made)
            ∙ ap (λ o. some (P.base64.encode (unwrap_or o []))) held,
      ) in
      record {
        path = ap (λ (x : PushChange). x.path) (sym made);
        deleted = ap (λ (x : PushChange). x.deleted) (sym made);
        base_rev = ap (λ (x : PushChange). x.base_rev) (sym made);
        mtime = ap (λ (x : PushChange). x.mtime) (sym made);
        content = rw alive edit;
      }

  build_push_change-Sent :
      (v w w' : World P) (p : PendingChange) (c : PushChange)
      → Same v w
      → build_push_change P p v ≡ (ok c, w')
      → Sent w p c
  unfolding build_push_change pure
  build_push_change-Sent v w w' p c same = onward p.deleted refl
    where
      onward :
          (gone : Bool)
          → p.deleted ≡ gone
          → (if gone then pure (push_change P p none none) else build_upsert P p) v ≡ (ok c, w')
          → Sent w p c
      onward false alive e = build_upsert-Sent v w w' p c same alive e
      onward true gone e =
          let made : push_change P p none none ≡ c = cc in
          record {
            path = ap (λ (x : PushChange). x.path) (sym made);
            deleted = ap (λ (x : PushChange). x.deleted) (sym made);
            base_rev = ap (λ (x : PushChange). x.base_rev) (sym made);
            mtime = ap (λ (x : PushChange). x.mtime) (sym made);
            content = rw gone (
              ap (λ (x : PushChange). x.content_type) (sym made),
              ap (λ (x : PushChange). x.content_base64) (sym made),
            );
          }

  pub build_push_changes-Sent :
      (v w w' : World P) (pending : List PendingChange) (changes : List PushChange)
      → Same v w
      → build_push_changes P pending v ≡ (ok changes, w')
      → AllSent w pending changes
  unfolding build_push_changes pure
  build_push_changes-Sent v w w' [] changes same e =
      let made : [] ≡ changes = cc in subst (AllSent w []) made tt
  build_push_changes-Sent v w w' (p ∷ pending) changes same e =
      let (c, w₁, first, rest₁) = >>=-eq-ok _ _ e in
      let (others, w₂, more, rest₂) = >>=-eq-ok _ _ rest₁ in
      let made : c ∷ others ≡ changes = cc in
      let onward : Same w₁ w = record {
        files = λ j.
            same_files P L (build_push_change P p) v (λ i. FileIs-build_push_change i _ p) first j
            ∙ same.files j;
        meta = λ j.
            same_meta P L (build_push_change P p) v (λ i. MetaIs-build_push_change i _ p) first j
            ∙ same.meta j;
      } in
      subst (AllSent w (p ∷ pending)) made (
        build_push_change-Sent v w w₁ p c same first,
        build_push_changes-Sent w₁ w w₂ pending others onward more,
      )
