-- ===== src/Routes/Push.antt =====
-- `POST /changes` (crates/hub-api/src/routes/push.rs): each change is written on its base revision;
-- a stale one becomes a branch of the document, which is resolved at once.
use sync_stuff_opinionated.Base.{
  ℕ, ◌+◌, ◌%◌, ◌^◌, Bool, true, false, Option, none, some, List, [], ◌∷◌, ◌++◌, map, if◌then◌else◌,
}
use sync_stuff_opinionated.Base.Text.{Text, Bytes, codes}
use sync_stuff_opinionated.Base.Int.{pos}
use sync_stuff_opinionated.Base.Effect.{
  Eff, Result, ok, err, panic, pure, fail, panics, ◌>>=◌, ◌>>◌, with_err,
}
use sync_stuff_opinionated.Protocol.{PushChange, PushResult}
use sync_stuff_opinionated.Engine.Queue.{unwrap_or, and_then, octet_stream}
use sync_stuff_opinionated.Couch.{CouchError, rev_conflict, decode, Revisions, Backend}
use sync_stuff_opinionated.Diff3.{rev_text}
use sync_stuff_opinionated.Resolver.Apply.{file_doc}
use sync_stuff_opinionated.Resolver.Resolve.{doc_rev, resolve}
use sync_stuff_opinionated.Routes.{ApiError, api_error}
use sync_stuff_opinionated.Routes.Hash.{rev_hash, be_bytes}

pub data ApplyError : Type 0 where
  conflict : ApplyError
  couch : CouchError → ApplyError

abbrev pub into_api : Text → ApplyError → ApiError
into_api path conflict = record { status = 409; message = codes "cannot apply change to " ++ path }
into_api path (couch e) = api_error e

-- The revision that a branch hangs off when the change has no base.
abbrev pub no_parent : Revisions
no_parent = record { start = 0; ids = [] }

abbrev pub new_start : Revisions → ℕ
new_start parent = (parent.start + 1) % 2 ^ 64

module _ (B : Backend) where
  abbrev pub Action : Type 0 → Type 0
  Action A = Eff B.World ApplyError A

  -- `?` on a call of the database.
  unfoldable pub on_couch : {A : Type 0} → Eff B.World CouchError A → Action A
  on_couch m = with_err couch m

  abbrev pub branch_hash : PushChange → Bool → Option Bytes → Text
  branch_hash change deleted content = rev_hash (
      B.into_bytes (unwrap_or change.base_rev [])
      ++ 0 ∷ (if deleted then 1 else 0) ∷ be_bytes change.mtime
      ++ unwrap_or content [])

  -- The parts of the document that a deletion and an edit do not share.
  abbrev pub branch_rest : PushChange → Bool → Option Bytes → List (Text × B.json.Value)
  branch_rest change true content = (codes "_deleted", B.json.boolean true) ∷ []
  branch_rest change false content =
      (
        codes "content_type",
        elim change.content_type [
          | none ↦ B.json.null
          | some content_type ↦ B.json.string content_type
        ],
      )
      ∷ (
        codes "_attachments",
        B.json.object (
            (
              codes "content",
              B.json.object (
                  (codes "content_type", B.json.string (unwrap_or change.content_type octet_stream))
                  ∷ (codes "data", B.json.string (B.base64_encode (unwrap_or content [])))
                  ∷ []),
            )
            ∷ []),
      )
      ∷ []

  abbrev pub branch_doc : PushChange → Bool → Option Bytes → Revisions → B.json.Value
  branch_doc change deleted content parent =
      let hash = branch_hash change deleted content in
      B.json.object (
        (codes "_id", B.json.string change.path)
        ∷ (codes "_rev", B.json.string (rev_text (new_start parent) hash))
        ∷ (
          codes "_revisions",
          B.json.object (
              (codes "start", B.json.number (pos (new_start parent)))
              ∷ (codes "ids", B.json.array (map B.json.string (hash ∷ parent.ids)))
              ∷ []),
        )
        ∷ (codes "path", B.json.string change.path)
        ∷ (codes "mtime", B.json.number change.mtime)
        ∷ branch_rest change deleted content)

  -- `ok_or(ApplyError::Conflict)`.
  abbrev pub or_conflict : {A : Type 0} → Option A → Action A
  or_conflict none = fail conflict
  or_conflict (some a) = pure a

  unfoldable pub parent_of : Text → Option Text → Action Revisions
  parent_of path none = pure no_parent
  parent_of path (some base_rev) = do
    found ← on_couch (B.couch.get_doc_at_rev path base_rev)
    doc ← or_conflict found
    or_conflict (and_then (B.json.get doc (codes "_revisions")) B.json.revisions)

  unfoldable pub branch_and_resolve : ℕ → PushChange → Bool → Option Bytes → Action Text
  branch_and_resolve fuel change deleted content = do
    parent ← parent_of change.path change.base_rev
    on_couch (B.couch.put_revision (branch_doc change deleted content parent))
    with_err (λ _. conflict) (resolve B fuel change.path)
    found ← on_couch (B.couch.get_doc change.path)
    winner ← or_conflict found
    pure (doc_rev B winner)

  -- The match on the result of a write: a revision conflict makes a branch.
  abbrev pub on_result :
      {A : Type 0} → Result CouchError A → (A → Action Text) → Action Text → Action Text
  on_result (ok a) done branch w = done a w
  on_result (err (rev_conflict id)) done branch w = branch w
  on_result (err e) done branch w = (err (couch e), w)
  on_result panic done branch w = (panic, w)

  unfoldable pub or_branch :
      {A : Type 0} → Eff B.World CouchError A → (A → Action Text) → Action Text → Action Text
  or_branch m done branch w = let (r, w') = m w in on_result r done branch w'

  -- A deletion without a base is right only if there is nothing to delete.
  abbrev pub blind_delete : Option B.json.Value → Action Text
  blind_delete none = pure []
  blind_delete (some doc) = fail conflict

  unfoldable pub delete_at : ℕ → PushChange → Option Text → Action Text
  delete_at fuel change none = do found ← on_couch (B.couch.get_doc change.path); blind_delete found
  delete_at fuel change (some rev) =
      or_branch (B.couch.delete_doc change.path rev) (λ result. pure result.rev)
        (branch_and_resolve fuel change true none)

  unfoldable pub apply_delete : ℕ → PushChange → Action Text
  apply_delete fuel change = delete_at fuel change change.base_rev

  unfoldable pub upsert_content : ℕ → PushChange → Text → Bytes → Action Text
  upsert_content fuel change content_type content =
      or_branch
        (B.couch.put_doc change.path change.base_rev
          (file_doc B change.path change.mtime content_type))
        (λ doc. do
          attached ← on_couch (B.couch.put_attachment change.path doc.rev content_type content)
          pure attached.rev)
        (branch_and_resolve fuel change false (some content))

  abbrev pub upsert_decoded : ℕ → PushChange → Text → Result Text Bytes → Action Text
  upsert_decoded fuel change content_type (ok content) =
      upsert_content fuel change content_type content
  upsert_decoded fuel change content_type (err e) =
      fail (couch (decode (codes "bad base64: " ++ e)))
  upsert_decoded fuel change content_type panic = panics

  unfoldable pub apply_upsert : ℕ → PushChange → Action Text
  apply_upsert fuel change =
      upsert_decoded fuel change (unwrap_or change.content_type octet_stream)
        (B.base64_decode (unwrap_or change.content_base64 []))

  unfoldable pub apply : ℕ → PushChange → Action Text
  apply fuel change = if change.deleted then apply_delete fuel change else apply_upsert fuel change

  unfoldable pub apply_one : ℕ → PushChange → Eff B.World ApiError PushResult
  apply_one fuel change = do
    rev ← with_err (into_api change.path) (apply fuel change)
    pure (record { path = change.path; rev = rev })

  -- The first change that fails ends the batch, with the effects of those before it.
  unfoldable pub post_changes : ℕ → List PushChange → Eff B.World ApiError (List PushResult)
  post_changes fuel [] = pure []
  post_changes fuel (change ∷ pushes) = do
    result ← apply_one fuel change
    results ← post_changes fuel pushes
    pure (result ∷ results)
