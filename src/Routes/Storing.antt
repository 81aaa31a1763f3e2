-- ===== src/Routes/Storing.antt =====
-- What it means that the hub has stored a change (`post_changes`,
-- crates/hub-api/src/routes/push.rs), in terms of the calls of the database.
use sync_stuff_opinionated.Base.{
  ℕ, ◌+◌, ◌%◌, ◌^◌, ◌≡◌, ◌⊎◌, true, false, Option, none, some, List, [], ◌∷◌, map, if◌then◌else◌,
}
use sync_stuff_opinionated.Base.Text.{Text, Bytes, codes}
use sync_stuff_opinionated.Base.Int.{pos}
use sync_stuff_opinionated.Base.Effect.{Eff, ok, err}
use sync_stuff_opinionated.Protocol.{PushChange, PushResult}
use sync_stuff_opinionated.Engine.Queue.{unwrap_or, and_then}
use sync_stuff_opinionated.Couch.{CouchError, rev_conflict, PutResult, Revisions, Backend}
use sync_stuff_opinionated.Diff3.{rev_text}
use sync_stuff_opinionated.Resolver.{Outcome}
use sync_stuff_opinionated.Resolver.Resolve.{doc_rev, resolve}
use sync_stuff_opinionated.Routes.Push.{branch_hash}

-- The content type of an edit.
abbrev pub type_of : PushChange → Text
type_of change = unwrap_or change.content_type (codes "application/octet-stream")

module _ (B : Backend) (fuel : ℕ) where
  -- The document of a file: its path, its time and its content type.
  abbrev pub document : PushChange → B.json.Value
  document change = B.json.object (
      (codes "path", B.json.string change.path)
      ∷ (codes "mtime", B.json.number change.mtime)
      ∷ (codes "content_type", B.json.string (type_of change))
      ∷ [])

  -- The `_revisions` of a branch: one revision more than its parent has.
  abbrev pub history : Revisions → Text → B.json.Value
  history parent hash = B.json.object (
      (codes "start", B.json.number (pos ((parent.start + 1) % 2 ^ 64)))
      ∷ (codes "ids", B.json.array (map B.json.string (hash ∷ parent.ids)))
      ∷ [])

  -- The revision that a stale deletion becomes, after its parent.
  abbrev pub tombstone : PushChange → Text → Revisions → B.json.Value
  tombstone change hash parent = B.json.object (
      (codes "_id", B.json.string change.path)
      ∷ (codes "_rev", B.json.string (rev_text ((parent.start + 1) % 2 ^ 64) hash))
      ∷ (codes "_revisions", history parent hash)
      ∷ (codes "path", B.json.string change.path)
      ∷ (codes "mtime", B.json.number change.mtime)
      ∷ (codes "_deleted", B.json.boolean true)
      ∷ [])

  -- The revision that a stale edit becomes, after its parent, with its content.
  abbrev pub branch : PushChange → Bytes → Text → Revisions → B.json.Value
  branch change content hash parent = B.json.object (
      (codes "_id", B.json.string change.path)
      ∷ (codes "_rev", B.json.string (rev_text ((parent.start + 1) % 2 ^ 64) hash))
      ∷ (codes "_revisions", history parent hash)
      ∷ (codes "path", B.json.string change.path)
      ∷ (codes "mtime", B.json.number change.mtime)
      ∷ (
        codes "content_type",
        elim change.content_type [
          | none ↦ B.json.null
          | some content_type ↦ B.json.string content_type
        ],
      )
      ∷ (
        codes "_attachments",
        B.json.object (
            (
              codes "content",
              B.json.object (
                  (codes "content_type", B.json.string (type_of change))
                  ∷ (codes "data", B.json.string (B.base64_encode content))
                  ∷ []),
            )
            ∷ []),
      )
      ∷ [])

  -- The parent of a branch: nothing if the change has no base, and else the history of its base
  -- revision, as the database has it.
  abbrev pub Parent : Text → Option Text → Revisions → B.World → B.World → Type 0
  Parent path none parent w w' = (parent ≡ record { start = 0; ids = [] }) × (w ≡ w')
  Parent path (some base) parent w w' =
      (doc : B.json.Value) × (B.couch.get_doc_at_rev path base w ≡ (ok (some doc), w'))
      × (and_then (B.json.get doc (codes "_revisions")) B.json.revisions ≡ some parent)

  -- The write was refused with a revision conflict, so the change became a revision after its
  -- parent, the document was resolved, and the answer is the revision that won.
  abbrev pub Branched :
      PushChange
      → (Revisions → B.json.Value)
      → Eff B.World CouchError PutResult
      → Text
      → B.World
      → B.World
      → Type 0
  Branched change revision write rev w w' =
      (id : Text) × (parent : Revisions) × (outcome : Outcome) × (winner : B.json.Value)
      × (w₁ : B.World) × (w₂ : B.World) × (w₃ : B.World) × (w₄ : B.World) × (write w
          ≡ (err (rev_conflict id), w₁))
      × Parent change.path change.base_rev parent w₁ w₂
      × (B.couch.put_revision (revision parent) w₂ ≡ (ok tt, w₃))
      × (resolve B fuel change.path w₃ ≡ (ok outcome, w₄))
      × (B.couch.get_doc change.path w₄ ≡ (ok (some winner), w'))
      × (doc_rev B winner ≡ rev)

  -- A deletion, by its base: without one there was no document; with one the base was deleted, or
  -- that was refused and the deletion became a branch.
  abbrev pub DeleteStored : PushChange → Option Text → Text → B.World → B.World → Type 0
  DeleteStored change none rev w w' = (B.couch.get_doc change.path w ≡ (ok none, w')) × ([] ≡ rev)
  DeleteStored change (some base) rev w w' =
      ((r : PutResult) × (B.couch.delete_doc change.path base w ≡ (ok r, w')) × (r.rev ≡ rev))
      ⊎ Branched change (tombstone change (branch_hash B change true none))
          (B.couch.delete_doc change.path base) rev w w'

  -- An edit: its document was put on its base revision, and its content after that, on the revision
  -- of the document; or the document was refused and the edit became a branch.
  abbrev pub UpsertStored : PushChange → Text → B.World → B.World → Type 0
  UpsertStored change rev w w' =
      (content : Bytes) × (B.base64_decode (unwrap_or change.content_base64 []) ≡ ok content)
      × (((doc : PutResult) × (r : PutResult) × (w₁ : B.World) × (B.couch.put_doc change.path
                change.base_rev (document change) w
              ≡ (ok doc, w₁))
            × (B.couch.put_attachment change.path doc.rev (type_of change) content w₁ ≡ (ok r, w'))
            × (r.rev ≡ rev))
          ⊎ Branched change (branch change content (branch_hash B change false (some content)))
              (B.couch.put_doc change.path change.base_rev (document change)) rev w w')

  -- What an acknowledgement of a change promises.
  abbrev pub Stored : PushChange → PushResult → B.World → B.World → Type 0
  Stored change result w w' =
      (result.path ≡ change.path)
      × (if change.deleted
          then DeleteStored change change.base_rev result.rev w w'
          else UpsertStored change result.rev w w')

  -- The changes were stored one after the other, with the answers in the same order.
  abbrev pub AllStored : List PushChange → List PushResult → B.World → B.World → Type 0
  AllStored [] [] w w' = w ≡ w'
  AllStored (change ∷ pushes) (result ∷ results) w w' =
      (w₁ : B.World) × Stored change result w w₁ × AllStored pushes results w₁ w'
  AllStored _ _ w w' = ⊥
