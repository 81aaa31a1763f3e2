-- ===== src/Routes/Stored.antt =====
-- What the hub acknowledges (`post_changes`, crates/hub-api/src/routes/push.rs).
use sync_stuff_opinionated.Base.{
  ℕ, ◌≡◌, ◌⊎◌, inl, inr, refl, ◌∙◌, Bool, true, false, Option, none, some, List, [], ◌∷◌,
  if◌then◌else◌, arith,
}
use mathlib.Core.Path.{subst}
use sync_stuff_opinionated.Base.Text.{Text, Bytes}
use sync_stuff_opinionated.Base.Effect.{
  Eff, Result, ok, err, panic, pure, fail, panics, with_err-ok, >>=-eq-ok,
}
use sync_stuff_opinionated.Protocol.{PushChange, PushResult}
use sync_stuff_opinionated.Engine.Queue.{unwrap_or}
use sync_stuff_opinionated.Couch.{
  CouchError, transport, api, bad_url, rev_conflict, decode, PutResult, Revisions, Backend,
}
use sync_stuff_opinionated.Resolver.Resolve.{resolve}
use sync_stuff_opinionated.Routes.Push.{
  into_api, Action, conflict, couch, on_couch, branch_doc, or_conflict, parent_of,
  branch_and_resolve, on_result, or_branch, blind_delete, delete_at, apply_delete, upsert_content,
  upsert_decoded, apply_upsert, apply, apply_one, post_changes,
}
use sync_stuff_opinionated.Routes.Storing.{
  type_of, document, Parent, Branched, DeleteStored, UpsertStored, Stored, AllStored,
}

module _ (B : Backend) (fuel : ℕ) where
  on_couch-ok :
      {A : Type 0} (m : Eff B.World CouchError A) (w w' : B.World) (a : A)
      → on_couch B m w ≡ (ok a, w')
      → m w ≡ (ok a, w')
  unfolding on_couch
  on_couch-ok m w w' a e = with_err-ok couch m w w' a e

  or_conflict-ok :
      {A : Type 0} (o : Option A) (w w' : B.World) (a : A)
      → or_conflict B o w ≡ (ok a, w')
      → (o ≡ some a) × (w ≡ w')
  unfolding pure fail
  or_conflict-ok none w w' a e = cc
  or_conflict-ok (some b) w w' a e = (ground (arith, e), ground (arith, e))

  parent_of-Parent :
      (path : Text) (base : Option Text) (w w' : B.World) (parent : Revisions)
      → parent_of B path base w ≡ (ok parent, w')
      → Parent B fuel path base parent w w'
  unfolding parent_of pure
  parent_of-Parent path none w w' parent e = (ground (arith, e), ground (arith, e))
  parent_of-Parent path (some base) w w' parent e =
      let (found, w₁, got, rest) = >>=-eq-ok _ _ e in
      let (doc, w₂, there, rest₂) = >>=-eq-ok _ _ rest in
      let (held, same) = or_conflict-ok found w₁ w₂ doc there in
      let (revs, same₂) = or_conflict-ok _ w₂ w' parent rest₂ in
      (doc, on_couch-ok (B.couch.get_doc_at_rev path base) w w' (some doc) cc, revs)

  -- A branch that succeeds, after the refusal.
  branch_and_resolve-Branched :
      (change : PushChange) (deleted : Bool) (content : Option Bytes)
      (revision : Revisions → B.json.Value) (write : Eff B.World CouchError PutResult) (id : Text)
      (w w₁ w' : B.World) (rev : Text)
      → ((parent : Revisions) → branch_doc B change deleted content parent ≡ revision parent)
      → write w ≡ (err (rev_conflict id), w₁)
      → branch_and_resolve B fuel change deleted content w₁ ≡ (ok rev, w')
      → Branched B fuel change revision write rev w w'
  unfolding branch_and_resolve pure
  branch_and_resolve-Branched change deleted content revision write id w w₁ w' rev same refused e =
      let (parent, w₂, hangs, rest₁) = >>=-eq-ok _ _ e in
      let (_, w₃, put, rest₂) = >>=-eq-ok _ _ rest₁ in
      let (outcome, w₄, settled, rest₃) = >>=-eq-ok _ _ rest₂ in
      let (found, w₅, got, rest₄) = >>=-eq-ok _ _ rest₃ in
      let (winner, w₆, there, rest₅) = >>=-eq-ok _ _ rest₄ in
      let (held, end) = or_conflict-ok found w₅ w₆ winner there in
      (
        id,
        parent,
        outcome,
        winner,
        w₁,
        w₂,
        w₃,
        w₄,
        refused,
        parent_of-Parent change.path change.base_rev w₁ w₂ parent hangs,
        subst (λ d. B.couch.put_revision d w₂ ≡ (ok tt, w₃)) (same parent)
            (on_couch-ok _ w₂ w₃ tt put),
        with_err-ok (λ _. conflict) (resolve B fuel change.path) w₃ w₄ outcome settled,
        on_couch-ok (B.couch.get_doc change.path) w₄ w' (some winner) cc,
        ground (arith, rest₅),
      )

  -- A write that succeeds, or is refused with a revision conflict and followed by the branch.
  or_branch-ok :
      (m : Eff B.World CouchError PutResult) (done : PutResult → Action B Text)
      (other : Action B Text) (w w' : B.World) (rev : Text)
      → or_branch B m done other w ≡ (ok rev, w')
      → ((r : PutResult) × (w₁ : B.World) × (m w ≡ (ok r, w₁)) × (done r w₁ ≡ (ok rev, w')))
        ⊎ ((id : Text) × (w₁ : B.World) × (m w ≡ (err (rev_conflict id), w₁))
            × (other w₁ ≡ (ok rev, w')))
  unfolding or_branch
  or_branch-ok m done other w w' rev e = onward (m w).0 (m w).1 refl e
    where
      onward :
          (r : Result CouchError PutResult) (w₁ : B.World)
          → m w ≡ (r, w₁)
          → on_result B r done other w₁ ≡ (ok rev, w')
          → ((r : PutResult) × (w₁ : B.World) × (m w ≡ (ok r, w₁)) × (done r w₁ ≡ (ok rev, w')))
            ⊎ ((id : Text) × (w₁ : B.World) × (m w ≡ (err (rev_conflict id), w₁))
                × (other w₁ ≡ (ok rev, w')))
      onward (ok r) w₁ g e = inl (r, w₁, g, e)
      onward (err (rev_conflict id)) w₁ g e = inr (id, w₁, g, e)
      onward (err (transport x)) w₁ g e = cc
      onward (err (api s x)) w₁ g e = cc
      onward (err (bad_url x)) w₁ g e = cc
      onward (err (decode x)) w₁ g e = cc
      onward panic w₁ g e = cc

  blind_delete-ok :
      (found : Option B.json.Value) (w w' : B.World) (rev : Text)
      → blind_delete B found w ≡ (ok rev, w')
      → (found ≡ none) × ([] ≡ rev) × (w ≡ w')
  unfolding fail pure
  blind_delete-ok none w w' rev e = (refl, ground (arith, e), ground (arith, e))
  blind_delete-ok (some doc) w w' rev e = cc

  delete_at-Stored :
      (change : PushChange) (base : Option Text) (w w' : B.World) (rev : Text)
      → delete_at B fuel change base w ≡ (ok rev, w')
      → DeleteStored B fuel change base rev w w'
  unfolding delete_at pure
  delete_at-Stored change none w w' rev e =
      let (found, w₁, got, rest) = >>=-eq-ok _ _ e in
      let (gone, made, end) = blind_delete-ok found w₁ w' rev rest in
      (on_couch-ok (B.couch.get_doc change.path) w w' none cc, made)
  delete_at-Stored change (some base) w w' rev e = elim (or_branch-ok _ _ _ w w' rev e) [
    | inl written ↦
        let (r, w₁, gone, rest) = written in
        inl (r, ground (arith, gone, rest), ground (arith, rest))
    | inr refused ↦
        let (id, w₁, bad, done) = refused in
        inr (
          branch_and_resolve-Branched change true none _ (B.couch.delete_doc change.path base) id w
            w₁ w' rev (λ parent. refl) bad done)
  ]

  upsert_content-Stored :
      (change : PushChange) (content : Bytes) (w w' : B.World) (rev : Text)
      → B.base64_decode (unwrap_or change.content_base64 []) ≡ ok content
      → upsert_content B fuel change (type_of change) content w ≡ (ok rev, w')
      → UpsertStored B fuel change rev w w'
  unfolding upsert_content pure
  upsert_content-Stored change content w w' rev d e = elim (or_branch-ok _ _ _ w w' rev e) [
    | inl written ↦
        let (doc, w₁, put, rest) = written in
        let (r, w₂, attached, rest₂) = >>=-eq-ok _ _ rest in
        (
          content,
          d,
          inl (
            doc,
            r,
            w₁,
            put,
            on_couch-ok _ w₁ w' r (attached ∙ ground (arith, rest₂)),
            ground (arith, rest₂),
          ),
        )
    | inr refused ↦
        let (id, w₁, bad, done) = refused in
        (
          content,
          d,
          inr (
              branch_and_resolve-Branched change false (some content) _
                (B.couch.put_doc change.path change.base_rev (document B fuel change)) id w w₁ w'
                rev (λ parent. refl) bad done),
        )
  ]

  upsert_decoded-Stored :
      (change : PushChange) (r : Result Text Bytes) (w w' : B.World) (rev : Text)
      → B.base64_decode (unwrap_or change.content_base64 []) ≡ r
      → upsert_decoded B fuel change (type_of change) r w ≡ (ok rev, w')
      → UpsertStored B fuel change rev w w'
  unfolding fail panics
  upsert_decoded-Stored change (ok content) w w' rev d e =
      upsert_content-Stored change content w w' rev d e
  upsert_decoded-Stored change (err x) w w' rev d e = cc
  upsert_decoded-Stored change panic w w' rev d e = cc

  apply-Stored :
      (change : PushChange) (w w' : B.World) (rev : Text)
      → apply B fuel change w ≡ (ok rev, w')
      → Stored B fuel change (record { path = change.path; rev = rev }) w w'
  unfolding apply apply_delete apply_upsert
  apply-Stored change w w' rev e = (refl, onward change.deleted e)
    where
      onward :
          (gone : Bool)
          → (if gone then apply_delete B fuel change else apply_upsert B fuel change) w
            ≡ (ok rev, w')
          → (if gone
              then DeleteStored B fuel change change.base_rev rev w w'
              else UpsertStored B fuel change rev w w')
      onward true e = delete_at-Stored change change.base_rev w w' rev e
      onward false e = upsert_decoded-Stored change _ w w' rev refl e

  apply_one-Stored :
      (change : PushChange) (w w' : B.World) (result : PushResult)
      → apply_one B fuel change w ≡ (ok result, w')
      → Stored B fuel change result w w'
  unfolding apply_one pure
  apply_one-Stored change w w' result e =
      let (rev, w₁, applied, rest) = >>=-eq-ok _ _ e in
      let made : record { path = change.path; rev = rev } ≡ result = cc in
      subst (λ r. Stored B fuel change r w w') made
        (apply-Stored change w w' rev
          (with_err-ok (into_api change.path) (apply B fuel change) w w' rev cc))

  -- A batch that the hub acknowledges has an answer for each change, in the order of the changes,
  -- with its path and its revision, and the changes were stored one after the other. A deletion
  -- without a base found no document; a deletion with one deleted its base revision. An edit put its
  -- document, with its path, time and content type, on its base revision, and then its content on
  -- the revision of that document. If the write was refused with a revision conflict, the change was
  -- put as a revision after the history of its base, with its path and time, and for an edit with
  -- its content, the document was resolved, and the answer is the revision that won.
  pub post_changes-AllStored :
      (pushes : List PushChange) (w w' : B.World) (results : List PushResult)
      → post_changes B fuel pushes w ≡ (ok results, w')
      → AllStored B fuel pushes results w w'
  unfolding post_changes pure
  post_changes-AllStored [] w w' results e =
      let made : [] ≡ results = cc in
      subst (λ rs. AllStored B fuel [] rs w w') made (ground (arith, e))
  post_changes-AllStored (change ∷ pushes) w w' results e =
      let (result, w₁, first, rest₁) = >>=-eq-ok _ _ e in
      let (others, w₂, more, rest₂) = >>=-eq-ok _ _ rest₁ in
      let made : result ∷ others ≡ results = cc in
      let end : w₂ ≡ w' = cc in
      subst (λ rs. AllStored B fuel (change ∷ pushes) rs w w') made
        (
          w₁,
          apply_one-Stored change w w₁ result first,
          subst (AllStored B fuel pushes others w₁) end
              (post_changes-AllStored pushes w₁ w₂ others more),
        )
