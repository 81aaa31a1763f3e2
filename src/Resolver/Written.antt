-- ===== src/Resolver/Written.antt =====
-- What the writes of a resolution leave behind (`apply_plan`, crates/hub-api/src/resolver.rs), in
-- every outcome.
use sync_stuff_opinionated.Base.{
  ℕ, ◌≡◌, ap, ◌⊎◌, inl, inr, Option, none, some, List, [], ◌∷◌, arith,
}
use mathlib.Core.Path.{subst}
use sync_stuff_opinionated.Base.Text.{Text, Bytes}
use sync_stuff_opinionated.Base.Lists.{All}
use sync_stuff_opinionated.Base.Effect.{
  Eff, Result, ok, pure, Keeps, >>=-eq-ok, after_keeping, after_bind,
}
use sync_stuff_opinionated.Couch.{CouchError, PutResult, Backend}
use sync_stuff_opinionated.Couch.Leads.{Leads, here, Leads-trans, Leads-of}
use sync_stuff_opinionated.Resolver.{ResolveError, Copy, Plan, on_write}
use sync_stuff_opinionated.Resolver.Apply.{
  write_copy, write_copies, write_content, write_final, delete_leaves, apply_plan,
}
use sync_stuff_opinionated.Resolver.Frame.{
  Keeps-write_copies, Keeps-write_content, Leads-put_doc, Leads-delete_doc,
  Leads-conflict_copy_path, Leads-write_copy, Leads-write_copies, Leads-write_content,
  Leads-delete_leaves,
}

module _ (B : Backend) where
  -- Between the two states the database has taken the content, under the path.
  abbrev pub Uploaded : B.World → B.World → Text → Text → Bytes → Type 0
  Uploaded s e path content_type content =
      (rev : Text) × (w : B.World) × (w' : B.World) × (r : PutResult) × Leads B s w
      × (B.couch.put_attachment path rev content_type content w ≡ (ok r, w'))
      × Leads B w' e

  abbrev pub CopiesUploaded : B.World → B.World → List Copy → List Text → Type 0
  CopiesUploaded s e [] [] = Unit
  CopiesUploaded s e (copy ∷ copies) (path ∷ paths) =
      Uploaded s e path copy.content_type copy.content × CopiesUploaded s e copies paths
  CopiesUploaded s e _ _ = ⊥

  abbrev pub ContentUploaded : B.World → B.World → Text → Plan → Option Bytes → Type 0
  ContentUploaded s e path plan none = Unit
  ContentUploaded s e path plan (some content) = Uploaded s e path plan.final_content_type content

  abbrev pub Deleted : B.World → B.World → Text → Text → Type 0
  Deleted s e path rev =
      (w : B.World) × (w' : B.World) × (r : PutResult) × Leads B s w
      × (B.couch.delete_doc path rev w ≡ (ok r, w'))
      × Leads B w' e

  on_write-ok :
      {A : Type 0} (m : Eff B.World CouchError A) (w w' : B.World) (a : A)
      → on_write B m w ≡ (ok a, w')
      → m w ≡ (ok a, w')
  unfolding on_write
  on_write-ok m w w' a e = ground (arith, e)

  -- The database has been led on.
  later :
      (s e e' : B.World) (path content_type : Text) (content : Bytes)
      → Leads B e e'
      → Uploaded s e path content_type content
      → Uploaded s e' path content_type content
  later s e e' path content_type content on (rev, w, w', r, a, put, b) =
      (rev, w, w', r, a, put, Leads-trans B w' e e' b on)

  copies_later :
      (s e e' : B.World) (copies : List Copy) (paths : List Text)
      → Leads B e e'
      → CopiesUploaded s e copies paths
      → CopiesUploaded s e' copies paths
  copies_later s e e' [] [] on h = tt
  copies_later s e e' (copy ∷ copies) (path ∷ paths) on (first, rest) = (
    later s e e' path copy.content_type copy.content on first,
    copies_later s e e' copies paths on rest,
  )
  copies_later s e e' [] (path ∷ paths) on h = h
  copies_later s e e' (copy ∷ copies) [] on h = h

  content_later :
      (s e e' : B.World) (path : Text) (plan : Plan) (content : Option Bytes)
      → Leads B e e'
      → ContentUploaded s e path plan content
      → ContentUploaded s e' path plan content
  content_later s e e' path plan none on h = tt
  content_later s e e' path plan (some content) on h =
      later s e e' path plan.final_content_type content on h

  write_copy-Uploaded :
      (fuel : ℕ) (path : Text) (copy : Copy) (s w w' : B.World) (copy_path : Text)
      → Leads B s w
      → write_copy B fuel path copy w ≡ (ok copy_path, w')
      → Uploaded s w' copy_path copy.content_type copy.content
  unfolding write_copy pure
  write_copy-Uploaded fuel path copy s w w' copy_path h e =
      let (free, w₁, named, rest₁) = >>=-eq-ok _ _ e in
      let (doc, w₂, made, rest₂) = >>=-eq-ok _ _ rest₁ in
      let (r, w₃, put, rest₃) = >>=-eq-ok _ _ rest₂ in
      let same : free ≡ copy_path = cc in
      let end : w₃ ≡ w' = cc in
      let h₁ = Leads-of B _ s w w₁ (ok free) (Leads-conflict_copy_path B s fuel path) h named in
      let h₂ = Leads-of B _ s w₁ w₂ (ok doc) (Leads-put_doc B s _ _ _) h₁ made in
      subst (λ p. Uploaded s w' p copy.content_type copy.content) same
        (doc.rev, w₂, w₃, r, h₂, on_write-ok _ w₂ w₃ r put, subst (Leads B w₃) end here)

  write_copies-Uploaded :
      (fuel : ℕ) (path : Text) (copies : List Copy) (s w w' : B.World) (written : List Text)
      → Leads B s w
      → write_copies B fuel path copies w ≡ (ok written, w')
      → CopiesUploaded s w' copies written
  unfolding write_copies pure
  write_copies-Uploaded fuel path [] s w w' written h e =
      let made : [] ≡ written = cc in subst (CopiesUploaded s w' []) made tt
  write_copies-Uploaded fuel path (copy ∷ copies) s w w' written h e =
      let (copy_path, w₁, first, rest₁) = >>=-eq-ok _ _ e in
      let (others, w₂, more, rest₂) = >>=-eq-ok _ _ rest₁ in
      let made : copy_path ∷ others ≡ written = cc in
      let end : w₂ ≡ w' = cc in
      let h₁ = Leads-of B _ s w w₁ (ok copy_path) (Leads-write_copy B s fuel path copy) h first in
      let on : Leads B w₁ w₂ =
        Leads-of B _ w₁ w₁ w₂ (ok others) (Leads-write_copies B w₁ fuel path copies) here more in
      subst (λ v. CopiesUploaded s v (copy ∷ copies) written) end
        (subst (CopiesUploaded s w₂ (copy ∷ copies)) made (
          later s w₁ w₂ copy_path copy.content_type copy.content on
              (write_copy-Uploaded fuel path copy s w w₁ copy_path h first),
          write_copies-Uploaded fuel path copies s w₁ w₂ others h₁ more,
        ))

  write_content-Uploaded :
      (path : Text) (plan : Plan) (content : Option Bytes) (s w w' : B.World)
      → Leads B s w
      → write_content B path plan content w ≡ (ok tt, w')
      → ContentUploaded s w' path plan content
  unfolding pure
  write_content-Uploaded path plan none s w w' h e = tt
  write_content-Uploaded path plan (some content) s w w' h e =
      let (doc, w₁, made, rest₁) = >>=-eq-ok _ _ e in
      let (r, w₂, put, rest₂) = >>=-eq-ok _ _ rest₁ in
      let end : w₂ ≡ w' = cc in
      let h₁ = Leads-of B _ s w w₁ (ok doc) (Leads-put_doc B s _ _ _) h made in
      (doc.rev, w₁, w₂, r, h₁, on_write-ok _ w₁ w₂ r put, subst (Leads B w₂) end here)

  delete_leaves-Deleted :
      (path : Text) (revs : List Text) (s w w' : B.World)
      → Leads B s w
      → delete_leaves B path revs w ≡ (ok tt, w')
      → All (Deleted s w' path) revs
  unfolding delete_leaves
  delete_leaves-Deleted path [] s w w' h e = tt
  delete_leaves-Deleted path (rev ∷ revs) s w w' h e =
      let (r, w₁, gone, rest) = >>=-eq-ok _ _ e in
      let h₁ = Leads-of B _ s w w₁ (ok r) (Leads-delete_doc B s path rev) h gone in
      let on : Leads B w₁ w' =
        Leads-of B _ w₁ w₁ w' (ok tt) (Leads-delete_leaves B w₁ path revs) here rest in
      (
        (w, w₁, r, h, on_write-ok _ w w₁ r gone, on),
        delete_leaves-Deleted path revs s w₁ w' h₁ rest,
      )

  -- A plan that has been applied has, in the course of that, put every copy under the path that is
  -- reported for it, put the resolved content under the path, and deleted every losing leaf.
  pub apply_plan-Uploaded :
      (fuel : ℕ) (path : Text) (plan : Plan) (w w' : B.World) (written : List Text)
      → apply_plan B fuel path plan w ≡ (ok written, w')
      → CopiesUploaded w w' plan.copies written
        × ContentUploaded w w' path plan plan.final_content
        × All (Deleted w w' path) plan.loser_revs
  unfolding apply_plan write_final pure
  apply_plan-Uploaded fuel path plan w w' written e =
      let (copies, w₁, first, rest₁) = >>=-eq-ok _ _ e in
      let (_, w₂, final, rest₂) = >>=-eq-ok _ _ rest₁ in
      let (_, w₃, gone, rest₃) = >>=-eq-ok _ _ rest₂ in
      let made : copies ≡ written = cc in
      let end : w₃ ≡ w' = cc in
      let h₁ =
        Leads-of B _ w w w₁ (ok copies) (Leads-write_copies B w fuel path plan.copies) here first in
      let h₂ =
        Leads-of B _ w w₁ w₂ (ok tt) (Leads-write_content B w path plan plan.final_content) h₁
          final in
      let on₁ : Leads B w₁ w₂ =
        Leads-of B _ w₁ w₁ w₂ (ok tt) (Leads-write_content B w₁ path plan plan.final_content) here
          final in
      let on₂ : Leads B w₂ w₃ =
        Leads-of B _ w₂ w₂ w₃ (ok tt) (Leads-delete_leaves B w₂ path plan.loser_revs) here gone in
      subst
        (λ v.
          CopiesUploaded w v plan.copies written
          × ContentUploaded w v path plan plan.final_content
          × All (Deleted w v path) plan.loser_revs)
        end
        (
          subst (CopiesUploaded w w₃ plan.copies) made (
              copies_later w w₁ w₃ plan.copies copies (Leads-trans B w₁ w₂ w₃ on₁ on₂)
                (write_copies-Uploaded fuel path plan.copies w w w₁ copies here first)),
          content_later w w₂ w₃ path plan plan.final_content on₂
              (write_content-Uploaded path plan plan.final_content w w₁ w₂ h₁ final),
          delete_leaves-Deleted path plan.loser_revs w w₂ w₃ h₂ gone,
        )

  module _ (Q : B.World → Type 0) (gets : (path : Text) → Keeps Q (B.couch.get_doc path))
      (puts : (path : Text) (rev : Option Text) (doc : B.json.Value)
        → Keeps Q (B.couch.put_doc path rev doc))
      (uploads : (path rev content_type : Text) (content : Bytes)
        → Keeps Q (B.couch.put_attachment path rev content_type content)) where
    -- All is put between the two states, and the property held until then.
    abbrev pub Safe : B.World → Text → Plan → Type 0
    Safe w path plan =
        (written : List Text) × (w₂ : B.World) × Q w₂
        × CopiesUploaded w w₂ plan.copies written
        × ContentUploaded w w₂ path plan plan.final_content

    -- No leaf is deleted before its content is safe. Take any property of the database that reading
    -- a document, putting a document and putting an attachment keep, such as that a leaf is still
    -- there. However the application of a plan ends, the property holds then, or it held in a state
    -- by which all the copies and the resolved content had been put.
    pub apply_plan-Uploaded_before :
        (fuel : ℕ) (path : Text) (plan : Plan) (w : B.World)
        → Q w
        → Q (apply_plan B fuel path plan w).1 ⊎ Safe w path plan
    unfolding apply_plan write_final
    apply_plan-Uploaded_before fuel path plan w h =
        after_keeping {K = Q} Outcome (λ _ _ k. inl k) (λ _ k. inl k) _ _ w
          (Keeps-write_copies B Q gets puts uploads fuel path plan.copies) h
          λ written w₁ first k₁.
            after_bind Outcome _ _ w₁ (λ _ w₂ final. inr (both written w₁ w₂ first final k₁))
              (λ _ w₂ e. inl (kept w₁ k₁ e)) (λ w₂ e. inl (kept w₁ k₁ e))
      where
        Outcome : {A : Type 0} → Result ResolveError A × B.World → Type 0
        Outcome out = Q out.1 ⊎ Safe w path plan

        kept :
            (w₁ : B.World) {r : Result ResolveError (Unit {0})} {w₂ : B.World}
            → Q w₁
            → write_content B path plan plan.final_content w₁ ≡ (r, w₂)
            → Q w₂
        kept w₁ k e =
            subst Q (ap (λ (out : Result ResolveError (Unit {0}) × B.World). out.1) e)
              ((Keeps-write_content B Q gets puts uploads path plan plan.final_content).at w₁ k)

        both :
            (written : List Text) (w₁ w₂ : B.World)
            → write_copies B fuel path plan.copies w ≡ (ok written, w₁)
            → write_content B path plan plan.final_content w₁ ≡ (ok tt, w₂)
            → Q w₁
            → Safe w path plan
        both written w₁ w₂ first final k =
            let h₁ =
              Leads-of B _ w w w₁ (ok written) (Leads-write_copies B w fuel path plan.copies) here
                first in
            let on : Leads B w₁ w₂ =
              Leads-of B _ w₁ w₁ w₂ (ok tt) (Leads-write_content B w₁ path plan plan.final_content)
                here final in
            (
              written,
              w₂,
              kept w₁ k final,
              copies_later w w₁ w₂ plan.copies written on
                  (write_copies-Uploaded fuel path plan.copies w w w₁ written here first),
              write_content-Uploaded path plan plan.final_content w w₁ w₂ h₁ final,
            )
