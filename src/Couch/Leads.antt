-- ===== src/Couch/Leads.antt =====
-- Sequences of calls of the database (crates/hub-api/src/couch.rs).
use sync_stuff_opinionated.Base.{◌≡◌, ap, Option}
use mathlib.Core.Path.{subst}
use sync_stuff_opinionated.Base.Text.{Text, Bytes}
use sync_stuff_opinionated.Base.Effect.{Eff, Result, Keeps}
use sync_stuff_opinionated.Couch.{Backend}

-- Calls of the database lead from one state to another.
pub data Leads (B : Backend) (w : B.World) : B.World → Type 0 where
  here : Leads B w w
  get_doc : (path : Text) {w' : B.World} → Leads B w w' → Leads B w (B.couch.get_doc path w').1
  put_doc :
      (path : Text) (rev : Option Text) (doc : B.json.Value) {w' : B.World}
      → Leads B w w'
      → Leads B w (B.couch.put_doc path rev doc w').1
  put_attachment :
      (path rev content_type : Text) (content : Bytes) {w' : B.World}
      → Leads B w w'
      → Leads B w (B.couch.put_attachment path rev content_type content w').1
  delete_doc :
      (path rev : Text) {w' : B.World} → Leads B w w' → Leads B w (B.couch.delete_doc path rev w').1
  get_doc_at_rev :
      (path rev : Text) {w' : B.World}
      → Leads B w w'
      → Leads B w (B.couch.get_doc_at_rev path rev w').1
  get_attachment_at_rev :
      (path name : Text) (rev : Option Text) {w' : B.World}
      → Leads B w w'
      → Leads B w (B.couch.get_attachment_at_rev path name rev w').1
  get_doc_leaves :
      (path : Text) {w' : B.World} → Leads B w w' → Leads B w (B.couch.get_doc_leaves path w').1
  put_revision :
      (doc : B.json.Value) {w' : B.World} → Leads B w w' → Leads B w (B.couch.put_revision doc w').1

module _ (B : Backend) where
  pub Leads-trans : (u v w : B.World) → Leads B u v → Leads B v w → Leads B u w
  Leads-trans u v _ a here = a
  Leads-trans u v _ a (get_doc path {w'} h) = get_doc path (Leads-trans u v w' a h)
  Leads-trans u v _ a (put_doc path rev doc {w'} h) = put_doc path rev doc (Leads-trans u v w' a h)
  Leads-trans u v _ a (put_attachment path rev content_type content {w'} h) =
      put_attachment path rev content_type content (Leads-trans u v w' a h)
  Leads-trans u v _ a (delete_doc path rev {w'} h) = delete_doc path rev (Leads-trans u v w' a h)
  Leads-trans u v _ a (get_doc_at_rev path rev {w'} h) =
      get_doc_at_rev path rev (Leads-trans u v w' a h)
  Leads-trans u v _ a (get_attachment_at_rev path name rev {w'} h) =
      get_attachment_at_rev path name rev (Leads-trans u v w' a h)
  Leads-trans u v _ a (get_doc_leaves path {w'} h) = get_doc_leaves path (Leads-trans u v w' a h)
  Leads-trans u v _ a (put_revision doc {w'} h) = put_revision doc (Leads-trans u v w' a h)

  -- Where an action has led, from a state that the calls have reached.
  pub Leads-of :
      {A E : Type 0} (m : Eff B.World E A) (s w w' : B.World) (r : Result E A)
      → Keeps (Leads B s) m
      → Leads B s w
      → m w ≡ (r, w')
      → Leads B s w'
  Leads-of {A} {E} m s w w' r k h e =
      subst (Leads B s) (ap (λ (out : Result E A × B.World). out.1) e) (k.at w h)
