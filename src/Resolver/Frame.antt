-- ===== src/Resolver/Frame.antt =====
-- What the writes of a resolution keep (`apply_plan`, crates/hub-api/src/resolver.rs): any property
-- of the database that its calls keep.
use sync_stuff_opinionated.Base.{ℕ, zero, suc, ◌+◌, Option, none, some, List, [], ◌∷◌}
use sync_stuff_opinionated.Base.Text.{Text, Bytes}
use sync_stuff_opinionated.Base.Effect.{Eff, Keeps, Keeps-bind, Keeps-pure, keeps_rules}
use sync_stuff_opinionated.Couch.{CouchError, Backend}
use sync_stuff_opinionated.Couch.Leads.{Leads}
use sync_stuff_opinionated.Resolver.{Copy, Plan, Action, on_read, on_write}
use sync_stuff_opinionated.Resolver.Apply.{
  candidate, unless_taken, free_path, conflict_copy_path, write_copy, write_copies, write_content,
  delete_leaves,
}

module _ (B : Backend) where
  module _ {Q : B.World → Type 0} where
    pub Keeps-on_read :
        {A : Type 0} {m : Eff B.World CouchError A} → Keeps Q m → Keeps Q (on_read B m)
    unfolding on_read
    Keeps-on_read k = record { at = λ w h. k.at w h }

    pub Keeps-on_write :
        {A : Type 0} {m : Eff B.World CouchError A} → Keeps Q m → Keeps Q (on_write B m)
    unfolding on_write
    Keeps-on_write k = record { at = λ w h. k.at w h }

  module _ (Q : B.World → Type 0) (gets : (path : Text) → Keeps Q (B.couch.get_doc path))
      (puts : (path : Text) (rev : Option Text) (doc : B.json.Value)
        → Keeps Q (B.couch.put_doc path rev doc))
      (uploads : (path rev content_type : Text) (content : Bytes)
        → Keeps Q (B.couch.put_attachment path rev content_type content)) where
    pub Keeps-free_path :
        (fuel : ℕ) (base today : Text) (n : ℕ) → Keeps Q (free_path B fuel base today n)
    unfolding free_path
    Keeps-free_path zero base today n = search keeps_rules
    Keeps-free_path (suc fuel) base today n =
        Keeps-bind _ _ (Keeps-on_read (gets _)) (onward (Keeps-free_path fuel base today (n + 1)))
      where
        onward :
            {others : Action B Text}
            → Keeps Q others
            → (doc : Option B.json.Value)
            → Keeps Q (unless_taken B (candidate base today n) others doc)
        onward k none = Keeps-pure _
        onward k (some doc) = k

    pub Keeps-conflict_copy_path :
        (fuel : ℕ) (path : Text) → Keeps Q (conflict_copy_path B fuel path)
    unfolding conflict_copy_path
    Keeps-conflict_copy_path fuel path = record {
      at = λ w h. (Keeps-free_path fuel path _ 0).at w h;
    }

    pub Keeps-write_copy :
        (fuel : ℕ) (path : Text) (copy : Copy) → Keeps Q (write_copy B fuel path copy)
    unfolding write_copy
    Keeps-write_copy fuel path copy =
        Keeps-bind _ _ (Keeps-conflict_copy_path fuel path) λ copy_path.
          Keeps-bind _ _ (Keeps-on_write (puts _ _ _))
            λ doc. Keeps-bind _ _ (Keeps-on_write (uploads _ _ _ _)) (λ _. Keeps-pure _)

    pub Keeps-write_copies :
        (fuel : ℕ) (path : Text) (copies : List Copy) → Keeps Q (write_copies B fuel path copies)
    unfolding write_copies
    Keeps-write_copies fuel path [] = search keeps_rules
    Keeps-write_copies fuel path (copy ∷ copies) =
        Keeps-bind _ _ (Keeps-write_copy fuel path copy)
          λ p. Keeps-bind _ _ (Keeps-write_copies fuel path copies) (λ _. Keeps-pure _)

    pub Keeps-write_content :
        (path : Text) (plan : Plan) (content : Option Bytes)
        → Keeps Q (write_content B path plan content)
    Keeps-write_content path plan none = search keeps_rules
    Keeps-write_content path plan (some content) =
        Keeps-bind _ _ (Keeps-on_write (puts _ _ _))
          λ doc. Keeps-bind _ _ (Keeps-on_write (uploads _ _ _ _)) (λ _. Keeps-pure _)

    pub Keeps-delete_leaves :
        ((path rev : Text) → Keeps Q (B.couch.delete_doc path rev))
        → (path : Text) (revs : List Text) → Keeps Q (delete_leaves B path revs)
    unfolding delete_leaves
    Keeps-delete_leaves deletes path [] = search keeps_rules
    Keeps-delete_leaves deletes path (rev ∷ revs) =
        Keeps-bind _ _ (Keeps-on_write (deletes path rev))
          (λ _. Keeps-delete_leaves deletes path revs)

-- The writes lead from one state of the database to another.
module _ (B : Backend) (s : B.World) where
  gets : (path : Text) → Keeps (Leads B s) (B.couch.get_doc path)
  gets path = record { at = λ w h. Leads.get_doc path h }

  puts :
      (path : Text) (rev : Option Text) (doc : B.json.Value)
      → Keeps (Leads B s) (B.couch.put_doc path rev doc)
  puts path rev doc = record { at = λ w h. Leads.put_doc path rev doc h }

  uploads :
      (path rev content_type : Text) (content : Bytes)
      → Keeps (Leads B s) (B.couch.put_attachment path rev content_type content)
  uploads path rev content_type content = record {
    at = λ w h. Leads.put_attachment path rev content_type content h;
  }

  deletes : (path rev : Text) → Keeps (Leads B s) (B.couch.delete_doc path rev)
  deletes path rev = record { at = λ w h. Leads.delete_doc path rev h }

  pub Leads-put_doc :
      (path : Text) (rev : Option Text) (doc : B.json.Value)
      → Keeps (Leads B s) (on_write B (B.couch.put_doc path rev doc))
  Leads-put_doc path rev doc = Keeps-on_write B (puts path rev doc)

  pub Leads-put_attachment :
      (path rev content_type : Text) (content : Bytes)
      → Keeps (Leads B s) (on_write B (B.couch.put_attachment path rev content_type content))
  Leads-put_attachment path rev content_type content =
      Keeps-on_write B (uploads path rev content_type content)

  pub Leads-delete_doc :
      (path rev : Text) → Keeps (Leads B s) (on_write B (B.couch.delete_doc path rev))
  Leads-delete_doc path rev = Keeps-on_write B (deletes path rev)

  pub Leads-conflict_copy_path :
      (fuel : ℕ) (path : Text) → Keeps (Leads B s) (conflict_copy_path B fuel path)
  Leads-conflict_copy_path fuel path =
      Keeps-conflict_copy_path B (Leads B s) gets puts uploads fuel path

  pub Leads-write_copies :
      (fuel : ℕ) (path : Text) (copies : List Copy)
      → Keeps (Leads B s) (write_copies B fuel path copies)
  Leads-write_copies = Keeps-write_copies B (Leads B s) gets puts uploads

  pub Leads-write_copy :
      (fuel : ℕ) (path : Text) (copy : Copy) → Keeps (Leads B s) (write_copy B fuel path copy)
  Leads-write_copy = Keeps-write_copy B (Leads B s) gets puts uploads

  pub Leads-write_content :
      (path : Text) (plan : Plan) (content : Option Bytes)
      → Keeps (Leads B s) (write_content B path plan content)
  Leads-write_content = Keeps-write_content B (Leads B s) gets puts uploads

  pub Leads-delete_leaves :
      (path : Text) (revs : List Text) → Keeps (Leads B s) (delete_leaves B path revs)
  Leads-delete_leaves = Keeps-delete_leaves B (Leads B s) gets puts uploads deletes
