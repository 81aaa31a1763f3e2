-- ===== src/Resolver/Avoided.antt =====
-- The rounds of a resolution do not mix up their errors (`resolve`, crates/hub-api/src/resolver.rs).
use sync_stuff_opinionated.Base.{
  ℕ, zero, suc, ◌+◌, ◌≢◌, Bool, true, false, Option, none, some, List, [], ◌∷◌, arith,
  if◌then◌else◌,
}
use sync_stuff_opinionated.Base.Text.{Text, Bytes, codes}
use sync_stuff_opinionated.Base.Effect.{
  Eff, Result, ok, err, panic, pure, fail, panics, ◌>>=◌, map_err, after_bind,
}
use sync_stuff_opinionated.Couch.{
  CouchError, transport, api, bad_url, rev_conflict, decode, Backend, Revisions,
}
use sync_stuff_opinionated.Diff3.{MergeError, common_ancestor}
use sync_stuff_opinionated.Resolver.{
  ResolveError, couch, cas_conflict, missing_leaf, Leaf, Copy, Plan, Action, map_couch, on_read,
  on_write, or_default, content_or_default,
}
use sync_stuff_opinionated.Resolver.Planning.{
  plan_after_merge, plan_edit_vs_edit, plan_pair, plan_for, plan_resolution, merge_base,
  ancestor_content,
}
use sync_stuff_opinionated.Resolver.Apply.{
  free_path, unless_taken, conflict_copy_path, write_copy, write_copies, write_content, write_final,
  delete_leaves, apply_plan,
}
use sync_stuff_opinionated.Resolver.Resolve.{
  leaf_content, leaf_from_doc, leaf_from, fetch_leaf, fetch_leaves, leaves_from_docs,
}

-- An action that does not fail with the error `e`.
pub record Avoids (B : Backend) (e : ResolveError) {A : Type 0} (m : Action B A) : Type 0 where
  pub at : (w : B.World) → (m w).0 ≢ err e

module _ (B : Backend) (e : ResolveError) where
  module _ {A : Type 0} where
    Avoids-pure : (a : A) → Avoids B e (pure a)
    unfolding pure
    Avoids-pure a = record { at = λ w h. cc }

    Avoids-panics : Avoids B e (panics {A = A})
    unfolding panics
    Avoids-panics = record { at = λ w h. cc }

  Avoids-bind :
      {A C : Type 0} (m : Action B A) (f : A → Action B C)
      → Avoids B e m
      → ((a : A) → Avoids B e (f a))
      → Avoids B e (m >>= f)
  Avoids-bind {A} {C} m f km kf = record {
    at = λ w.
        after_bind (λ out. out.0 ≢ err e) m f w (λ a w' _. (kf a).at w') (λ x w' h bad. km.at w cc)
          (λ w' _ bad. cc);
  }

  pub Avoids-if :
      {A : Type 0} {m n : Action B A} (b : Bool)
      → Avoids B e m
      → Avoids B e n
      → Avoids B e (if b then m else n)
  Avoids-if true k l = k
  Avoids-if false k l = l

  module _ (reads : (x : CouchError) → couch x ≢ e) where
    pub Avoids-on_read : {A : Type 0} (m : Eff B.World CouchError A) → Avoids B e (on_read B m)
    unfolding on_read
    Avoids-on_read {A} m = record { at = λ w. onward (m w).0 }
      where
        onward : (r : Result CouchError A) → map_err couch r ≢ err e
        onward (ok a) h = cc
        onward (err x) h = reads x (ground (arith, h))
        onward panic h = cc

    Avoids-content_or_default : (path rev : Text) → Avoids B e (content_or_default B path rev)
    unfolding content_or_default
    Avoids-content_or_default path rev = record { at = λ w. onward (m w).0 }
      where
        m : Eff B.World CouchError Bytes
        m = B.couch.get_attachment_at_rev path (codes "content") (some rev)

        onward : (r : Result CouchError Bytes) → or_default B r ≢ err e
        onward (ok a) h = cc
        onward (err x) h = cc
        onward panic h = cc

    module _ (lost : missing_leaf ≢ e) where
      Avoids-missing : {A : Type 0} → Avoids B e (fail {A = A} missing_leaf)
      unfolding fail
      Avoids-missing = record { at = λ w h. lost (ground (arith, h)) }

      ruleset avoids_rules = (
        Avoids-pure, Avoids-panics, Avoids-missing, Avoids-on_read, Avoids-content_or_default,
        Avoids-bind,
      )

      Avoids-merge_base :
          (path : Text) (a b : Option Revisions) → Avoids B e (merge_base B path a b)
      Avoids-merge_base path (some a) (some b) = onward (common_ancestor a.ids b.start b.ids)
        where
          onward : (rev : Option Text) → Avoids B e (ancestor_content B path rev)
          onward none = search avoids_rules
          onward (some rev) = search avoids_rules
      Avoids-merge_base path none b = search avoids_rules
      Avoids-merge_base path (some a) none = search avoids_rules

      Avoids-plan_pair :
          (path : Text) (winner : Leaf) (other : Option Leaf) (revs : List Text)
          → Avoids B e (plan_pair B path winner other revs)
      unfolding plan_edit_vs_edit
      Avoids-plan_pair path winner none revs = search avoids_rules
      Avoids-plan_pair path winner (some other) revs =
          Avoids-bind _ _ (Avoids-merge_base path _ _) (λ base. merged _)
        where
          merged :
              (r : Result MergeError Bytes) → Avoids B e (plan_after_merge B winner other revs r)
          merged (ok content) = Avoids-pure _
          merged (err x) = Avoids-pure _
          merged panic = Avoids-panics

      Avoids-plan_for :
          (path : Text) (leaves : List Leaf) (rev : Text) (winner : Option Leaf)
          → Avoids B e (plan_for B path leaves rev winner)
      unfolding plan_for
      Avoids-plan_for path leaves rev none = search avoids_rules
      Avoids-plan_for path leaves rev (some winner) =
          Avoids-if _ (Avoids-plan_pair path winner _ _) (Avoids-pure _)

      pub Avoids-plan_resolution :
          (path : Text) (leaves : List Leaf) (rev : Text)
          → Avoids B e (plan_resolution B path leaves rev)
      unfolding plan_resolution
      Avoids-plan_resolution path leaves rev = Avoids-plan_for path leaves rev _

      Avoids-leaf_content :
          (path rev : Text) (deleted : Bool) → Avoids B e (leaf_content B path rev deleted)
      unfolding leaf_content
      Avoids-leaf_content path rev true = search avoids_rules
      Avoids-leaf_content path rev false = search avoids_rules

      Avoids-leaf_from_doc :
          (path : Text) (doc : B.json.Value) → Avoids B e (leaf_from_doc B path doc)
      unfolding leaf_from_doc
      Avoids-leaf_from_doc path doc = search (avoids_rules, Avoids-leaf_content)

      Avoids-leaf_from :
          (path : Text) (doc : Option B.json.Value) → Avoids B e (leaf_from B path doc)
      Avoids-leaf_from path none = search avoids_rules
      Avoids-leaf_from path (some doc) = Avoids-leaf_from_doc path doc

      pub Avoids-fetch_leaves :
          (path : Text) (revs : List Text) → Avoids B e (fetch_leaves B path revs)
      unfolding fetch_leaves fetch_leaf
      Avoids-fetch_leaves path [] = search avoids_rules
      Avoids-fetch_leaves path (rev ∷ revs) =
          Avoids-bind _ _ (Avoids-bind _ _ (Avoids-on_read _) (Avoids-leaf_from path))
            (λ l. Avoids-bind _ _ (Avoids-fetch_leaves path revs) (λ ls. Avoids-pure _))

      pub Avoids-leaves_from_docs :
          (path : Text) (docs : List B.json.Value) → Avoids B e (leaves_from_docs B path docs)
      unfolding leaves_from_docs
      Avoids-leaves_from_docs path [] = search avoids_rules
      Avoids-leaves_from_docs path (doc ∷ docs) =
          Avoids-bind _ _ (Avoids-leaf_from_doc path doc)
            (λ l. Avoids-bind _ _ (Avoids-leaves_from_docs path docs) (λ ls. Avoids-pure _))

    module _ (writes : cas_conflict ≢ e) where
      Avoids-on_write : {A : Type 0} (m : Eff B.World CouchError A) → Avoids B e (on_write B m)
      unfolding on_write
      Avoids-on_write {A} m = record { at = λ w. onward (m w).0 }
        where
          onward : (r : Result CouchError A) → map_err map_couch r ≢ err e
          onward (ok a) h = cc
          onward (err (rev_conflict x)) h = writes (ground (arith, h))
          onward (err (transport x)) h = reads (transport x) (ground (arith, h))
          onward (err (api s x)) h = reads (api s x) (ground (arith, h))
          onward (err (bad_url x)) h = reads (bad_url x) (ground (arith, h))
          onward (err (decode x)) h = reads (decode x) (ground (arith, h))
          onward panic h = cc

      ruleset write_rules =
          (Avoids-pure, Avoids-panics, Avoids-on_read, Avoids-on_write, Avoids-bind)

      Avoids-free_path :
          (fuel : ℕ) (path today : Text) (n : ℕ) → Avoids B e (free_path B fuel path today n)
      unfolding free_path
      Avoids-free_path zero path today n = Avoids-panics
      Avoids-free_path (suc fuel) path today n =
          Avoids-bind _ _ (Avoids-on_read _) (onward _ (Avoids-free_path fuel path today (n + 1)))
        where
          onward :
              {others : Action B Text} (name : Text)
              → Avoids B e others
              → (doc : Option B.json.Value) → Avoids B e (unless_taken B name others doc)
          onward name k none = Avoids-pure _
          onward name k (some doc) = k

      Avoids-conflict_copy_path :
          (fuel : ℕ) (path : Text) → Avoids B e (conflict_copy_path B fuel path)
      unfolding conflict_copy_path
      Avoids-conflict_copy_path fuel path = record {
        at = λ w. (Avoids-free_path fuel path _ 0).at w;
      }

      Avoids-write_copies :
          (fuel : ℕ) (path : Text) (copies : List Copy)
          → Avoids B e (write_copies B fuel path copies)
      unfolding write_copies write_copy
      Avoids-write_copies fuel path [] = Avoids-pure _
      Avoids-write_copies fuel path (copy ∷ copies) =
          Avoids-bind _ _ (search (write_rules, Avoids-conflict_copy_path))
            (λ name. Avoids-bind _ _ (Avoids-write_copies fuel path copies) (λ _. Avoids-pure _))

      Avoids-write_content :
          (path : Text) (plan : Plan) (content : Option Bytes)
          → Avoids B e (write_content B path plan content)
      Avoids-write_content path plan none = Avoids-pure _
      Avoids-write_content path plan (some content) = search write_rules

      Avoids-delete_leaves :
          (path : Text) (revs : List Text) → Avoids B e (delete_leaves B path revs)
      unfolding delete_leaves
      Avoids-delete_leaves path [] = Avoids-pure _
      Avoids-delete_leaves path (rev ∷ revs) =
          Avoids-bind _ _ (Avoids-on_write _) (λ _. Avoids-delete_leaves path revs)

      pub Avoids-apply_plan :
          (fuel : ℕ) (path : Text) (plan : Plan) → Avoids B e (apply_plan B fuel path plan)
      unfolding apply_plan write_final
      Avoids-apply_plan fuel path plan =
          Avoids-bind _ _ (Avoids-write_copies fuel path plan.copies) (λ names.
            Avoids-bind _ _ (Avoids-write_content path plan _)
              (λ _. Avoids-bind _ _ (Avoids-delete_leaves path _) (λ _. Avoids-pure _)))
