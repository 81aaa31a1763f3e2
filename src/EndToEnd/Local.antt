-- ===== src/EndToEnd/Local.antt =====
-- The parts of a push that do not use the network (crates/client-core/src/engine.rs).
use mathlib.Core.Path.{subst}
use sync_stuff_opinionated.Base.{
  ℕ, ◌≡◌, ◌≢◌, refl, sym, ap, ◌∙◌, Bool, true, false, Option, none, some, List, [], ◌∷◌,
  if◌then◌else◌,
}
use sync_stuff_opinionated.Base.Text.{Bytes}
use sync_stuff_opinionated.Base.Effect.{
  Eff, Result, ok, err, panic, panics, pure, ◌>>=◌, map_err, follow, after_bind,
}
use sync_stuff_opinionated.Protocol.{HubError, PushChange, PushResult}
use sync_stuff_opinionated.Store.{StoreError}
use sync_stuff_opinionated.Engine.Types.{
  SyncError, store, hub, FileMeta, PendingChange, PushReport, Platform, World,
}
use sync_stuff_opinionated.Engine.Queue.{
  Action, on_meta, on_files, on_net, load_pending, bump_rev, bump_found, restamp,
}
use sync_stuff_opinionated.Engine.Pull.{Hub}
use sync_stuff_opinionated.Engine.Push.{
  build_upsert, build_push_change, build_push_changes, adopt, adopt_all, clear_if_full, push_to,
}

module _ (P : Platform) where
  -- An action that leaves the network as it is, and does not fail with an error of a hub.
  pub record Local {A : Type 0} (m : Action P A) : Type 0 where
    pub at : (w : World P) → ((m w).1.net ≡ w.net) × ((x : HubError) → (m w).0 ≢ err (hub x))

  pub Local-net :
      {A : Type 0} (m : Action P A) (k : Local m) (w : World P) {r : Result SyncError A}
      {w' : World P}
      → m w ≡ (r, w')
      → w'.net ≡ w.net
  Local-net {A} m k w e =
      ap (λ (out : Result SyncError A × World P). out.1.net) (sym e) ∙ (k.at w).0

  Local-pure : {A : Type 0} (a : A) → Local (pure a)
  unfolding pure
  Local-pure a = record { at = λ w. (refl, λ x e. cc) }

  Local-panics : {A : Type 0} → Local (panics {A = A})
  unfolding panics
  Local-panics = record { at = λ w. (refl, λ x e. cc) }

  Local-bind :
      {A C : Type 0} (m : Action P A) (f : A → Action P C)
      → Local m
      → ((a : A) → Local (f a))
      → Local (m >>= f)
  Local-bind {A} {C} m f km kf = record {
    at = λ w.
        after_bind (λ out. (out.1.net ≡ w.net) × ((x : HubError) → out.0 ≢ err (hub x))) m f w
          (λ a w' e. (((kf a).at w').0 ∙ end w e, ((kf a).at w').1))
          (λ e w' g. (end w g, λ x bad. (km.at w).1 x cc)) (λ w' g. (end w g, λ x bad. cc));
  }
    where
      end : (w : World P) {r : Result SyncError A} {w' : World P} → m w ≡ (r, w') → w'.net ≡ w.net
      end w {r} {w'} e =
          ap (λ (out : Result SyncError A × World P). out.1.net) (sym e) ∙ (km.at w).0

  Local-on_meta : {A : Type 0} (m : Eff P.meta.State StoreError A) → Local (on_meta P m)
  unfolding on_meta
  Local-on_meta {A} m = record { at = λ w. (refl, onward (m w.meta).0) }
    where
      onward : (r : Result StoreError A) (x : HubError) → map_err store r ≢ err (hub x)
      onward (ok a) x e = cc
      onward (err y) x e = cc
      onward panic x e = cc

  Local-on_files : {A : Type 0} (m : Eff P.files.State StoreError A) → Local (on_files P m)
  unfolding on_files
  Local-on_files {A} m = record { at = λ w. (refl, onward (m w.files).0) }
    where
      onward : (r : Result StoreError A) (x : HubError) → map_err store r ≢ err (hub x)
      onward (ok a) x e = cc
      onward (err y) x e = cc
      onward panic x e = cc

  Local-if :
      {A : Type 0} (b : Bool) (m n : Action P A) → Local m → Local n → Local (if b then m else n)
  Local-if true m n k l = k
  Local-if false m n k l = l

  ruleset local_rules =
      (Local-pure, Local-panics, Local-bind, Local-on_meta, Local-on_files, Local-if)

  pub Local-load_pending : Local (load_pending P)
  unfolding load_pending
  Local-load_pending = search local_rules

  Local-build_push_change : (p : PendingChange) → Local (build_push_change P p)
  unfolding build_push_change build_upsert
  Local-build_push_change p = search local_rules

  pub Local-build_push_changes :
      (pending : List PendingChange) → Local (build_push_changes P pending)
  unfolding build_push_changes
  Local-build_push_changes [] = search local_rules
  Local-build_push_changes (p ∷ pending) =
      Local-bind _ _ (Local-build_push_change p)
        (λ c. Local-bind _ _ (Local-build_push_changes pending) (λ cs. Local-pure _))

  Local-adopt : (change : PendingChange) (result : PushResult) → Local (adopt P change result)
  unfolding adopt bump_rev bump_found restamp
  Local-adopt change result =
      Local-if change.deleted _ _ (Local-pure _)
        (Local-bind _ _ (Local-on_meta _) (λ found. Local-found found))
    where
      Local-stamped : (meta : Option FileMeta) → Local (restamp P change.path result.rev meta)
      Local-stamped none = search local_rules
      Local-stamped (some meta) = search local_rules

      Local-found : (found : Option Bytes) → Local (bump_found P change.path result.rev found)
      Local-found none = search local_rules
      Local-found (some bytes) = Local-stamped (P.file_meta.decode bytes)

  Local-adopt_all :
      (pending : List PendingChange) (results : List PushResult) (n : ℕ)
      → Local (adopt_all P pending results n)
  unfolding adopt_all
  Local-adopt_all [] results n = Local-pure _
  Local-adopt_all (change ∷ pending) [] n = Local-pure _
  Local-adopt_all (change ∷ pending) (result ∷ results) n =
      Local-bind _ _ (Local-adopt change result) (λ _. Local-adopt_all pending results _)

  Local-clear_if_full :
      (changes : List PushChange) (results : List PushResult)
      → Local (clear_if_full P changes results)
  unfolding clear_if_full
  Local-clear_if_full changes results = search local_rules

  -- What a hub has answered to a push, from its outcome.
  abbrev pub Answered :
      Hub P → List PushChange → P.Net → Result SyncError PushReport → P.Net → Type 0
  Answered h changes n (ok r) n' =
      (results : List PushResult) × (h.push changes n ≡ (ok results, n'))
  Answered h changes n (err (hub x)) n' = (e : HubError) × (h.push changes n ≡ (err e, n'))
  Answered h changes n (err (store x)) n' = Unit
  Answered h changes n panic n' = Unit

  pub push_to-Answered :
      (pending : List PendingChange) (changes : List PushChange) (h : Hub P) (w w' : World P)
      (r : Result SyncError PushReport)
      → push_to P pending changes h w ≡ (r, w')
      → Answered h changes w.net r w'.net
  unfolding push_to on_net ◌>>=◌
  push_to-Answered pending changes h w w' r e =
      onward (h.push changes w.net).0 (h.push changes w.net).1 refl e
    where
      rest : List PushResult → Action P PushReport
      rest results = adopt_all P pending results 0 >>= λ pushed.
          clear_if_full P changes results >>= λ _. pure (record { hub = h.id; pushed = pushed })

      Local-rest : (results : List PushResult) → Local (rest results)
      Local-rest results =
          Local-bind _ _ (Local-adopt_all pending results 0)
            (λ n. Local-bind _ _ (Local-clear_if_full changes results) (λ _. Local-pure _))

      settled :
          (results : List PushResult) (n : P.Net) (r : Result SyncError PushReport)
          → h.push changes w.net ≡ (ok results, n)
          → rest results (record w { net = n }) ≡ (r, w')
          → Answered h changes w.net r w'.net
      settled results n r sent e =
          let (still, no_hub) = (Local-rest results).at (record w { net = n }) in
          let end : w'.net ≡ n =
            ap (λ (out : Result SyncError PushReport × World P). out.1.net) (sym e) ∙ still in
          by_outcome r end (λ x bad. no_hub x cc)
        where
          by_outcome :
              (r : Result SyncError PushReport)
              → w'.net ≡ n
              → ((x : HubError) → r ≢ err (hub x))
              → Answered h changes w.net r w'.net
          by_outcome (ok report) end no_hub =
              (results, subst (λ m. h.push changes w.net ≡ (ok results, m)) (sym end) sent)
          by_outcome (err (hub x)) end no_hub = elim (no_hub x refl) [ ]
          by_outcome (err (store x)) end no_hub = tt
          by_outcome panic end no_hub = tt

      onward :
          (a : Result HubError (List PushResult)) (n : P.Net)
          → h.push changes w.net ≡ (a, n)
          → follow (map_err hub a) rest (record w { net = n }) ≡ (r, w')
          → Answered h changes w.net r w'.net
      onward (ok results) n sent e = settled results n r sent e
      onward (err x) n sent e =
          subst
            (λ (out : Result SyncError PushReport × World P).
              Answered h changes w.net out.0 out.1.net)
            e (x, sent)
      onward panic n sent e =
          subst
            (λ (out : Result SyncError PushReport × World P).
              Answered h changes w.net out.0 out.1.net)
            e tt
