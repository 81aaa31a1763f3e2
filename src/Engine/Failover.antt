-- ===== src/Engine/Failover.antt =====
-- Failover over the ordered hubs (`pull` and `push`, crates/client-core/src/engine.rs).
use mathlib.Core.Path.{ap₂}
use mathlib.Core.List.{append-nil}
use sync_stuff_opinionated.Base.{
  ◌≡◌, refl, Bool, true, false, sym, ap, ◌∙◌, Option, none, some, List, [], ◌∷◌, ◌++◌,
}
use sync_stuff_opinionated.Base.Effect.{Result, ok, err, panic}
use sync_stuff_opinionated.Protocol.{HubError}
use sync_stuff_opinionated.Engine.Types.{
  SyncError, store, hub, PullReport, Platform, World, SyncEngine,
}
use sync_stuff_opinionated.Engine.Queue.{Action, unwrap_or}
use sync_stuff_opinionated.Engine.Push.{reported}
use sync_stuff_opinionated.Engine.Pull.{
  Hub, after_attempt, try_hubs, notify, pull_from, pull, no_hubs,
}

module _ (P : Platform) {A : Type 0} (attempt : Hub P → Action P A) where
  -- Every hub of the list, tried in turn, fails with a hub error: from `w` and the last error so
  -- far to `w'` and the last error then.
  abbrev pub Down : List (Hub P) → Option SyncError → World P → Option SyncError → World P → Type 0
  Down [] last w last' w' = (last ≡ last') × (w ≡ w')
  Down (h ∷ hubs) last w last' w' =
      (e : HubError) × (w₁ : World P) × (attempt h w ≡ (err (hub e), w₁))
      × Down hubs (some (hub e)) w₁ last' w'

  -- Hubs that are down are passed over.
  pub try_hubs-append :
      (engine : SyncEngine P) (before after : List (Hub P)) (last last' : Option SyncError)
      (w w' : World P)
      → Down before last w last' w'
      → try_hubs P engine attempt (before ++ after) last w
        ≡ try_hubs P engine attempt after last' w'
  unfolding try_hubs
  try_hubs-append engine [] after last last' w w' (e, f) =
      ap₂ (λ l v. try_hubs P engine attempt after l v) e f
  try_hubs-append engine (h ∷ before) after last last' w w' (e, w₁, fails, down) =
      rw fails (try_hubs-append engine before after (some (hub e)) last' w₁ w' down)

  try_hubs-answer :
      (engine : SyncEngine P) (h : Hub P) (after : List (Hub P)) (last : Option SyncError)
      (w w' : World P) (r : Result SyncError A)
      → attempt h w ≡ (r, w')
      → try_hubs P engine attempt (h ∷ after) last w
        ≡ after_attempt P engine r (try_hubs P engine attempt after) w'
  unfolding try_hubs
  try_hubs-answer engine h after last w w' r e = rw e

-- A failed request to a hub, after which the next hub is tried.
abbrev pub is_hub_error : {A : Type 0} → Result SyncError A → Bool
is_hub_error (err (hub e)) = true
is_hub_error _ = false

-- The engine that tries the given hubs in turn.
abbrev pub engine_of :
    (P : Platform) → Option (SyncError → P.Ui → P.Ui) → List (Hub P) → SyncEngine P
engine_of P notifier hubs = record { hubs = hubs; notifier = notifier }

module _ (P : Platform) (notifier : Option (SyncError → P.Ui → P.Ui)) where
  after_attempt-ended :
      (engine : SyncEngine P) (r : Result SyncError PullReport)
      (others : Option SyncError → Action P PullReport) (w : World P)
      → is_hub_error r ≡ false
      → after_attempt P engine r others w ≡ reported P engine r w
  after_attempt-ended engine (ok report) others w e = refl
  after_attempt-ended engine (err (store x)) others w e = refl
  after_attempt-ended engine (err (hub x)) others w e = cc
  after_attempt-ended engine panic others w e = refl

  -- With the first hubs down, a pull has the outcome of the next hub, unless that is down, too: its
  -- report is returned, a store error is reported at once, and no other hub is asked.
  pub pull_failover :
      (before after : List (Hub P)) (h : Hub P) (last : Option SyncError) (w w₁ w₂ : World P)
      (r : Result SyncError PullReport)
      → Down P (pull_from P) before none w last w₁
      → pull_from P h w₁ ≡ (r, w₂)
      → is_hub_error r ≡ false
      → let engine = engine_of P notifier (before ++ h ∷ after) in
        pull P engine w ≡ reported P engine r w₂
  unfolding pull
  pull_failover before after h last w w₁ w₂ r down answer ended =
      let engine = engine_of P notifier (before ++ h ∷ after) in
      try_hubs-append P (pull_from P) engine before (h ∷ after) none last w w₁ down
      ∙ try_hubs-answer P (pull_from P) engine h after last w₁ w₂ r answer
      ∙ after_attempt-ended engine r _ w₂ ended

  -- With every hub down, a pull reports the error of the last hub tried, or that there is no hub.
  pub pull_all-Down :
      (hubs : List (Hub P)) (last : Option SyncError) (w w₁ : World P)
      → Down P (pull_from P) hubs none w last w₁
      → let engine = engine_of P notifier hubs in
        pull P engine w ≡ notify P engine (unwrap_or last no_hubs) w₁
  unfolding pull try_hubs
  pull_all-Down hubs last w w₁ down =
      ap (λ l. try_hubs P (engine_of P notifier hubs) (pull_from P) l none w)
        (sym (append-nil hubs))
      ∙ try_hubs-append P (pull_from P) (engine_of P notifier hubs) hubs [] none last w w₁ down
