-- ===== src/Tests/DesktopRuns.antt =====
-- Runs of the desktop client, and its theorems at concrete inputs.
use sync_stuff_opinionated.Base.{ℕ, ◌≤◌, ◌≡◌, ◌⊎◌, refl, true, none, [], ◌∷◌, arith, inr}
use sync_stuff_opinionated.Base.Text.{codes, text_dec}
use sync_stuff_opinionated.Base.Effect.{ok, err}
use sync_stuff_opinionated.Protocol.{HubError, ChangesResponse}
use sync_stuff_opinionated.Desktop.Notifier.{
  new_notifier, notify_error, notify_all, notify_error-due,
}
use sync_stuff_opinionated.Desktop.Poll.{poll_run, poll_step, sleep, wake, idle, poll_step-sleep}

notify_error-due_example :
    (notify_error
      (notify_all (notify_error new_notifier (codes "down") 5).0 (codes "down") (7 ∷ 9 ∷ []))
      (codes "down")
      300000000005).1
    ≡ true
unfolding notify_error text_dec
notify_error-due_example =
    notify_error-due new_notifier (codes "down") (codes "down") 5 300000000005 (7 ∷ 9 ∷ []) refl
      (omega arith, (omega arith, tt)) (inr (omega arith))

abbrev quiet_hub : ChangesResponse
quiet_hub = record { changes = []; checkpoint = codes "7" }

-- The third failure in a row.
poll_step-sleep_example :
    let s = poll_run none (err HubError.url_build ∷ err HubError.url_build ∷ ok quiet_hub ∷ []) in
    ((n : ℕ) × ((poll_step s (err HubError.url_build)).1 ≡ sleep n) × (n ≡ 4) × (1 ≤ n) × (n ≤ 30))
    × (((poll_step s (ok quiet_hub)).1 ≡ wake) ⊎ ((poll_step s (ok quiet_hub)).1 ≡ idle))
poll_step-sleep_example =
    poll_step-sleep none (err HubError.url_build ∷ err HubError.url_build ∷ ok quiet_hub ∷ [])
      HubError.url_build quiet_hub
