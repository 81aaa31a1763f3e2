-- ===== src/Watcher/Reported.antt =====
-- The health check reports every problem, also after an alert that failed
-- (crates/hub-api/src/watcher.rs).
use sync_stuff_opinionated.Base.{ℕ, ◌≡◌, ◌≢◌, refl, ap, ◌∙◌, Option, none, some, List, [], ◌∷◌}
use sync_stuff_opinionated.Base.Text.{Text}
use sync_stuff_opinionated.Base.Int.{ℤ}
use sync_stuff_opinionated.Base.Lists.{filter_map}
use sync_stuff_opinionated.Base.Effect.{
  Eff, Result, ok, err, panic, pure, logged, with_log, ◌>>=◌, >>=-of_ok,
}
use sync_stuff_opinionated.Http.{Web}
use sync_stuff_opinionated.Couch.{Json}
use sync_stuff_opinionated.Couch.Client.{SchedulerJob, Wire, Connection}
use sync_stuff_opinionated.Notify.{NotifyError, DiscordClient, send}
use sync_stuff_opinionated.Watcher.Health.{
  describe_problem, message_of, alert, check_job, check_jobs,
}

module _ (web : Web) (J : Json) (wire : Wire J.Value) (c : Connection web.Url)
    (discord : DiscordClient) (elapsed : Text → Option ℤ) (staleness_secs : ℕ) where
  abbrev message_for : SchedulerJob → Option Text → Option Text
  message_for job none = none
  message_for job (some problem) = some (message_of job problem)

  -- The messages about the jobs that have a problem.
  abbrev pub messages : List SchedulerJob → List Text
  messages jobs =
      filter_map (λ job. message_for job (describe_problem elapsed job staleness_secs)) jobs

  -- The network after the messages were sent, one after the other.
  abbrev pub after_sends : List Text → web.World → web.World
  after_sends [] w = w
  after_sends (message ∷ rest) w = after_sends rest (send web J discord message w).1

  logged-ok : (r : Result NotifyError (Unit {0})) → r ≢ panic → logged r ≡ ok tt
  logged-ok (ok _) calm = refl
  logged-ok (err e) calm = refl
  logged-ok panic calm = absurd (calm refl)

  -- Provided that the sending of a message returns, and the clock stands still, a round sends the
  -- messages about all jobs with a problem, in order and whether or not an alert before them
  -- failed, and nothing else.
  pub check_jobs-Reported :
      ((message : Text) (w : web.World) → (send web J discord message w).0 ≢ panic)
      → (jobs : List SchedulerJob) (w : web.World)
      → check_jobs web J wire c discord (λ _. elapsed) staleness_secs jobs w
        ≡ (ok tt, after_sends (messages jobs) w)
  unfolding check_jobs check_job with_log pure
  check_jobs-Reported calm [] w = refl
  check_jobs-Reported calm (job ∷ jobs) w =
      onward (describe_problem elapsed job staleness_secs) (check_jobs-Reported calm jobs)
    where
      step : Option Text → Eff web.World ⊥ (Unit {0})
      step problem = alert web J wire c discord (λ _. elapsed) staleness_secs job problem

      rest : Eff web.World ⊥ (Unit {0})
      rest = check_jobs web J wire c discord (λ _. elapsed) staleness_secs jobs

      onward :
          (problem : Option Text)
          → ((v : web.World) → rest v ≡ (ok tt, after_sends (messages jobs) v))
          → (step problem >>= λ _. rest) w ≡ (
            ok tt,
            after_sends
                (elim (message_for job problem) as (λ _. List Text) [
                  | none ↦ messages jobs
                  | some message ↦ message ∷ messages jobs
                ])
                w,
          )
      onward none others = >>=-of_ok (step none) (λ _. rest) refl ∙ others w
      onward (some problem) others =
          let message = message_of job problem in
          let after = (send web J discord message w).1 in
          >>=-of_ok (step (some problem)) (λ _. rest)
            (ap (λ (r : Result ⊥ (Unit {0})). (r, after))
              (logged-ok (send web J discord message w).0 (calm message w)))
          ∙ others after
