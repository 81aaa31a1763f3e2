-- ===== src/Watcher/Health.antt =====
-- The health check of the replications between the hubs (crates/hub-api/src/watcher.rs): each round
-- reads the jobs, and sends a message for each one that has failed or stands still.
use sync_stuff_opinionated.Base.{
  ℕ, ◌-◌, ◌/◌, ◌^◌, leb, ltb, Bool, false, not, Option, none, some, List, [], ◌∷◌, ◌++◌,
  if◌then◌else◌,
}
use sync_stuff_opinionated.Base.Text.{Text, codes, is_empty}
use sync_stuff_opinionated.Base.Int.{ℤ, pos, negsuc, zleb}
use sync_stuff_opinionated.Base.Trim.{trim}
use sync_stuff_opinionated.Base.Effect.{Eff, Result, ok, err, panic, pure, with_log, ◌>>◌}
use sync_stuff_opinionated.Http.{Web}
use sync_stuff_opinionated.Couch.{CouchError, Json}
use sync_stuff_opinionated.Couch.Client.{SchedulerJob, Wire, Connection, replication_jobs}
use sync_stuff_opinionated.Notify.{DiscordClient, send}

-- `(staleness_secs / 2).max(10)`, in seconds.
abbrev pub check_interval : ℕ → ℕ
check_interval staleness_secs = if leb (staleness_secs / 2) 10 then 10 else staleness_secs / 2

-- `as i64` of a `u64`.
abbrev pub as_i64 : ℕ → ℤ
as_i64 n = if ltb n (2 ^ 63) then pos n else negsuc (2 ^ 64 - 1 - n)

-- `elapsed` is the time since a timestamp of RFC 3339 in whole seconds, if it is one.
module _ (elapsed : Text → Option ℤ) where
  abbrev pub older_than : ℕ → Option ℤ → Bool
  older_than threshold_secs none = false
  older_than threshold_secs (some seconds) = not (zleb seconds (as_i64 threshold_secs))

  unfoldable pub last_updated_stale : Text → ℕ → Bool
  last_updated_stale last_updated threshold_secs = older_than threshold_secs (elapsed last_updated)

  abbrev pub stale_at : ℕ → Option Text → Bool
  stale_at threshold_secs none = false
  stale_at threshold_secs (some last_updated) = last_updated_stale last_updated threshold_secs

  abbrev pub has_error : Option Text → Bool
  has_error none = false
  has_error (some error) = not (is_empty (trim error))

  unfoldable pub describe_problem : SchedulerJob → ℕ → Option Text
  describe_problem job staleness_secs =
      if has_error job.info.error
      then some (codes "errored")
      else if stale_at staleness_secs job.info.last_updated
      then some (codes "is stale")
      else none

-- The message about a job.
abbrev pub message_of : SchedulerJob → Text → Text
message_of job problem =
    codes "replication `"
    ++ (job.id
        ++ (codes "` "
            ++ (problem ++ (codes ": " ++ (job.source ++ (codes " -> " ++ job.target))))))

module _ (web : Web) (J : Json) (wire : Wire J.Value) (c : Connection web.Url)
    (discord : DiscordClient) (elapsed : web.World → Text → Option ℤ) (staleness_secs : ℕ) where
  abbrev pub Round : Type 0
  Round = Eff web.World ⊥ (Unit {0})

  abbrev pub alert : SchedulerJob → Option Text → Round
  alert job none = pure tt
  alert job (some problem) = with_log (send web J discord (message_of job problem))

  -- The clock is read at each job.
  unfoldable pub check_job : SchedulerJob → Round
  check_job job w = alert job (describe_problem (elapsed w) job staleness_secs) w

  unfoldable pub check_jobs : List SchedulerJob → Round
  check_jobs [] = pure tt
  check_jobs (job ∷ jobs) = do check_job job; check_jobs jobs

  abbrev pub after_jobs : Result CouchError (List SchedulerJob) → Round
  after_jobs (ok jobs) w = check_jobs jobs w
  after_jobs (err e) w = (ok tt, w)
  after_jobs panic w = (panic, w)

  -- A round of the loop of `replication_health_checker`.
  unfoldable pub health_round : Round
  health_round w = let (r, w') = replication_jobs web J wire c w in after_jobs r w'
