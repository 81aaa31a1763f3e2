-- ===== src/Desktop/Poll.antt =====
-- The long-poll loop of the desktop client (crates/client-desktop/src/poll.rs), as a step on its
-- state, from the answer to a request. Durations are in seconds.
use sync_stuff_opinionated.Base.{
  ℕ, zero, suc, ◌*◌, ◌^◌, ◌≤◌, ◌≡◌, refl, ap, ◌∙◌, ◌⊎◌, inl, inr, Option, some, List, [], ◌∷◌, ltb,
  if◌then◌else◌, arith,
}
use sync_stuff_opinionated.Base.Text.{Text, is_empty}
use sync_stuff_opinionated.Base.Effect.{Result, ok, err, panic}
use sync_stuff_opinionated.Protocol.{ChangeEntry, ChangesResponse, HubError}

abbrev pub longpoll_timeout : ℕ
longpoll_timeout = 25

pub record PollState : Type 0 where
  pub since : Option Text
  pub backoff : ℕ

-- The state at the start, from the stored checkpoint; one that cannot be read counts as none.
abbrev pub poll_start : Option Text → PollState
poll_start since = record { since = since; backoff = 1 }

abbrev pub min : ℕ → ℕ → ℕ
min a b = if ltb b a then b else a

-- What a step does: it wakes the main loop, it sleeps, or neither.
pub data PollAction : Type 0 where
  wake : PollAction
  idle : PollAction
  sleep : ℕ → PollAction

unfoldable pub poll_step : PollState → Result HubError ChangesResponse → PollState × PollAction
poll_step s (ok resp) = (
  record { since = some resp.checkpoint; backoff = 1 },
  if is_empty resp.changes then idle else wake,
)
poll_step s (err e) = (record s { backoff = min (s.backoff * 2) 30 }, sleep s.backoff)
poll_step s panic = (s, idle)

abbrev pub Answer : Type 0
Answer = Result HubError ChangesResponse

-- The state after the answers, of which the first in the list is the last that came.
unfoldable pub poll_run : Option Text → List Answer → PollState
poll_run stored [] = poll_start stored
poll_run stored (answer ∷ answers) = (poll_step (poll_run stored answers) answer).0

-- How many failures in a row the last answers are.
abbrev pub failures : List Answer → ℕ
failures [] = 0
failures (ok resp ∷ answers) = 0
failures (err e ∷ answers) = suc (failures answers)
failures (panic ∷ answers) = failures answers

-- The seconds between two tries after `k` failures in a row: 1, 2, 4, 8, 16, and 30 from then on.
abbrev pub pause : ℕ → ℕ
pause k = if ltb k 5 then 2 ^ k else 30

pause-suc : (k : ℕ) → min (pause k * 2) 30 ≡ pause (suc k)
pause-suc zero = refl
pause-suc (suc zero) = refl
pause-suc (suc (suc zero)) = refl
pause-suc (suc (suc (suc zero))) = refl
pause-suc (suc (suc (suc (suc zero)))) = refl
pause-suc (suc (suc (suc (suc (suc k))))) = ground arith

pause_bounds : (k : ℕ) → (1 ≤ pause k) × (pause k ≤ 30)
pause_bounds zero = (omega arith, omega arith)
pause_bounds (suc zero) = (omega arith, omega arith)
pause_bounds (suc (suc zero)) = (omega arith, omega arith)
pause_bounds (suc (suc (suc zero))) = (omega arith, omega arith)
pause_bounds (suc (suc (suc (suc zero)))) = (omega arith, omega arith)
pause_bounds (suc (suc (suc (suc (suc k))))) = (ground arith, ground arith)

backoff-poll_run :
    (stored : Option Text) (answers : List Answer)
    → (poll_run stored answers).backoff ≡ pause (failures answers)
unfolding poll_run poll_step
backoff-poll_run stored [] = refl
backoff-poll_run stored (ok resp ∷ answers) = refl
backoff-poll_run stored (err e ∷ answers) =
    ap (λ n. min (n * 2) 30) (backoff-poll_run stored answers) ∙ pause-suc (failures answers)
backoff-poll_run stored (panic ∷ answers) = backoff-poll_run stored answers

-- After any answers, a failed request makes the loop sleep for 1, 2, 4, 8, 16 or 30 seconds, by the
-- number of failures in a row before it, and so never for less than one second or for more than 30;
-- a request that is answered does not make it sleep.
pub poll_step-sleep :
    (stored : Option Text) (answers : List Answer) (e : HubError) (resp : ChangesResponse)
    → ((n : ℕ) × ((poll_step (poll_run stored answers) (err e)).1 ≡ sleep n)
        × (n ≡ pause (failures answers))
        × (1 ≤ n)
        × (n ≤ 30))
      × (((poll_step (poll_run stored answers) (ok resp)).1 ≡ wake)
          ⊎ ((poll_step (poll_run stored answers) (ok resp)).1 ≡ idle))
unfolding poll_step
poll_step-sleep stored answers e resp = (
  (
    pause (failures answers),
    ap sleep (backoff-poll_run stored answers),
    refl,
    (pause_bounds (failures answers)).0,
    (pause_bounds (failures answers)).1,
  ),
  answered resp.changes,
)
  where
    answered :
        (changes : List ChangeEntry)
        → ((if is_empty changes then idle else wake) ≡ wake)
          ⊎ ((if is_empty changes then idle else wake) ≡ idle)
    answered [] = inr refl
    answered (change ∷ changes) = inl refl
