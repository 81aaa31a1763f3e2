-- ===== src/Desktop/Notifier.antt =====
-- The notifier of the desktop client (crates/client-desktop/src/notifier.rs): the same message is
-- not shown twice within the window. Instants are in nanoseconds; `duration_since` stops at 0.
use sync_stuff_opinionated.Base.{
  ℕ, ◌+◌, ◌-◌, ◌<◌, ◌≡◌, ◌≢◌, ◌≤◌, ◌⊎◌, ◌∙◌, refl, ap, Bool, true, false, ◌&&◌, Option, none, some,
  List, [], ◌∷◌, ltb, if◌then◌else◌, arith,
}
use sync_stuff_opinionated.Base.Text.{Text, ◌==◌, ==_refl}
use sync_stuff_opinionated.Base.Lists.{All}

abbrev pub dedupe_window : ℕ
dedupe_window = 300000000000

-- The message that was shown last, and when.
pub record LogNotifier : Type 0 where
  pub last : Option (Text × ℕ)

abbrev pub new_notifier : LogNotifier
new_notifier = record { last = none }

abbrev pub suppressed : Option (Text × ℕ) → Text → ℕ → Bool
suppressed none message now = false
suppressed (some (prev, at)) message now = prev == message && ltb (now - at) dedupe_window

-- The notifier after an error, and whether the message is shown.
unfoldable pub notify_error : LogNotifier → Text → ℕ → LogNotifier × Bool
notify_error n message now =
    if suppressed n.last message now
    then (n, false)
    else (record { last = some (message, now) }, true)

-- The notifier after errors with the same message.
abbrev pub notify_all : LogNotifier → Text → List ℕ → LogNotifier
notify_all n message [] = n
notify_all n message (now ∷ times) = notify_all (notify_error n message now).0 message times

abbrev shown_at : Text → ℕ → LogNotifier
shown_at message at = record { last = some (message, at) }

within :
    (message : Text) (at now : ℕ)
    → now < at + dedupe_window
    → (notify_error (shown_at message at) message now).0 ≡ shown_at message at
unfolding notify_error
within message at now soon = ground (arith, soon, ==_refl message)

-- What is not shown leaves the instant of the message as it was.
quiet :
    (message : Text) (at : ℕ) (times : List ℕ)
    → All (λ now. now < at + dedupe_window) times
    → notify_all (shown_at message at) message times ≡ shown_at message at
quiet message at [] near = refl
quiet message at (now ∷ times) (soon, near) =
    ap (λ n. notify_all n message times) (within message at now soon) ∙ quiet message at times near

after_shown :
    (n : LogNotifier) (message : Text) (now : ℕ)
    → (notify_error n message now).1 ≡ true
    → (notify_error n message now).0 ≡ shown_at message now
unfolding notify_error
after_shown n message now shown = onward (suppressed n.last message now) shown
  where
    outcome : Bool → LogNotifier × Bool
    outcome b = if b then (n, false) else (shown_at message now, true)

    onward : (b : Bool) → (outcome b).1 ≡ true → (outcome b).0 ≡ shown_at message now
    onward true e = cc
    onward false e = refl

shown_again :
    (message other : Text) (at later : ℕ)
    → (message ≢ other) ⊎ (at + dedupe_window ≤ later)
    → (notify_error (shown_at message at) other later).1 ≡ true
unfolding notify_error
shown_again message other at later due = ground (arith, due)

-- After a message has been shown, and then errors with the same message within the window, however
-- many, an error with another message is shown, and so is any error from the end of the window on:
-- an error that is not shown does not put off the next one.
pub notify_error-due :
    (n : LogNotifier) (message other : Text) (now later : ℕ) (times : List ℕ)
    → (notify_error n message now).1 ≡ true
    → All (λ time. time < now + dedupe_window) times
    → (message ≢ other) ⊎ (now + dedupe_window ≤ later)
    → (notify_error (notify_all (notify_error n message now).0 message times) other later).1 ≡ true
notify_error-due n message other now later times shown near due =
    let kept : notify_all (notify_error n message now).0 message times ≡ shown_at message now =
      ap (λ m. notify_all m message times) (after_shown n message now shown)
      ∙ quiet message now times near in
    ap (λ m. (notify_error m other later).1) kept ∙ shown_again message other now later due
