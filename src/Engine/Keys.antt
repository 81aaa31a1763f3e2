-- ===== src/Engine/Keys.antt =====
-- The key convention of the engine: the queue, the checkpoints and the file metadata share one
-- store, under keys that never meet.
use sync_stuff_opinionated.Base.{ℕ, ◌≡◌, ◌≢◌, ap, [], ◌∷◌, arith}
use sync_stuff_opinionated.Base.Text.{Text}
use sync_stuff_opinionated.Engine.Types.{key_pending, file_key, checkpoint_key}

abbrev first : Text → ℕ
first [] = 0
first (c ∷ _) = c

pub file_key-ne-key_pending : (path : Text) → file_key path ≢ key_pending
unfolding file_key
file_key-ne-key_pending path e = absurd (omega (arith, ap first e))

pub checkpoint_key-ne-key_pending : (id : Text) → checkpoint_key id ≢ key_pending
unfolding checkpoint_key
checkpoint_key-ne-key_pending id e = absurd (omega (arith, ap first e))

pub file_key-ne-checkpoint_key : (path id : Text) → file_key path ≢ checkpoint_key id
unfolding file_key checkpoint_key
file_key-ne-checkpoint_key path id e = absurd (omega (arith, ap first e))

pub file_key_injective : (p q : Text) → file_key p ≡ file_key q → p ≡ q
unfolding file_key
file_key_injective p q e = cc

pub checkpoint_key_injective : (p q : Text) → checkpoint_key p ≡ checkpoint_key q → p ≡ q
unfolding checkpoint_key
checkpoint_key_injective p q e = cc
