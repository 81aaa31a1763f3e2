-- ===== src/Env/Defaults.antt =====
-- The three ways to read a variable agree (crates/common/src/env.rs).
use sync_stuff_opinionated.Base.{◌≡◌, refl, Option, none, some, Bool, true, false, if◌then◌else◌}
use sync_stuff_opinionated.Base.Text.{Text, is_empty}
use sync_stuff_opinionated.Base.Trim.{trim}
use sync_stuff_opinionated.Base.Effect.{Result, ok, err, panic, then_ok}
use sync_stuff_opinionated.Env.{
  Var, TryFromEnv, fetch_env, default_or_bail, load_value, load_fetched, load_required,
  load_optional, required_env, default_env, optional_env, empty_env,
}

module _ (var : Text → Var) {T : Type 0} (from : TryFromEnv T) where
  -- A value that is there, or what stands in for it.
  abbrev pub or_else : Result Text T → Option T → Result Text T
  or_else instead none = instead
  or_else instead (some value) = ok value

  load_value-fetched :
      (key : Text) (default : Option T) (value : Text)
      → load_value var from key default value
        ≡ then_ok (load_fetched var from value) (or_else (default_or_bail var from key default))
  load_value-fetched key default value = onward (is_empty (trim value)) (from.try_from_env value)
    where
      onward :
          (b : Bool) (r : Result Text T)
          → (if b then default_or_bail var from key default else r)
            ≡ then_ok
                (if b then ok none else then_ok r λ result. ok (some result))
                (or_else (default_or_bail var from key default))
      onward true r = refl
      onward false (ok value) = refl
      onward false (err e) = refl
      onward false panic = refl

  load_required-optional :
      (key : Text) (default : Option T)
      → load_required var from key default
        ≡ then_ok (optional_env var from key) (or_else (default_or_bail var from key default))
  unfolding load_required load_optional
  load_required-optional key default = onward (fetch_env var key)
    where
      onward :
          (r : Result Text Text)
          → then_ok r (load_value var from key default)
            ≡ then_ok
                (then_ok r (load_fetched var from))
                (or_else (default_or_bail var from key default))
      onward (ok value) = load_value-fetched key default value
      onward (err e) = refl
      onward panic = refl

  -- A variable with a default is read as the optional one, with the default in the place of no
  -- value, and a required variable is the optional one, with an error in the place of no value.
  pub env_optional :
      (key : Text) (default : T)
      → (default_env var from key default
          ≡ then_ok (optional_env var from key) (or_else (ok default)))
        × (required_env var from key
            ≡ then_ok (optional_env var from key) (or_else (err (empty_env key))))
  env_optional key default =
      (load_required-optional key (some default), load_required-optional key none)
