-- ===== src/Env.antt =====
-- The configuration from environment variables (crates/common/src/env.rs).
pub mod Defaults
pub mod HubConfig
pub mod DesktopConfig
use sync_stuff_opinionated.Base.{
  ℕ, ◌^◌, not, Bool, Option, none, some, List, [], ◌∷◌, ◌++◌, map, if◌then◌else◌,
}
use sync_stuff_opinionated.Base.Text.{Text, codes, ◌==◌, is_empty}
use sync_stuff_opinionated.Base.Lists.{any, retain}
use sync_stuff_opinionated.Base.Int.{ℤ}
use sync_stuff_opinionated.Base.Split.{split}
use sync_stuff_opinionated.Base.Trim.{trim}
use sync_stuff_opinionated.Base.Decimal.{parse_int}
use sync_stuff_opinionated.Base.Effect.{Result, ok, err, panic, then_ok}

-- The result of `std::env::var`.
pub data Var : Type 0 where
  present : Text → Var
  not_present : Var
  not_unicode : Var

-- `TryFromEnv`, with the text of the error.
pub record TryFromEnv (T : Type 0) : Type 0 where
  pub try_from_env : Text → Result Text T

abbrev pub comma : ℕ
comma = 44

abbrev pub items : Text → List Text
items value = retain (λ item. not (is_empty item)) (map trim (split comma value))

abbrev pub text_env : TryFromEnv Text
text_env = record { try_from_env = λ value. ok value }

-- `debug` writes the value in the message of the error.
abbrev pub i32_env : (Text → Text) → TryFromEnv ℤ
i32_env debug = record {
  try_from_env = λ value. elim (parse_int (2 ^ 31) value) [
    | some n ↦ ok n
    | none ↦ err (codes "must be an integer, got " ++ debug value)
  ];
}

abbrev pub list_env : TryFromEnv (List Text)
list_env = record { try_from_env = λ value. ok (items value) }

-- A set is its membership test.
abbrev pub set_env : TryFromEnv (Text → Bool)
set_env = record {
  try_from_env = λ value.
      then_ok (list_env.try_from_env value) λ texts. ok (λ text. any (λ item. item == text) texts);
}

-- `PathBuf::from` keeps the text.
abbrev pub path_env : TryFromEnv Text
path_env = record { try_from_env = λ value. ok value }

abbrev pub fetched : Text → Var → Result Text Text
fetched key (present value) = ok value
fetched key not_present = ok []
fetched key not_unicode = err (codes "env var " ++ (key ++ codes " isn't unicode!"))

abbrev pub empty_env : Text → Text
empty_env key = codes "env var " ++ (key ++ codes " is empty")

module _ (var : Text → Var) where
  abbrev pub fetch_env : Text → Result Text Text
  fetch_env key = fetched key (var key)

  module _ {T : Type 0} (from : TryFromEnv T) where
    abbrev pub default_or_bail : Text → Option T → Result Text T
    default_or_bail key none = err (empty_env key)
    default_or_bail key (some default) = ok default

    abbrev pub load_value : Text → Option T → Text → Result Text T
    load_value key default value =
        if is_empty (trim value) then default_or_bail key default else from.try_from_env value

    -- `RequiredEnv::load`.
    unfoldable pub load_required : Text → Option T → Result Text T
    load_required key default = then_ok (fetch_env key) (load_value key default)

    abbrev pub load_fetched : Text → Result Text (Option T)
    load_fetched value =
        if is_empty (trim value)
        then ok none
        else then_ok (from.try_from_env value) λ result. ok (some result)

    -- `OptionalEnv::load`.
    unfoldable pub load_optional : Text → Result Text (Option T)
    load_optional key = then_ok (fetch_env key) load_fetched

    abbrev pub default_env : Text → T → Result Text T
    default_env key default = load_required key (some default)

    abbrev pub required_env : Text → Result Text T
    required_env key = load_required key none

    abbrev pub optional_env : Text → Result Text (Option T)
    optional_env key = load_optional key
