-- ===== src/Base/Decimal.antt =====
-- Numbers in decimal, as `format!` writes them and `str::parse::<u64>` reads them.
use Prim.Native.Nat.{ℕ, zero, suc, ◌+◌, ◌*◌, ◌-◌, ◌/◌, ◌%◌, ◌^◌}
use mathlib.Core.Bool.{Bool, true, false, ◌&&◌}
use mathlib.Core.Option.{Option, none, some}
use mathlib.Core.List.{[], ◌∷◌}
use sync_stuff_opinionated.Base.Tests.{ltb, leb, nat_beq, if◌then◌else◌}
use sync_stuff_opinionated.Base.Text.{Text}
use sync_stuff_opinionated.Base.Int.{ℤ, pos, negsuc}

-- The digits of the number in front of the text; a digit is written on each unit of fuel, and a
-- number has at most as many digits as its value and one more.
abbrev pub digits : ℕ → ℕ → Text → Text
digits zero n text = text
digits (suc fuel) n text = elim (ltb n 10) [
  | true ↦ (48 + n) ∷ text
  | false ↦ digits fuel (n / 10) ((48 + n % 10) ∷ text)
]

unfoldable pub decimal : ℕ → Text
decimal n = digits (suc n) n []

-- `{:02}`.
abbrev pub pad_2 : ℕ → Text
pad_2 n = if ltb n 10 then 48 ∷ decimal n else decimal n

abbrev pub is_digit : ℕ → Bool
is_digit c = leb 48 c && leb c 57

-- The rest of a number, after a value that has been read: it ends at 64 bits.
abbrev pub parse_digits : Text → ℕ → Option ℕ
parse_digits [] n = if ltb n (2 ^ 64) then some n else none
parse_digits (c ∷ text) n =
    let rest = parse_digits text (10 * n + (c - 48)) in if is_digit c then rest else none

-- `str::parse::<u64>`: an optional plus, then digits.
abbrev pub parse_u64 : Text → Option ℕ
parse_u64 [] = none
parse_u64 (c ∷ text) =
    if nat_beq c 43
    then elim text [ [] ↦ none | d ∷ rest ↦ parse_digits (d ∷ rest) 0 ]
    else parse_digits (c ∷ text) 0

abbrev magnitude : Text → Option ℕ
magnitude [] = none
magnitude (c ∷ text) = parse_digits (c ∷ text) 0

abbrev positive_within : ℕ → ℕ → Option ℤ
positive_within limit n = if ltb n limit then some (pos n) else none

abbrev negative_within : ℕ → ℕ → Option ℤ
negative_within limit zero = some (pos 0)
negative_within limit (suc n) = if ltb n limit then some (negsuc n) else none

abbrev bounded : (ℕ → Option ℤ) → Option ℕ → Option ℤ
bounded within none = none
bounded within (some n) = within n

-- `str::parse::<i64>` and `str::parse::<i32>`, by the power of two that bounds the magnitude.
abbrev pub parse_int : ℕ → Text → Option ℤ
parse_int limit [] = none
parse_int limit (c ∷ text) =
    if nat_beq c 45
    then bounded (negative_within limit) (magnitude text)
    else if nat_beq c 43
    then bounded (positive_within limit) (magnitude text)
    else bounded (positive_within limit) (magnitude (c ∷ text))

-- `rev.split('-').next()`.
abbrev pub before : ℕ → Text → Text
before stop [] = []
before stop (c ∷ text) = let rest = before stop text in if nat_beq c stop then [] else c ∷ rest
