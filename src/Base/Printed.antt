-- ===== src/Base/Printed.antt =====
-- Different numbers are written differently in decimal.
use Prim.Native.Nat.{ℕ, zero, suc, ◌+◌, ◌*◌, ◌-◌, ◌/◌, ◌%◌, ◌<◌}
use mathlib.Core.Path.{◌≡◌, refl, sym, ap, ◌∙◌}
use mathlib.Core.Bool.{Bool, true, false}
use mathlib.Core.List.{[], ◌∷◌}
use native.Mathlib.Omega.{arith}
use sync_stuff_opinionated.Base.Tests.{ltb}
use sync_stuff_opinionated.Base.Text.{Text}
use sync_stuff_opinionated.Base.Decimal.{digits, decimal}

-- The number that digits stand for, after a number that has been read.
read_digits : ℕ → Text → ℕ
read_digits n [] = n
read_digits n (c ∷ text) = read_digits (10 * n + (c - 48)) text

read_digits-digits :
    (fuel n : ℕ) (text : Text) → n < fuel → read_digits 0 (digits fuel n text) ≡ read_digits n text
unfolding read_digits
read_digits-digits zero n text enough = elim enough [ ]
read_digits-digits (suc fuel) n text enough =
    onward (ltb n 10) refl (read_digits-digits fuel (n / 10) ((48 + n % 10) ∷ text))
  where
    onward :
        (small : Bool)
        → ltb n 10 ≡ small
        → (n / 10 < fuel
            → read_digits 0 (digits fuel (n / 10) ((48 + n % 10) ∷ text))
              ≡ read_digits (n / 10) ((48 + n % 10) ∷ text))
        → read_digits 0 (elim small [
          | true ↦ (48 + n) ∷ text
          | false ↦ digits fuel (n / 10) ((48 + n % 10) ∷ text)
        ])
          ≡ read_digits n text
    onward true small rest = ap (λ m. read_digits m text) (omega arith)
    onward false large rest =
        let last : 10 * (n / 10) + (48 + n % 10 - 48) ≡ n = omega arith in
        rest (ground (arith, large, enough)) ∙ ap (λ m. read_digits m text) last

pub decimal_injective : (m n : ℕ) → decimal m ≡ decimal n → m ≡ n
unfolding read_digits decimal
decimal_injective m n same =
    sym (read_digits-digits (suc m) m [] (omega arith))
    ∙ ap (read_digits 0) same
    ∙ read_digits-digits (suc n) n [] (omega arith)
