-- ===== src/Base/Int.antt =====
-- Signed numbers, for the `i64` modification times. `negsuc n` is -(n + 1).
use Prim.Native.Nat.{ℕ}
use mathlib.Core.Bool.{Bool, true, false}
use sync_stuff_opinionated.Base.Tests.{leb, nat_beq, if◌then◌else◌}

pub data ℤ : Type 0 where
  pos : ℕ → ℤ
  negsuc : ℕ → ℤ

abbrev pub zleb : ℤ → ℤ → Bool
zleb (pos a) (pos b) = leb a b
zleb (pos a) (negsuc b) = false
zleb (negsuc a) (pos b) = true
zleb (negsuc a) (negsuc b) = leb b a

abbrev pub zeqb : ℤ → ℤ → Bool
zeqb (pos a) (pos b) = nat_beq a b
zeqb (negsuc a) (negsuc b) = nat_beq a b
zeqb _ _ = false

abbrev pub zmax : ℤ → ℤ → ℤ
zmax a b = if zleb a b then b else a
