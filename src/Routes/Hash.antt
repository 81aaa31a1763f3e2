-- ===== src/Routes/Hash.antt =====
-- The hash of a branch revision (`rev_hash`, crates/hub-api/src/routes/push.rs): FNV-1a of 64 bits,
-- in hexadecimal digits.
use Prim.Native.Nat.{bit_xor}
use sync_stuff_opinionated.Base.{
  ℕ, zero, suc, ◌+◌, ◌-◌, ◌*◌, ◌/◌, ◌%◌, ◌^◌, [], ◌∷◌, ltb, if◌then◌else◌,
}
use sync_stuff_opinionated.Base.Text.{Text, Bytes}
use sync_stuff_opinionated.Base.Int.{ℤ, pos, negsuc}

abbrev pub fnv_step : ℕ → ℕ → ℕ
fnv_step h b = (bit_xor h b * 1099511628211) % 2 ^ 64

unfoldable pub fnv : ℕ → Bytes → ℕ
fnv h [] = h
fnv h (b ∷ input) = fnv (fnv_step h b) input

abbrev pub hex_digit : ℕ → ℕ
hex_digit d = if ltb d 10 then 48 + d else 87 + d

-- The last digits of a number in front of a text; a number of 64 bits has 16 of them.
abbrev pub hex_digits : ℕ → ℕ → Text → Text
hex_digits zero h text = text
hex_digits (suc n) h text = hex_digits n (h / 16) (hex_digit (h % 16) ∷ text)

unfoldable pub rev_hash : Bytes → Text
rev_hash input = hex_digits 16 (fnv 14695981039346656037 input) []

abbrev pub bytes_of : ℕ → ℕ → Bytes → Bytes
bytes_of zero h rest = rest
bytes_of (suc n) h rest = bytes_of n (h / 256) (h % 256 ∷ rest)

-- `i64::to_be_bytes`.
abbrev pub be_bytes : ℤ → Bytes
be_bytes (pos n) = bytes_of 8 n []
be_bytes (negsuc n) = bytes_of 8 (2 ^ 64 - 1 - n) []
