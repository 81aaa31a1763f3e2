-- ===== src/Base/Trim.antt =====
-- `str::contains` and `str::trim`, on the UTF-8 bytes of a text.
use Prim.Native.Nat.{ℕ, zero, suc}
use mathlib.Core.Bool.{Bool, ◌||◌}
use mathlib.Core.Option.{Option, none, some}
use mathlib.Core.List.{List, [], ◌∷◌, reverse}
use sync_stuff_opinionated.Base.Text.{Text, starts_with, strip_prefix}
use sync_stuff_opinionated.Base.Lists.{length}

-- `str::contains`.
abbrev pub contains : Text → Text → Bool
contains [] part = starts_with [] part
contains (c ∷ text) part = starts_with (c ∷ text) part || contains text part

-- The UTF-8 bytes of the characters that are white space.
abbrev pub spaces : List Text
spaces =
    (9 ∷ [])
    ∷ (10 ∷ [])
    ∷ (11 ∷ [])
    ∷ (12 ∷ [])
    ∷ (13 ∷ [])
    ∷ (32 ∷ [])
    ∷ (194 ∷ 133 ∷ [])
    ∷ (194 ∷ 160 ∷ [])
    ∷ (225 ∷ 154 ∷ 128 ∷ [])
    ∷ (226 ∷ 128 ∷ 128 ∷ [])
    ∷ (226 ∷ 128 ∷ 129 ∷ [])
    ∷ (226 ∷ 128 ∷ 130 ∷ [])
    ∷ (226 ∷ 128 ∷ 131 ∷ [])
    ∷ (226 ∷ 128 ∷ 132 ∷ [])
    ∷ (226 ∷ 128 ∷ 133 ∷ [])
    ∷ (226 ∷ 128 ∷ 134 ∷ [])
    ∷ (226 ∷ 128 ∷ 135 ∷ [])
    ∷ (226 ∷ 128 ∷ 136 ∷ [])
    ∷ (226 ∷ 128 ∷ 137 ∷ [])
    ∷ (226 ∷ 128 ∷ 138 ∷ [])
    ∷ (226 ∷ 128 ∷ 168 ∷ [])
    ∷ (226 ∷ 128 ∷ 169 ∷ [])
    ∷ (226 ∷ 128 ∷ 175 ∷ [])
    ∷ (226 ∷ 129 ∷ 159 ∷ [])
    ∷ (227 ∷ 128 ∷ 128 ∷ [])
    ∷ []

-- The text after the first of the prefixes that it has.
abbrev pub strip_any : List Text → Text → Option Text
strip_any [] text = none
strip_any (prefix ∷ prefixes) text = elim (strip_prefix text prefix) [
  | some rest ↦ some rest
  | none ↦ strip_any prefixes text
]

-- A prefix is dropped on each unit of fuel; none is empty, so the length is enough.
abbrev pub strip_all : List Text → ℕ → Text → Text
strip_all prefixes zero text = text
strip_all prefixes (suc fuel) text = elim (strip_any prefixes text) [
  | none ↦ text
  | some rest ↦ strip_all prefixes fuel rest
]

abbrev pub reverse_all : List Text → List Text
reverse_all [] = []
reverse_all (text ∷ texts) = reverse text ∷ reverse_all texts

abbrev pub trim_start : Text → Text
trim_start text = strip_all spaces (length text) text

abbrev pub trim_end : Text → Text
trim_end text = reverse (strip_all (reverse_all spaces) (length text) (reverse text))

-- `str::trim`.
unfoldable pub trim : Text → Text
trim text = trim_end (trim_start text)
