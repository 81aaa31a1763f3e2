-- ===== src/Base/Split.antt =====
-- `str::split` at a character, and putting the parts together again.
use mathlib.Core.Path.{◌≡◌, refl, ap, ◌∙◌}
use mathlib.Core.Bool.{Bool, true, false, ◌||◌}
use mathlib.Core.List.{List, [], ◌∷◌, ◌++◌}
use native.Mathlib.Omega.{arith}
use Prim.Native.Nat.{ℕ}
use sync_stuff_opinionated.Base.Tests.{nat_beq, if◌then◌else◌}
use sync_stuff_opinionated.Base.Lists.{All}
use sync_stuff_opinionated.Base.Text.{Text, ◌==◌, ==_refl}

-- A character in front of the first part.
abbrev pub in_front : ℕ → List Text → List Text
in_front c [] = (c ∷ []) ∷ []
in_front c (part ∷ parts) = (c ∷ part) ∷ parts

abbrev pub split : ℕ → Text → List Text
split sep [] = [] ∷ []
split sep (c ∷ text) =
    let parts = split sep text in if nat_beq c sep then [] ∷ parts else in_front c parts

-- `join`.
abbrev pub join : ℕ → List Text → Text
join sep [] = []
join sep (part ∷ []) = part
join sep (part ∷ parts) = part ++ sep ∷ join sep parts

join-in_front : (sep c : ℕ) (parts : List Text) → join sep (in_front c parts) ≡ c ∷ join sep parts
join-in_front sep c [] = refl
join-in_front sep c (part ∷ []) = refl
join-in_front sep c (part ∷ next ∷ parts) = refl

-- A text has at least one part.
abbrev pub more : List Text → Bool
more [] = false
more (_ ∷ _) = true

in_front-more : (c : ℕ) (parts : List Text) → more (in_front c parts) ≡ true
in_front-more c [] = refl
in_front-more c (part ∷ parts) = refl

pub split-more : (sep : ℕ) (text : Text) → more (split sep text) ≡ true
split-more sep [] = refl
split-more sep (c ∷ text) = onward (nat_beq c sep)
  where
    onward :
        (b : Bool) → more (if b then [] ∷ split sep text else in_front c (split sep text)) ≡ true
    onward true = refl
    onward false = in_front-more c (split sep text)

join-empty :
    (sep : ℕ) (parts : List Text) → more parts ≡ true → join sep ([] ∷ parts) ≡ sep ∷ join sep parts
join-empty sep [] h = cc
join-empty sep (part ∷ parts) h = refl

-- The parts of a text, put together, are the text.
pub join-split : (sep : ℕ) (text : Text) → join sep (split sep text) ≡ text
join-split sep [] = refl
join-split sep (c ∷ text) = ground (
  arith,
  join-split sep text,
  join-empty sep (split sep text) (split-more sep text),
  join-in_front sep c (split sep text),
)

-- Whether a character is in a text.
abbrev pub has : ℕ → Text → Bool
has sep [] = false
has sep (c ∷ text) = nat_beq c sep || has sep text

-- A part ends at the separator.
split-append :
    (sep : ℕ) (part text : Text)
    → has sep part ≡ false
    → split sep (part ++ sep ∷ text) ≡ part ∷ split sep text
split-append sep [] text h = ground arith
split-append sep (c ∷ part) text h = ground (arith, split-append sep part text)

split-free : (sep : ℕ) (part : Text) → has sep part ≡ false → split sep part ≡ part ∷ []
split-free sep [] h = refl
split-free sep (c ∷ part) h = ground (arith, split-free sep part)

-- Parts without the separator, put together, are split again.
pub split-join :
    (sep : ℕ) (parts : List Text)
    → more parts ≡ true
    → All (λ part. has sep part ≡ false) parts
    → split sep (join sep parts) ≡ parts
split-join sep [] h all = cc
split-join sep (part ∷ []) h (free, all) = split-free sep part free
split-join sep (part ∷ next ∷ parts) h (free, all) =
    split-append sep part (join sep (next ∷ parts)) free
    ∙ ap (λ rest. part ∷ rest) (split-join sep (next ∷ parts) refl all)

-- `str::ends_with`.
abbrev pub ends_with : Text → Text → Bool
ends_with [] suffix = suffix == []
ends_with (c ∷ text) suffix = ((c ∷ text) == suffix) || ends_with text suffix

pub ends_with_refl : (text : Text) → ends_with text text ≡ true
ends_with_refl [] = ==_refl []
ends_with_refl (c ∷ text) = ground (arith, ==_refl (c ∷ text))

-- What ends with a suffix still does with a text in front.
pub ends_with-append :
    (front text suffix : Text)
    → ends_with text suffix ≡ true
    → ends_with (front ++ text) suffix ≡ true
ends_with-append [] text suffix h = h
ends_with-append (c ∷ front) text suffix h = ground (arith, ends_with-append front text suffix h)
