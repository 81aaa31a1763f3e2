-- ===== src/Base/Effect.antt =====
-- Fallible methods over a state: `Result<A, E>` beside the state that is left behind, whatever the
-- outcome. `panic` is an `unwrap` that fails; it unwinds through every caller.
use mathlib.Core.Path.{◌≡◌, refl, ap, subst}
use mathlib.Core.Bool.{Bool, true, false}
use native.Mathlib.Omega.{arith}

pub data Result (E A : Type 0) : Type 0 where
  ok : A → Result E A
  err : E → Result E A
  panic : Result E A

abbrev pub Eff : Type 0 → Type 0 → Type 0 → Type 0
Eff W E A = W → Result E A × W

module _ {W E A : Type 0} where
  unfoldable pub pure : A → Eff W E A
  pure a w = (ok a, w)

  unfoldable pub fail : E → Eff W E A
  fail e w = (err e, w)

  unfoldable pub panics : Eff W E A
  panics w = (panic, w)

  -- A result that has no effects.
  unfoldable pub of_result : Result E A → Eff W E A
  of_result r w = (r, w)

-- What follows a result: the rest of the block, or nothing.
abbrev pub follow : {W E A B : Type 0} → Result E A → (A → Eff W E B) → Eff W E B
follow (ok a) f w = f a w
follow (err e) f w = (err e, w)
follow panic f w = (panic, w)

module _ {W E A B : Type 0} where
  infixl 5 ◌>>=◌ ◌>>◌
  -- opening this opens the three actions above too
  unfoldable pub ◌>>=◌ : Eff W E A → (A → Eff W E B) → Eff W E B
  unfolding pure fail panics
  ◌>>=◌ m f w = let (r, w') = m w in follow r f w'

  abbrev pub ◌>>◌ : Eff W E A → Eff W E B → Eff W E B
  m >> n = m >>= λ _. n

-- `map_err`, the `From` conversions of `?`.
abbrev pub map_err : {E F A : Type 0} → (E → F) → Result E A → Result F A
map_err f (ok a) = ok a
map_err f (err e) = err (f e)
map_err f panic = panic

-- An action that keeps a property of the state, whatever its outcome.
pub record Keeps {W E A : Type 0} (P : W → Type 0) (m : Eff W E A) : Type 0 where
  pub at : (w : W) → P w → P (m w).1

module _ {W E A : Type 0} {P : W → Type 0} where
  pub Keeps-pure : (a : A) → Keeps P (pure {E = E} a)
  unfolding pure
  Keeps-pure a = record { at = λ w h. h }

  pub Keeps-fail : (e : E) → Keeps P (fail {A = A} e)
  unfolding fail
  Keeps-fail e = record { at = λ w h. h }

  pub Keeps-panics : Keeps P (panics {W = W} {E = E} {A = A})
  unfolding panics
  Keeps-panics = record { at = λ w h. h }

module _ {W E A B : Type 0} {P : W → Type 0} where
  pub Keeps-bind :
      (m : Eff W E A) (f : A → Eff W E B)
      → Keeps P m
      → ((a : A) → Keeps P (f a))
      → Keeps P (m >>= f)
  unfolding ◌>>=◌
  Keeps-bind m f km kf = record { at = λ w h. onward (m w).0 (m w).1 (km.at w h) }
    where
      onward : (r : Result E A) (w : W) → P w → P (follow r f w).1
      onward (ok a) w h = (kf a).at w h
      onward (err e) w h = h
      onward panic w h = h

  -- The rest of a block may use what the first step returned.
  pub Keeps-bind_at :
      (m : Eff W E A) (f : A → Eff W E B)
      → Keeps P m
      → ((w : W) (a : A) → P w → (m w).0 ≡ ok a → Keeps P (f a))
      → Keeps P (m >>= f)
  unfolding ◌>>=◌
  Keeps-bind_at m f km kf = record { at = λ w h. onward w h (m w).0 (m w).1 refl (km.at w h) }
    where
      onward : (w : W) → P w → (r : Result E A) (w' : W) → (m w).0 ≡ r → P w' → P (follow r f w').1
      onward w g (ok a) w' e h = (kf w a g e).at w' h
      onward w g (err e') w' e h = h
      onward w g panic w' e h = h

pub ruleset keeps_rules = (Keeps-pure, Keeps-fail, Keeps-panics, Keeps-bind)

module _ {W E A B : Type 0} where
  -- A block that succeeds has gone through its steps.
  pub >>=-eq-ok :
      (m : Eff W E A) (f : A → Eff W E B) {w w'' : W} {b : B}
      → (m >>= f) w ≡ (ok b, w'')
      → (a : A) × (w' : W) × (m w ≡ (ok a, w')) × (f a w' ≡ (ok b, w''))
  unfolding ◌>>=◌
  >>=-eq-ok m f {w} {w''} {b} h = onward (m w).0 (m w).1 refl h
    where
      onward :
          (r : Result E A) (w' : W)
          → m w ≡ (r, w')
          → follow r f w' ≡ (ok b, w'')
          → (a : A) × (w' : W) × (m w ≡ (ok a, w')) × (f a w' ≡ (ok b, w''))
      onward (ok a) w' e h = (a, w', e, h)
      onward (err e') w' e h = cc
      onward panic w' e h = cc

  -- The other way round.
  pub >>=-of_ok :
      (m : Eff W E A) (f : A → Eff W E B) {w w' : W} {a : A}
      → m w ≡ (ok a, w')
      → (m >>= f) w ≡ f a w'
  unfolding ◌>>=◌
  >>=-of_ok m f e = ap (λ (out : Result E A × W). follow out.0 f out.1) e

  -- A step without effects in front.
  pub of_result-bind :
      (r : Result E A) (f : A → Eff W E B) (w w' : W) (b : B)
      → (of_result r >>= f) w ≡ (ok b, w')
      → (a : A) × (r ≡ ok a) × (f a w ≡ (ok b, w'))
  unfolding ◌>>=◌ of_result
  of_result-bind (ok a) f w w' b e = (a, refl, e)
  of_result-bind (err x) f w w' b e = cc
  of_result-bind panic f w w' b e = cc

  -- What holds of a block, from what holds after its first step.
  pub after_bind :
      (Q : Result E B × W → Type 0) (m : Eff W E A) (f : A → Eff W E B) (w : W)
      → ((a : A) (w' : W) → m w ≡ (ok a, w') → Q (f a w'))
      → ((e : E) (w' : W) → m w ≡ (err e, w') → Q (err e, w'))
      → ((w' : W) → m w ≡ (panic, w') → Q (panic, w'))
      → Q ((m >>= f) w)
  unfolding ◌>>=◌
  after_bind Q m f w good bad worse = onward (m w).0 (m w).1 refl
    where
      onward : (r : Result E A) (w' : W) → m w ≡ (r, w') → Q (follow r f w')
      onward (ok a) w' e = good a w' e
      onward (err x) w' e = bad x w' e
      onward panic w' e = worse w' e

  -- The same, where the first step keeps a property that settles the failures.
  pub after_keeping :
      {K : W → Type 0} (Q : Result E B × W → Type 0)
      → ((e : E) (w' : W) → K w' → Q (err e, w'))
      → ((w' : W) → K w' → Q (panic, w'))
      → (m : Eff W E A) (f : A → Eff W E B) (w : W) → Keeps K m
      → K w
      → ((a : A) (w' : W) → m w ≡ (ok a, w') → K w' → Q (f a w'))
      → Q ((m >>= f) w)
  after_keeping {K} Q bad worse m f w keeps h good =
      after_bind Q m f w (λ a w' e. good a w' e (kept e)) (λ x w' e. bad x w' (kept e))
        (λ w' e. worse w' (kept e))
    where
      kept : {r : Result E A} {w' : W} → m w ≡ (r, w') → K w'
      kept e = subst K (ap (λ (out : Result E A × W). out.1) e) (keeps.at w h)

pub of_result-ok :
    {W E A : Type 0} (r : Result E A) (w w' : W) (a : A)
    → of_result r w ≡ (ok a, w')
    → (r ≡ ok a) × (w ≡ w')
unfolding of_result
of_result-ok r w w' a e = (cc, cc)

-- The outcome of an action as a value, for a `match` on it.
abbrev pub caught : {W E F A : Type 0} → Eff W E A → Eff W F (Result E A)
caught m w = let (r, w') = m w in (ok r, w')

pub caught-ok :
    {W E F A : Type 0} (m : Eff W E A) (w w' : W) (r : Result E A)
    → caught {F = F} m w ≡ (ok r, w')
    → m w ≡ (r, w')
caught-ok m w w' r e = let same : (m w).0 ≡ r = cc in let end : (m w).1 ≡ w' = cc in cc (same, end)

-- An error is logged, and the block goes on.
abbrev pub logged : {E A : Type 0} → Result E A → Result ⊥ (Unit {0})
logged (ok a) = ok tt
logged (err e) = ok tt
logged panic = panic

unfoldable pub with_log : {W E A : Type 0} → Eff W E A → Eff W ⊥ (Unit {0})
with_log m w = let (r, w') = m w in (logged r, w')

abbrev pub is_ok : {E A : Type 0} → Result E A → Bool
is_ok (ok _) = true
is_ok _ = false

-- `?` in a function that has no effects.
abbrev pub then_ok : {E A B : Type 0} → Result E A → (A → Result E B) → Result E B
then_ok (ok a) f = f a
then_ok (err e) f = err e
then_ok panic f = panic

-- A call whose error is converted.
abbrev pub with_err : {W E F A : Type 0} → (E → F) → Eff W E A → Eff W F A
with_err f m w = let (r, w') = m w in (map_err f r, w')

pub with_err-ok :
    {W E F A : Type 0} (f : E → F) (m : Eff W E A) (w w' : W) (a : A)
    → with_err f m w ≡ (ok a, w')
    → m w ≡ (ok a, w')
with_err-ok f m w w' a e = ground (arith, e)
