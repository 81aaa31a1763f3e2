-- ===== src/Resolver/Leaves.antt =====
-- Leaves of a document and their revisions (crates/hub-api/src/resolver.rs): CouchDB gives each leaf
-- a revision of its own.
use sync_stuff_opinionated.Base.{
  ◌≡◌, ◌⊎◌, inl, inr, refl, sym, ap, Bool, true, false, some, List, [], ◌∷◌, map, if◌then◌else◌,
  arith,
}
use sync_stuff_opinionated.Base.Text.{Text, ◌==◌}
use sync_stuff_opinionated.Base.Lists.{All, All-map, any, find, retain}
use sync_stuff_opinionated.Resolver.{Leaf}
use sync_stuff_opinionated.Resolver.Planning.{rev_is, copy_of}

abbrev pub NodupRevs : List Leaf → Type 0
NodupRevs [] = Unit
NodupRevs (l ∷ leaves) = (any (rev_is l.rev) leaves ≡ false) × NodupRevs leaves

abbrev pub In : {A : Type 0} → A → List A → Type 0
In a [] = ⊥
In a (x ∷ xs) = (a ≡ x) ⊎ In a xs

pub find-In :
    (p : Leaf → Bool) (leaves : List Leaf) {l : Leaf} → find p leaves ≡ some l → In l leaves
find-In p [] e = cc
find-In p (x ∷ leaves) {l} e = onward (p x) e (find-In p leaves)
  where
    onward :
        (b : Bool)
        → (if b then some x else find p leaves) ≡ some l
        → (find p leaves ≡ some l → In l leaves)
        → In l (x ∷ leaves)
    onward true e tail = inl cc
    onward false e tail = inr (tail e)

pub In-retain :
    (p : Leaf → Bool) (leaves : List Leaf) (l : Leaf) → In l (retain p leaves) → In l leaves
In-retain p [] l h = h
In-retain p (x ∷ leaves) l h = onward (p x) h (In-retain p leaves l)
  where
    onward :
        (b : Bool)
        → In l (if b then x ∷ retain p leaves else retain p leaves)
        → (In l (retain p leaves) → In l leaves)
        → In l (x ∷ leaves)
    onward true (inl e) tail = inl e
    onward true (inr h) tail = inr (tail h)
    onward false h tail = inr (tail h)

-- A revision that no leaf has.
missing :
    (rev : Text) (leaves : List Leaf)
    → any (rev_is rev) leaves ≡ false
    → All (λ l. (l.rev == rev) ≡ false) leaves
missing rev [] none_has = tt
missing rev (x ∷ leaves) none_has =
    (ground (arith, none_has), missing rev leaves (ground (arith, none_has)))

found : (l : Leaf) (leaves : List Leaf) → In l leaves → any (rev_is l.rev) leaves ≡ true
found l (x ∷ leaves) (inl e) = ground (arith, ap (λ (y : Leaf). y.rev) e)
found l (x ∷ leaves) (inr h) = ground (arith, found l leaves h)
found l [] h = elim h [ ]

-- A leaf is known by its revision.
pub same_rev :
    (keep : Leaf) (leaves : List Leaf)
    → NodupRevs leaves
    → In keep leaves
    → All (λ l. (l.rev == keep.rev) ≡ true → l ≡ keep) leaves
same_rev keep [] u h = tt
same_rev keep (x ∷ leaves) (fresh, u) (inl e) = (
  λ _. sym e,
  All-map (λ l away same. ground (arith, away, same, ap (λ (y : Leaf). y.rev) e)) leaves
      (missing x.rev leaves fresh),
)
same_rev keep (x ∷ leaves) (fresh, u) (inr h) =
    (λ same. ground (arith, same, fresh, found keep leaves h), same_rev keep leaves u h)

pub copies_listed : (leaves : List Leaf) → All (λ l. In (copy_of l) (map copy_of leaves)) leaves
copies_listed [] = tt
copies_listed (x ∷ leaves) = (inl refl, All-map (λ l h. inr h) leaves (copies_listed leaves))
