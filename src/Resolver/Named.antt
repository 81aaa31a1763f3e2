-- ===== src/Resolver/Named.antt =====
-- The names of conflict copies (`conflict_copy_path`, crates/hub-api/src/resolver.rs): the search
-- for a free one ends.
use sync_stuff_opinionated.Base.{
  ℕ, zero, suc, ◌+◌, ◌≡◌, ◌⊎◌, none, some, List, [], ◌∷◌, if◌then◌else◌,
}
use sync_stuff_opinionated.Base.Text.{Text, ◌==◌}
use sync_stuff_opinionated.Base.Effect.{ok}
use sync_stuff_opinionated.Couch.{Backend}
use sync_stuff_opinionated.Resolver.Apply.{candidate}

-- The text is one of those in the list.
abbrev pub Among : Text → List Text → Type 0
Among x [] = ⊥
Among x (y ∷ ys) = (x ≡ y) ⊎ Among x ys

without : Text → List Text → List Text
without x [] = []
without x (y ∷ ys) = if x == y then without x ys else y ∷ without x ys

module _ (B : Backend) (path today : Text) where
  -- The next names, `k` of them, are taken.
  abbrev pub Taken : ℕ → ℕ → B.World → B.World → Type 0
  Taken zero n w w' = w ≡ w'
  Taken (suc k) n w w' =
      (doc : B.json.Value) × (w₁ : B.World) × (B.couch.get_doc (candidate path today n) w
        ≡ (ok (some doc), w₁))
      × Taken k (n + 1) w₁ w'

  -- Every name is free, or taken and in the list; and a read changes nothing.
  abbrev Covered : List Text → ℕ → B.World → Type 0
  Covered names m w =
      (B.couch.get_doc (candidate path today m) w ≡ (ok none, w))
      ⊎ (Among (candidate path today m) names
          × ((doc : B.json.Value) × (B.couch.get_doc (candidate path today m) w
                ≡ (ok (some doc), w))))

-- The documents of the database: there is none under a name that is not in the list, and a read
-- changes nothing.
pub record Documents (B : Backend) (names : List Text) (w : B.World) : Type 0 where
  pub reads :
      (path : Text)
      → (B.couch.get_doc path w ≡ (ok none, w))
        ⊎ (Among path names
            × ((doc : B.json.Value) × (B.couch.get_doc path w ≡ (ok (some doc), w))))
