-- ===== src/Resolver/Preserved.antt =====
-- No edit is lost by the plan of a resolution (`plan_resolution`, `plan_edit_vs_edit`,
-- crates/hub-api/src/resolver.rs).
use sync_stuff_opinionated.Base.{
  ◌≡◌, ◌⊎◌, inl, inr, refl, sym, ap, ◌∙◌, Bool, true, false, not, ◌&&◌, Option, none, some, List,
  [], ◌∷◌, map, if◌then◌else◌, nat_beq, arith,
}
use mathlib.Core.Path.{subst}
use sync_stuff_opinionated.Base.Text.{Text, Bytes, ◌==◌, ==_refl}
use sync_stuff_opinionated.Base.Lists.{All, All-map, All-zip, All-retain, length, find, retain}
use sync_stuff_opinionated.Base.Int.{zleb}
use sync_stuff_opinionated.Base.Effect.{Result, ok, err, panic, pure, fail, panics, >>=-eq-ok}
use sync_stuff_opinionated.Couch.{Backend}
use sync_stuff_opinionated.Diff3.{MergeError, merge}
use sync_stuff_opinionated.Resolver.{Leaf, Plan}
use sync_stuff_opinionated.Resolver.Planning.{
  rev_is, alive, losers_of, copy_of, plan_edit_won, plan_kept, plan_newer, plan_merged,
  plan_after_merge, plan_edit_vs_edit, plan_pair, plan_any, plan_keep, plan_for, plan_resolution,
}
use sync_stuff_opinionated.Resolver.Leaves.{
  NodupRevs, In, find-In, In-retain, same_rev, copies_listed,
}

module _ (B : Backend) where
  -- The content of the leaf is one of the two sides of a merge that went through, or it is the
  -- content that the path gets, or it is in a conflict copy with its time and its type.
  abbrev pub MergedIn : Plan → Leaf → Type 0
  MergedIn plan l =
      (base : Bytes) × (mine : Bytes) × (theirs : Bytes) × (content : Bytes) × (merge B base mine
          theirs
        ≡ ok content)
      × (plan.final_content ≡ some content)
      × ((l.content ≡ mine) ⊎ (l.content ≡ theirs))

  abbrev pub Preserved : Plan → Leaf → Type 0
  Preserved plan l =
      MergedIn plan l ⊎ ((plan.final_content ≡ some l.content) ⊎ In (copy_of l) plan.copies)

  abbrev pub Saved : Plan → Leaf → Type 0
  Saved plan l = if l.deleted then Unit else Preserved plan l

  Saved-of : (plan : Plan) (l : Leaf) → Preserved plan l → Saved plan l
  Saved-of plan l h = onward l.deleted
    where
      onward : (gone : Bool) → (if gone then Unit else Preserved plan l)
      onward true = tt
      onward false = h

  Saved-dead : (plan : Plan) (l : Leaf) → not l.deleted ≡ false → Saved plan l
  Saved-dead plan l e = onward l.deleted e
    where
      onward : (gone : Bool) → not gone ≡ false → (if gone then Unit else Preserved plan l)
      onward true e = tt
      onward false e = cc

  plan_newer-Preserved :
      (winner loser : Leaf) (revs : List Text)
      → Preserved (plan_newer winner loser revs) winner
        × Preserved (plan_newer winner loser revs) loser
  plan_newer-Preserved winner loser revs = onward (zleb loser.mtime winner.mtime)
    where
      kept : Bool → Plan
      kept b =
          if b
          then plan_kept winner.rev winner loser revs
          else plan_kept winner.rev loser winner revs

      onward : (b : Bool) → Preserved (kept b) winner × Preserved (kept b) loser
      onward true = (inr (inl refl), inr (inr (inl refl)))
      onward false = (inr (inr (inl refl)), inr (inl refl))

  plan_after_merge-Preserved :
      (base : Bytes) (winner loser : Leaf) (revs : List Text) (r : Result MergeError Bytes)
      (plan : Plan) (w w' : B.World)
      → merge B base winner.content loser.content ≡ r
      → plan_after_merge B winner loser revs r w ≡ (ok plan, w')
      → Preserved plan winner × Preserved plan loser
  unfolding pure panics
  plan_after_merge-Preserved base winner loser revs (ok content) plan w w' e made =
      let same : plan_merged winner loser revs content ≡ plan = cc in
      subst (λ p. Preserved p winner × Preserved p loser) same
        (
          inl (base, winner.content, loser.content, content, e, refl, inl refl),
          inl (base, winner.content, loser.content, content, e, refl, inr refl),
        )
  plan_after_merge-Preserved base winner loser revs (err x) plan w w' e made =
      let same : plan_newer winner loser revs ≡ plan = cc in
      subst (λ p. Preserved p winner × Preserved p loser) same
        (plan_newer-Preserved winner loser revs)
  plan_after_merge-Preserved base winner loser revs panic plan w w' e made = cc

  plan_edit_vs_edit-Preserved :
      (path : Text) (winner loser : Leaf) (revs : List Text) (plan : Plan) (w w' : B.World)
      → plan_edit_vs_edit B path winner loser revs w ≡ (ok plan, w')
      → Preserved plan winner × Preserved plan loser
  unfolding plan_edit_vs_edit
  plan_edit_vs_edit-Preserved path winner loser revs plan w w' e =
      let (base, w₁, _, rest) = >>=-eq-ok _ _ e in
      plan_after_merge-Preserved base winner loser revs (merge B base winner.content loser.content)
        plan w₁ w' refl rest

  -- The other leaf of a pair.
  other_second :
      (a b : Leaf)
      → (b.rev == a.rev) ≡ false
      → find (λ l. not (rev_is a.rev l)) (a ∷ b ∷ []) ≡ some b
  other_second a b differs = ground (arith, differs, ==_refl a.rev)

  other_first :
      (a b : Leaf)
      → (b.rev == a.rev) ≡ false
      → find (λ l. not (rev_is b.rev l)) (a ∷ b ∷ []) ≡ some a
  other_first a b differs = ground (arith, differs)

  plan_pair-Preserved :
      (path : Text) (a b winner : Leaf) (revs : List Text) (plan : Plan) (w w' : B.World)
      → (b.rev == a.rev) ≡ false
      → In winner (a ∷ b ∷ [])
      → plan_pair B path winner (find (λ l. not (rev_is winner.rev l)) (a ∷ b ∷ [])) revs w
        ≡ (ok plan, w')
      → Preserved plan a × Preserved plan b
  plan_pair-Preserved path a b winner revs plan w w' differs (inl same) e =
      let chosen : plan_edit_vs_edit B path a b revs w ≡ (ok plan, w') =
        sym (ap (λ o. plan_pair B path a o revs w) (other_second a b differs))
        ∙ subst
            (λ (v : Leaf).
              plan_pair B path v (find (λ l. not (rev_is v.rev l)) (a ∷ b ∷ [])) revs w
              ≡ (ok plan, w'))
            same e in
      plan_edit_vs_edit-Preserved path a b revs plan w w' chosen
  plan_pair-Preserved path a b winner revs plan w w' differs (inr (inl same)) e =
      let chosen : plan_edit_vs_edit B path b a revs w ≡ (ok plan, w') =
        sym (ap (λ o. plan_pair B path b o revs w) (other_first a b differs))
        ∙ subst
            (λ (v : Leaf).
              plan_pair B path v (find (λ l. not (rev_is v.rev l)) (a ∷ b ∷ [])) revs w
              ≡ (ok plan, w'))
            same e in
      let (second, first) = plan_edit_vs_edit-Preserved path b a revs plan w w' chosen in
      (first, second)
  plan_pair-Preserved path a b winner revs plan w w' differs (inr (inr x)) e = elim x [ ]

  plan_keep-Saved :
      (winner_rev : Text) (keep : Leaf) (leaves : List Leaf) (revs : List Text)
      → NodupRevs leaves
      → In keep leaves
      → All (Saved (plan_keep winner_rev (some keep) leaves revs)) leaves
  plan_keep-Saved winner_rev keep leaves revs u h =
      All-zip joined leaves (same_rev keep leaves u h)
        (All-retain _ _ leaves (copies_listed (retain copied leaves)))
    where
      copied : Leaf → Bool
      copied l = not l.deleted && not (rev_is keep.rev l)

      plan : Plan
      plan = plan_keep winner_rev (some keep) leaves revs

      joined :
          (l : Leaf)
          → ((l.rev == keep.rev) ≡ true → l ≡ keep)
          → (copied l ≡ false) ⊎ In (copy_of l) (map copy_of (retain copied leaves))
          → Saved plan l
      joined l same (inr listed) = Saved-of plan l (inr (inr listed))
      joined l same (inl e) =
          onward l.deleted (l.rev == keep.rev) e
            (λ k. inr (inl (ap (λ (y : Leaf). some y.content) (sym (same k)))))
        where
          onward :
              (gone is_kept : Bool)
              → (not gone && not is_kept) ≡ false
              → (is_kept ≡ true → Preserved plan l)
              → (if gone then Unit else Preserved plan l)
          onward true is_kept e kept = tt
          onward false true e kept = kept refl
          onward false false e kept = cc

  -- With one alive leaf, or with any number of them but two.
  plan_any-Saved :
      (winner_rev : Text) (winner : Leaf) (leaves living : List Leaf) (revs : List Text)
      → NodupRevs leaves
      → In winner leaves
      → alive leaves ≡ living
      → All (Saved (plan_any winner_rev winner leaves living revs)) leaves
  plan_any-Saved winner_rev winner leaves [] revs u h e = onward winner.deleted
    where
      onward :
          (gone : Bool)
          → All
              (Saved (plan_keep winner_rev (if gone then none else some winner) leaves revs))
              leaves
      onward true =
          All-map (λ l. dead l) leaves
            (All-retain (λ l. ⊥) _ leaves (subst (All (λ l. ⊥)) (sym e) tt))
        where
          dead :
              (l : Leaf)
              → (not l.deleted ≡ false) ⊎ ⊥
              → Saved (plan_keep winner_rev none leaves revs) l
          dead l (inl gone) = Saved-dead (plan_keep winner_rev none leaves revs) l gone
          dead l (inr x) = elim x [ ]
      onward false = plan_keep-Saved winner_rev winner leaves revs u h
  plan_any-Saved winner_rev winner leaves (edit ∷ []) revs u h e =
      All-map (λ l. each l) leaves
        (All-retain (Preserved plan) _ leaves
          (subst (All (Preserved plan)) (sym e) (inr (inl refl), tt)))
    where
      plan : Plan
      plan = plan_edit_won winner_rev edit revs

      each : (l : Leaf) → (not l.deleted ≡ false) ⊎ Preserved plan l → Saved plan l
      each l (inl gone) = Saved-dead plan l gone
      each l (inr kept) = Saved-of plan l kept
  plan_any-Saved winner_rev winner leaves (first ∷ second ∷ rest) revs u h e = onward winner.deleted
    where
      in_leaves : In first leaves
      in_leaves = In-retain _ leaves first (subst (In first) (sym e) (inl refl))

      onward :
          (gone : Bool)
          → All
              (Saved (plan_keep winner_rev (if gone then some first else some winner) leaves revs))
              leaves
      onward true = plan_keep-Saved winner_rev first leaves revs u in_leaves
      onward false = plan_keep-Saved winner_rev winner leaves revs u h

  -- Two leaves, both alive.
  alive_pair :
      (leaves : List Leaf)
      → (nat_beq (length (alive leaves)) 2 && nat_beq (length leaves) 2) ≡ true
      → (a : Leaf) × (b : Leaf) × (leaves ≡ a ∷ b ∷ []) × (alive leaves ≡ leaves)
  alive_pair [] e = cc
  alive_pair (a ∷ []) e = ground (arith, e)
  alive_pair (a ∷ b ∷ []) e = (a, b, refl, ground (arith, e))
  alive_pair (a ∷ b ∷ c ∷ rest) e = ground (arith, e)

  plan_two-Saved :
      (path : Text) (a b winner : Leaf) (revs : List Text) (plan : Plan) (w w' : B.World)
      → NodupRevs (a ∷ b ∷ [])
      → In winner (a ∷ b ∷ [])
      → plan_pair B path winner (find (λ l. not (rev_is winner.rev l)) (a ∷ b ∷ [])) revs w
        ≡ (ok plan, w')
      → All (Saved plan) (a ∷ b ∷ [])
  plan_two-Saved path a b winner revs plan w w' (fresh, _) h e =
      let (first, second) =
        plan_pair-Preserved path a b winner revs plan w w' (ground (arith, fresh)) h e in
      (Saved-of plan a first, (Saved-of plan b second, tt))

  plan_pair-Saved :
      (path : Text) (leaves : List Leaf) (winner : Leaf) (revs : List Text) (plan : Plan)
      (w w' : B.World)
      → (nat_beq (length (alive leaves)) 2 && nat_beq (length leaves) 2) ≡ true
      → NodupRevs leaves
      → In winner leaves
      → plan_pair B path winner (find (λ l. not (rev_is winner.rev l)) (alive leaves)) revs w
        ≡ (ok plan, w')
      → All (Saved plan) leaves
  plan_pair-Saved path leaves winner revs plan w w' two u h e =
      let (a, b, same, living) = alive_pair leaves two in
      subst (All (Saved plan)) (sym same) (
        plan_two-Saved path a b winner revs plan w w' (subst NodupRevs same u)
          (subst (In winner) same h)
          (subst
            (λ ls.
              plan_pair B path winner (find (λ l. not (rev_is winner.rev l)) ls) revs w
              ≡ (ok plan, w'))
            (living ∙ same) e))

  plan_for-Saved :
      (path : Text) (leaves : List Leaf) (winner_rev : Text) (found : Option Leaf) (plan : Plan)
      (w w' : B.World)
      → NodupRevs leaves
      → find (rev_is winner_rev) leaves ≡ found
      → plan_for B path leaves winner_rev found w ≡ (ok plan, w')
      → All (Saved plan) leaves
  unfolding plan_for fail pure
  plan_for-Saved path leaves winner_rev none plan w w' u f e = cc
  plan_for-Saved path leaves winner_rev (some winner) plan w w' u f e =
      onward (nat_beq (length (alive leaves)) 2 && nat_beq (length leaves) 2) refl e
    where
      revs : List Text
      revs = losers_of winner_rev leaves

      onward :
          (b : Bool)
          → (nat_beq (length (alive leaves)) 2 && nat_beq (length leaves) 2) ≡ b
          → (if b
                then plan_pair B path winner
                    (find (λ l. not (rev_is winner.rev l)) (alive leaves))
                    revs
                else pure (plan_any winner_rev winner leaves (alive leaves) revs))
              w
            ≡ (ok plan, w')
          → All (Saved plan) leaves
      onward true two e =
          plan_pair-Saved path leaves winner revs plan w w' two u (find-In _ leaves f) e
      onward false other e =
          let made : plan_any winner_rev winner leaves (alive leaves) revs ≡ plan = cc in
          subst (λ p. All (Saved p) leaves) made
            (plan_any-Saved winner_rev winner leaves (alive leaves) revs u (find-In _ leaves f)
              refl)

  -- The plan for the leaves of a document, which have different revisions, loses no edit: the
  -- content of every leaf that is not deleted is a side of a merge that went through and that the
  -- path gets, or it is itself what the path gets, or it is in a conflict copy, with its time and
  -- its content type.
  pub plan_resolution-Saved :
      (path : Text) (leaves : List Leaf) (winner_rev : Text) (plan : Plan) (w w' : B.World)
      → NodupRevs leaves
      → plan_resolution B path leaves winner_rev w ≡ (ok plan, w')
      → All (Saved plan) leaves
  unfolding plan_resolution
  plan_resolution-Saved path leaves winner_rev plan w w' u e =
      plan_for-Saved path leaves winner_rev (find (rev_is winner_rev) leaves) plan w w' u refl e
