-- ===== src/Resolver/Planning.antt =====
-- How a conflict is to be resolved (`plan_resolution`, `plan_edit_vs_edit`,
-- crates/hub-api/src/resolver.rs).
use sync_stuff_opinionated.Base.{
  Bool, not, ◌&&◌, Option, none, some, List, [], ◌∷◌, map, if◌then◌else◌, nat_beq,
}
use sync_stuff_opinionated.Base.Text.{Text, Bytes, codes, ◌==◌}
use sync_stuff_opinionated.Base.Lists.{length, find, retain}
use sync_stuff_opinionated.Base.Int.{pos, zleb, zmax}
use sync_stuff_opinionated.Base.Effect.{Result, ok, err, panic, pure, fail, panics, ◌>>=◌}
use sync_stuff_opinionated.Couch.{Revisions, Backend}
use sync_stuff_opinionated.Diff3.{MergeError, merge, common_ancestor}
use sync_stuff_opinionated.Resolver.{
  missing_leaf, merged, kept_newer, edit_won, kept_winner, Leaf, Copy, Plan, Action,
  content_or_default,
}

abbrev pub rev_is : Text → Leaf → Bool
rev_is rev l = l.rev == rev

abbrev pub alive : List Leaf → List Leaf
alive = retain (λ l. not l.deleted)

-- Every leaf but the winner.
abbrev pub losers_of : Text → List Leaf → List Text
losers_of winner_rev leaves =
    map (λ (l : Leaf). l.rev) (retain (λ l. not (rev_is winner_rev l)) leaves)

abbrev pub copy_of : Leaf → Copy
copy_of l = record { content = l.content; mtime = l.mtime; content_type = l.content_type }

-- The only alive leaf, or the newest one of a deleted document.
abbrev pub plan_edit_won : Text → Leaf → List Text → Plan
plan_edit_won winner_rev edit loser_revs = record {
  kind = edit_won;
  winner_rev = winner_rev;
  final_content = some edit.content;
  final_mtime = edit.mtime;
  final_content_type = edit.content_type;
  copies = [];
  loser_revs = loser_revs;
}

abbrev pub plan_merged : Leaf → Leaf → List Text → Bytes → Plan
plan_merged winner loser loser_revs content = record {
  kind = merged;
  winner_rev = winner.rev;
  final_content = some content;
  final_mtime = zmax winner.mtime loser.mtime;
  final_content_type = winner.content_type;
  copies = [];
  loser_revs = loser_revs;
}

abbrev pub plan_kept : Text → Leaf → Leaf → List Text → Plan
plan_kept winner_rev newer older loser_revs = record {
  kind = kept_newer;
  winner_rev = winner_rev;
  final_content = some newer.content;
  final_mtime = newer.mtime;
  final_content_type = newer.content_type;
  copies = copy_of older ∷ [];
  loser_revs = loser_revs;
}

-- A merge that failed: the newer file is kept, the older one is copied.
abbrev pub plan_newer : Leaf → Leaf → List Text → Plan
plan_newer winner loser loser_revs =
    if zleb loser.mtime winner.mtime
    then plan_kept winner.rev winner loser loser_revs
    else plan_kept winner.rev loser winner loser_revs

-- The winner if it is alive, else the first alive leaf.
abbrev pub kept_leaf : Leaf → List Leaf → Option Leaf
kept_leaf winner [] = if winner.deleted then none else some winner
kept_leaf winner (first ∷ _) = if winner.deleted then some first else some winner

abbrev pub plan_keep : Text → Option Leaf → List Leaf → List Text → Plan
plan_keep winner_rev none leaves loser_revs = record {
  kind = kept_winner;
  winner_rev = winner_rev;
  final_content = none;
  final_mtime = pos 0;
  final_content_type = codes "application/octet-stream";
  copies = map copy_of (retain (λ l. not l.deleted && not (rev_is winner_rev l)) leaves);
  loser_revs = loser_revs;
}
plan_keep winner_rev (some keep) leaves loser_revs = record {
  kind = kept_winner;
  winner_rev = winner_rev;
  final_content = some keep.content;
  final_mtime = keep.mtime;
  final_content_type = keep.content_type;
  copies = map copy_of (retain (λ l. not l.deleted && not (rev_is keep.rev l)) leaves);
  loser_revs = loser_revs;
}

-- One alive leaf, or any other number of them.
abbrev pub plan_any : Text → Leaf → List Leaf → List Leaf → List Text → Plan
plan_any winner_rev winner leaves (edit ∷ []) loser_revs = plan_edit_won winner_rev edit loser_revs
plan_any winner_rev winner leaves non_deleted loser_revs =
    plan_keep winner_rev (kept_leaf winner non_deleted) leaves loser_revs

module _ (B : Backend) where
  -- The content of the common ancestor, or nothing if there is no shared history.
  abbrev pub ancestor_content : Text → Option Text → Action B Bytes
  ancestor_content path none = pure []
  ancestor_content path (some rev) = content_or_default B path rev

  abbrev pub merge_base : Text → Option Revisions → Option Revisions → Action B Bytes
  merge_base path (some a) (some b) = ancestor_content path (common_ancestor a.ids b.start b.ids)
  merge_base path _ _ = pure []

  -- The plan after the attempt to merge; a panic of the merge is not caught.
  abbrev pub plan_after_merge : Leaf → Leaf → List Text → Result MergeError Bytes → Action B Plan
  plan_after_merge winner loser loser_revs (ok content) =
      pure (plan_merged winner loser loser_revs content)
  plan_after_merge winner loser loser_revs (err e) = pure (plan_newer winner loser loser_revs)
  plan_after_merge winner loser loser_revs panic = panics

  unfoldable pub plan_edit_vs_edit : Text → Leaf → Leaf → List Text → Action B Plan
  plan_edit_vs_edit path winner loser loser_revs = do
    base ← merge_base path winner.revisions loser.revisions
    plan_after_merge winner loser loser_revs (merge B base winner.content loser.content)

  -- The `unwrap` of the other leaf of a pair.
  abbrev pub plan_pair : Text → Leaf → Option Leaf → List Text → Action B Plan
  plan_pair path winner none loser_revs = panics
  plan_pair path winner (some other) loser_revs = plan_edit_vs_edit path winner other loser_revs

  unfoldable pub plan_for : Text → List Leaf → Text → Option Leaf → Action B Plan
  plan_for path leaves winner_rev none = fail missing_leaf
  plan_for path leaves winner_rev (some winner) =
      if nat_beq (length (alive leaves)) 2 && nat_beq (length leaves) 2
      then plan_pair path winner (find (λ l. not (rev_is winner.rev l)) (alive leaves))
          (losers_of winner_rev leaves)
      else pure (plan_any winner_rev winner leaves (alive leaves) (losers_of winner_rev leaves))

  unfoldable pub plan_resolution : Text → List Leaf → Text → Action B Plan
  plan_resolution path leaves winner_rev =
      plan_for path leaves winner_rev (find (rev_is winner_rev) leaves)
