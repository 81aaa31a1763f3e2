-- ===== src/Resolver.antt =====
-- The data of the conflict resolver (crates/hub-api/src/resolver.rs), and the calls of the database
-- that it makes.
pub mod Planning
pub mod Apply
pub mod Resolve
pub mod Leaves
pub mod Preserved
pub mod Frame
pub mod Written
pub mod Avoided
pub mod Retried
pub mod Named
use sync_stuff_opinionated.Base.{Bool, Option, some, List, []}
use sync_stuff_opinionated.Base.Text.{Text, Bytes, codes}
use sync_stuff_opinionated.Base.Int.{ℤ}
use sync_stuff_opinionated.Base.Effect.{Eff, Result, ok, err, panic, with_err}
use sync_stuff_opinionated.Couch.{CouchError, rev_conflict, Revisions, Backend}

pub data ResolveError : Type 0 where
  couch : CouchError → ResolveError
  cas_conflict : ResolveError
  max_retries : ResolveError
  missing_leaf : ResolveError

pub data ResolutionKind : Type 0 where
  merged : ResolutionKind
  kept_newer : ResolutionKind
  edit_won : ResolutionKind
  kept_winner : ResolutionKind

pub record Resolved : Type 0 where
  pub path : Text
  pub kind : ResolutionKind
  pub conflict_copies : List Text

pub data Outcome : Type 0 where
  no_conflict : Outcome
  resolved : Resolved → Outcome

pub record Leaf : Type 0 where
  pub rev : Text
  pub deleted : Bool
  pub mtime : ℤ
  pub content_type : Text
  pub content : Bytes
  pub revisions : Option Revisions

pub record Copy : Type 0 where
  pub content : Bytes
  pub mtime : ℤ
  pub content_type : Text

pub record Plan : Type 0 where
  pub kind : ResolutionKind
  pub winner_rev : Text
  pub final_content : Option Bytes
  pub final_mtime : ℤ
  pub final_content_type : Text
  pub copies : List Copy
  pub loser_revs : List Text

abbrev pub map_couch : CouchError → ResolveError
map_couch (rev_conflict id) = cas_conflict
map_couch e = couch e

module _ (B : Backend) where
  abbrev pub Action : Type 0 → Type 0
  Action A = Eff B.World ResolveError A

  -- A read, whose error is a `Couch` error.
  unfoldable pub on_read : {A : Type 0} → Eff B.World CouchError A → Action A
  on_read m = with_err couch m

  -- A write, whose revision conflict is a `CasConflict`.
  unfoldable pub on_write : {A : Type 0} → Eff B.World CouchError A → Action A
  on_write m = with_err map_couch m

  abbrev pub or_default : Result CouchError Bytes → Result ResolveError Bytes
  or_default (ok bytes) = ok bytes
  or_default (err e) = ok []
  or_default panic = panic

  -- `.unwrap_or_default()` on the content of a revision.
  unfoldable pub content_or_default : Text → Text → Action Bytes
  content_or_default path rev w =
      let (r, w') = B.couch.get_attachment_at_rev path (codes "content") (some rev) w in
      (or_default r, w')
