-- ===== src/Couch/Leaves.antt =====
-- The leaves of a document as CouchDB sends them (`parse_open_revs`,
-- crates/hub-api/src/couch.rs): one JSON text per line among the lines of a multipart body.
pub mod Framed
use sync_stuff_opinionated.Base.{
  ℕ, zero, suc, Bool, true, false, ◌||◌, Option, none, some, List, [], ◌∷◌, ◌++◌, if◌then◌else◌,
}
use mathlib.Core.List.{reverse}
use sync_stuff_opinionated.Base.Text.{Text, Bytes, codes, starts_with, strip_prefix}
use sync_stuff_opinionated.Base.Lists.{length, filter_map}
use sync_stuff_opinionated.Base.Split.{split}
use sync_stuff_opinionated.Base.Trim.{contains, trim}
use sync_stuff_opinionated.Base.Effect.{Result, ok, err, panic}
use sync_stuff_opinionated.Engine.Queue.{unwrap_or}

abbrev pub newline : ℕ
newline = 10

module _ {V : Type 0} (from_utf8 : Bytes → Option Text) (from_str : Text → Result Text V) where
  abbrev pub ok_of : Result Text V → Option V
  ok_of (ok v) = some v
  ok_of (err e) = none
  ok_of panic = none

  -- The leaf on a line, if there is one.
  abbrev pub leaf_of_line : Bytes → Option V
  leaf_of_line line =
      let text = trim (unwrap_or (from_utf8 line) []) in
      if starts_with text (codes "{") then ok_of (from_str text) else none

  abbrev pub or_empty : Result Text (List V) → List V
  or_empty (ok vs) = vs
  or_empty (err e) = []
  or_empty panic = []

  unfoldable pub parse_open_revs : (Bytes → Result Text (List V)) → Text → Bytes → List V
  parse_open_revs from_slice content_type body =
      if contains content_type (codes "multipart")
      then filter_map leaf_of_line (split newline body)
      else or_empty (from_slice body)
