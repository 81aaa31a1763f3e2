-- ===== src/Couch/Leaves/Framed.antt =====
-- The leaves that are read from a multipart body are the ones that were written to it
-- (`parse_open_revs`, crates/hub-api/src/couch.rs).
use mathlib.Core.List.{reverse, reverse-append, reverse-reverse}
use sync_stuff_opinionated.Base.{
  ℕ, zero, suc, ◌≡◌, refl, sym, ap, ◌∙◌, true, false, Option, none, some, List, [], ◌∷◌, ◌++◌, map,
  arith,
}
use sync_stuff_opinionated.Base.Text.{Text, Bytes, codes, starts_with}
use sync_stuff_opinionated.Base.Lists.{All, filter_map, length}
use sync_stuff_opinionated.Base.Split.{join, has, more, split-join}
use sync_stuff_opinionated.Base.Trim.{contains, spaces, strip_all, reverse_all, trim, trim_end}
use sync_stuff_opinionated.Base.Effect.{Result, ok}
use sync_stuff_opinionated.Engine.Queue.{unwrap_or}
use sync_stuff_opinionated.Couch.Leaves.{newline, leaf_of_line, parse_open_revs}

-- An object, and the carriage return after it on its line.
abbrev object : Text → Text
object fields = 123 ∷ fields ++ 125 ∷ []

abbrev pub with_return : Text → Text
with_return text = text ++ 13 ∷ []

strip-object :
    (n : ℕ) (text : Text) → strip_all (reverse_all spaces) (suc n) (13 ∷ 125 ∷ text) ≡ 125 ∷ text
strip-object zero text = refl
strip-object (suc n) text = refl

reverse-object : (fields : Text) → reverse (object fields) ≡ 125 ∷ reverse (123 ∷ fields)
reverse-object fields = reverse-append (123 ∷ fields) (125 ∷ [])

trim_end-object : (fields : Text) → trim_end (with_return (object fields)) ≡ object fields
trim_end-object fields =
    ap
      (λ text. reverse (strip_all (reverse_all spaces) (length (with_return (object fields))) text))
      (reverse-append (object fields) (13 ∷ []) ∙ ap (λ text. 13 ∷ text) (reverse-object fields))
    ∙ ap reverse (strip-object _ (reverse (123 ∷ fields)) ∙ sym (reverse-object fields))
    ∙ reverse-reverse (object fields)

trim-object : (fields : Text) → trim (with_return (object fields)) ≡ object fields
unfolding trim
trim-object fields = trim_end-object fields

-- A line of a multipart body: one of the multipart syntax, or a leaf.
pub data Line (V : Type 0) : Type 0 where
  frame : Bytes → Line V
  leaf : V → Line V

module _ {V : Type 0} (from_utf8 : Bytes → Option Text) (from_str : Text → Result Text V)
    (print : V → Text) where
  abbrev pub line_of : Line V → Bytes
  line_of (frame bytes) = bytes
  line_of (leaf v) = with_return (print v)

  abbrev pub leaves_of : List (Line V) → List V
  leaves_of [] = []
  leaves_of (frame bytes ∷ lines) = leaves_of lines
  leaves_of (leaf v ∷ lines) = v ∷ leaves_of lines

  -- What a leaf is written as: an object on one line, which is read as the leaf.
  pub record Printed (v : V) : Type 0 where
    pub fields : Text
    pub shape : print v ≡ object fields
    pub one_line : has newline (with_return (print v)) ≡ false
    pub utf8 : from_utf8 (with_return (print v)) ≡ some (with_return (print v))
    pub read : from_str (print v) ≡ ok v

  -- A line of the syntax does not look like an object.
  abbrev pub IsLine : Line V → Type 0
  IsLine (frame bytes) =
      (has newline bytes ≡ false)
      × (starts_with (trim (unwrap_or (from_utf8 bytes) [])) (codes "{") ≡ false)
  IsLine (leaf v) = Printed v

  one_line :
      (lines : List (Line V))
      → All IsLine lines
      → All (λ part. has newline part ≡ false) (map line_of lines)
  one_line [] all = tt
  one_line (frame bytes ∷ lines) (h, all) = (h.0, one_line lines all)
  one_line (leaf v ∷ lines) (h, all) = (h.one_line, one_line lines all)

  leaf_of_line-leaf :
      (v : V) → Printed v → leaf_of_line from_utf8 from_str (with_return (print v)) ≡ some v
  leaf_of_line-leaf v h =
      let trimmed : trim (unwrap_or (from_utf8 (with_return (print v))) []) ≡ print v =
        ap (λ line. trim (unwrap_or line [])) h.utf8
        ∙ ap (λ text. trim (with_return text)) h.shape
        ∙ trim-object h.fields
        ∙ sym h.shape in
      let starts : starts_with (print v) (codes "{") ≡ true =
        ap (λ text. starts_with text (codes "{")) h.shape in
      ground (arith, trimmed, starts, h.read)

  leaf_of_line-frame :
      (bytes : Bytes) → IsLine (frame bytes) → leaf_of_line from_utf8 from_str bytes ≡ none
  leaf_of_line-frame bytes h = ground (arith, h.1)

  leaves-lines :
      (lines : List (Line V))
      → All IsLine lines
      → filter_map (leaf_of_line from_utf8 from_str) (map line_of lines) ≡ leaves_of lines
  leaves-lines [] all = refl
  leaves-lines (frame bytes ∷ lines) (h, all) =
      ground (arith, leaf_of_line-frame bytes h, leaves-lines lines all)
  leaves-lines (leaf v ∷ lines) (h, all) =
      ground (arith, leaf_of_line-leaf v h, leaves-lines lines all)

  -- If the leaves are written as objects, each on a line of its own that ends in a carriage return,
  -- among lines that do not start like an object, then exactly the leaves are read, in order.
  pub parse_open_revs-join :
      (from_slice : Bytes → Result Text (List V)) (content_type : Text) (lines : List (Line V))
      → contains content_type (codes "multipart") ≡ true
      → more (map line_of lines) ≡ true
      → All IsLine lines
      → parse_open_revs from_utf8 from_str from_slice content_type
          (join newline (map line_of lines))
        ≡ leaves_of lines
  unfolding parse_open_revs
  parse_open_revs-join from_slice content_type lines multipart some_line all = ground (
    arith,
    leaves-lines lines all,
    split-join newline (map line_of lines) some_line (one_line lines all),
  )
