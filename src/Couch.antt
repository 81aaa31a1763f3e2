-- ===== src/Couch.antt =====
-- What the hub works with: the data of the CouchDB client (crates/hub-api/src/couch.rs), its errors
-- (crates/hub-api/src/error.rs), the operations that the hub calls, and the JSON values, the
-- encodings, the merge of texts and the clock of the packages that it uses.
pub mod Leads
pub mod Leaves
pub mod Client
use sync_stuff_opinionated.Base.{ℕ, Bool, Option, List, ◌++◌}
use sync_stuff_opinionated.Base.Text.{Text, Bytes, codes}
use sync_stuff_opinionated.Base.Int.{ℤ}
use sync_stuff_opinionated.Base.Effect.{Eff, Result}
use sync_stuff_opinionated.Base.Decimal.{decimal, pad_2}

-- `transport` carries the text of the `reqwest` error.
pub data CouchError : Type 0 where
  transport : Text → CouchError
  api : ℕ → Text → CouchError
  bad_url : Text → CouchError
  rev_conflict : Text → CouchError
  decode : Text → CouchError

pub record PutResult : Type 0 where
  pub id : Text
  pub rev : Text

-- Newest first: `ids` at `i` is of generation `start - i`.
pub record Revisions : Type 0 where
  pub start : ℕ
  pub ids : List Text

-- `serde_json::Value`, as far as the hub uses it; `revisions` is `from_value::<Revisions>`.
pub record Json : Type 1 where
  pub Value : Type 0
  pub get : Value → Text → Option Value
  pub as_str : Value → Option Text
  pub as_bool : Value → Option Bool
  pub as_i64 : Value → Option ℤ
  pub as_array : Value → Option (List Value)
  pub revisions : Value → Option Revisions
  pub null : Value
  pub string : Text → Value
  pub boolean : Bool → Value
  pub number : ℤ → Value
  pub array : List Value → Value
  pub object : List (Text × Value) → Value
  pub to_string : Value → Text

pub record RawRev : Type 0 where
  pub rev : Text

pub record RawChangeRow (V : Type 0) : Type 0 where
  pub id : Text
  pub deleted : Bool
  pub changes : List RawRev
  pub doc : Option V

pub record RawChangesResponse (V : Type 0) : Type 0 where
  pub results : List (RawChangeRow V)
  pub last_seq : V

-- The operations of `CouchClient`, over the state of the database.
pub record CouchClient (W V : Type 0) : Type 0 where
  pub changes : Option Text → Eff W CouchError (RawChangesResponse V)
  pub changes_longpoll : Option Text → ℕ → Eff W CouchError (RawChangesResponse V)
  pub changes_with_docs : Option Text → Eff W CouchError (RawChangesResponse V)
  pub get_doc : Text → Eff W CouchError (Option V)
  pub get_doc_at_rev : Text → Text → Eff W CouchError (Option V)
  pub get_attachment_at_rev : Text → Text → Option Text → Eff W CouchError Bytes
  pub get_doc_leaves : Text → Eff W CouchError (List V)
  pub put_doc : Text → Option Text → V → Eff W CouchError PutResult
  pub put_attachment : Text → Text → Text → Bytes → Eff W CouchError PutResult
  pub delete_doc : Text → Text → Eff W CouchError PutResult
  pub put_revision : V → Eff W CouchError (Unit {0})

-- The result of `threeway_merge::merge_strings`.
pub record Merged : Type 0 where
  pub has_conflicts : Bool
  pub content : Text

-- `time::Date`.
pub record Date : Type 0 where
  pub day : ℕ
  pub month : ℕ
  pub year : ℕ

-- The format of the date in the name of a conflict copy.
abbrev pub day_month_year : Date → Text
day_month_year date =
    pad_2 date.day ++ codes "." ++ pad_2 date.month ++ codes "." ++ decimal date.year

pub record Backend : Type 1 where
  pub json : Json
  pub World : Type 0
  pub couch : CouchClient World json.Value
  pub today : World → Date
  pub from_utf8 : Bytes → Option Text
  pub into_bytes : Text → Bytes
  pub merge_strings : Text → Text → Text → Result Text Merged
  pub base64_encode : Bytes → Text
  pub base64_decode : Text → Result Text Bytes
