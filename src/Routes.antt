-- ===== src/Routes.antt =====
-- The errors of the hub's routes (crates/hub-api/src/error.rs).
pub mod Hash
pub mod Push
pub mod Stored
pub mod Storing
pub mod Changes
pub mod File
pub mod Listed
pub mod Router
pub mod Guarded
use sync_stuff_opinionated.Base.{ℕ, ◌++◌}
use sync_stuff_opinionated.Base.Text.{Text, codes}
use sync_stuff_opinionated.Base.Decimal.{decimal}
use sync_stuff_opinionated.Base.Effect.{Eff, with_err}
use sync_stuff_opinionated.Couch.{
  CouchError, transport, api, bad_url, rev_conflict, decode, Backend,
}

-- The status and the message of an error response.
pub record ApiError : Type 0 where
  pub status : ℕ
  pub message : Text

abbrev pub couch_message : CouchError → Text
couch_message (transport e) = codes "http transport error: " ++ e
couch_message (api status body) = codes "couchdb returned " ++ decimal status ++ codes ": " ++ body
couch_message (bad_url e) = codes "invalid url: " ++ e
couch_message (rev_conflict id) = codes "revision conflict writing " ++ id
couch_message (decode e) = codes "unexpected response shape: " ++ e

abbrev pub api_error : CouchError → ApiError
api_error (rev_conflict id) = record { status = 409; message = couch_message (rev_conflict id) }
api_error e = record { status = 502; message = couch_message e }
