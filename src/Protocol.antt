-- ===== src/Protocol.antt =====
-- The wire types of the Hub Sync API (crates/protocol-types/src/types.rs), the file content that
-- a hub serves (crates/client-core/src/hub.rs), and the errors of the HTTP client
-- (crates/common/src/http_client.rs).
use sync_stuff_opinionated.Base.{ℕ, Bool, Option, List}
use sync_stuff_opinionated.Base.Text.{Text, Bytes}
use sync_stuff_opinionated.Base.Int.{ℤ}

-- What identifies a hub.
pub record Metadata : Type 0 where
  pub uuid : Text

pub record ChangeEntry : Type 0 where
  pub path : Text
  pub deleted : Bool
  pub rev : Text

pub record ChangesResponse : Type 0 where
  pub changes : List ChangeEntry
  pub checkpoint : Text

pub record PushChange : Type 0 where
  pub path : Text
  pub deleted : Bool
  pub base_rev : Option Text
  pub mtime : ℤ
  pub content_type : Option Text
  pub content_base64 : Option Text

pub record PushResult : Type 0 where
  pub path : Text
  pub rev : Text

pub record FileContent : Type 0 where
  pub rev : Text
  pub mtime : ℤ
  pub content_type : Text
  pub content : Bytes

-- `transport` carries the text of the `reqwest` error.
pub data HubError : Type 0 where
  url_build : HubError
  decode : Text → HubError
  api : ℕ → Text → HubError
  transport : Text → HubError
