-- ===== src/Routes/Router.antt =====
-- The hub as the function from a request to a response (crates/hub-api/src/routes/mod.rs,
-- crates/hub-api/src/auth.rs): the route is found, the token is checked, then the handler runs.
use sync_stuff_opinionated.Base.{ℕ, Bool, Option, none, some, List, if◌then◌else◌}
use sync_stuff_opinionated.Base.Text.{Text, codes, ◌==◌, is_empty, strip_prefix}
use sync_stuff_opinionated.Base.Effect.{Eff, Result, ok, err, panic, with_err}
use sync_stuff_opinionated.Protocol.{Metadata, ChangesResponse, PushChange, PushResult}
use sync_stuff_opinionated.Engine.Queue.{unwrap_or}
use sync_stuff_opinionated.Http.{Method}
use sync_stuff_opinionated.Couch.{CouchError, Backend}
use sync_stuff_opinionated.Routes.{ApiError, api_error}
use sync_stuff_opinionated.Routes.Changes.{default_timeout, get_changes, get_changes_longpoll}
use sync_stuff_opinionated.Routes.File.{FileResponse, get_file}
use sync_stuff_opinionated.Routes.Push.{post_changes}

pub data Endpoint : Type 0 where
  changes : Endpoint
  pushes : Endpoint
  longpoll : Endpoint
  file : Text → Endpoint
  metadata : Endpoint

-- A request as the extractors of `axum` see it: the bearer token, the query and the JSON body, none
-- where there is none or it cannot be read. The query of a request always reads as texts.
pub record Incoming : Type 0 where
  pub method : Method
  pub path : Text
  pub token : Option Text
  pub since : Option Text
  pub timeout : Option ℕ
  pub pushed : Option (List PushChange)

pub data Reply : Type 0 where
  no_route : Reply
  bad_request : Reply
  unauthorized : Reply
  refused : ℕ → Text → Reply
  crashed : Reply
  changes_reply : ChangesResponse → Reply
  pushed_reply : List PushResult → Reply
  file_reply : FileResponse → Reply
  metadata_reply : Metadata → Reply

abbrev pub file_at : Option Text → Option Endpoint
file_at none = none
file_at (some path) = if is_empty path then none else some (file path)

abbrev pub get_route : Text → Option Endpoint
get_route path =
    if path == codes "/changes"
    then some changes
    else if path == codes "/changes/longpoll"
    then some longpoll
    else if path == codes "/metadata"
    then some metadata
    else file_at (strip_prefix path (codes "/file/"))

-- The table of `build_router`.
abbrev pub route_of : Method → Text → Option Endpoint
route_of Method.get path = get_route path
route_of Method.post path = if path == codes "/changes" then some pushes else none
route_of _ path = none

-- A result as a response; a handler that panics drops the connection.
abbrev pub reply_of : {A : Type 0} → (A → Reply) → Result ApiError A → Reply
reply_of good (ok a) = good a
reply_of good (err e) = refused e.status e.message
reply_of good panic = crashed

-- `get_metadata` calls a method of the database client that the repository does not have.
module _ (B : Backend) (header_value : Text → Option Text)
    (get_metadata : Eff B.World CouchError Metadata) (device_tokens : Text → Bool) (fuel : ℕ) where
  abbrev pub Handled : Type 0
  Handled = B.World → Reply × B.World

  abbrev pub answer : {A : Type 0} → (A → Reply) → Eff B.World ApiError A → Handled
  answer good action w = let (r, w') = action w in (reply_of good r, w')

  abbrev pub push_handler : Option (List PushChange) → Handled
  push_handler none w = (bad_request, w)
  push_handler (some batch) w = answer pushed_reply (post_changes B fuel batch) w

  unfoldable pub handler : Endpoint → Incoming → Handled
  handler changes req = answer changes_reply (get_changes B req.since)
  handler longpoll req =
      answer changes_reply
        (get_changes_longpoll B req.since (unwrap_or req.timeout default_timeout))
  handler pushes req = push_handler req.pushed
  handler (file path) req = answer file_reply (get_file B header_value path)
  handler metadata req = answer metadata_reply (with_err api_error get_metadata)

  -- A request without a bearer token is refused by the extractor.
  unfoldable pub require_device_token : Option Text → Handled → Handled
  require_device_token none next w = (bad_request, w)
  require_device_token (some token) next w =
      if device_tokens token then next w else (unauthorized, w)

  abbrev pub dispatch : Option Endpoint → Option Text → (Endpoint → Handled) → Handled
  dispatch none token next w = (no_route, w)
  dispatch (some endpoint) token next w = require_device_token token (next endpoint) w

  -- The middleware runs on the requests that have a route.
  unfoldable pub hub : Incoming → Handled
  hub req w = dispatch (route_of req.method req.path) req.token (λ endpoint. handler endpoint req) w
