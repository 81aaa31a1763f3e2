-- ===== src/Http.antt =====
-- What the clients use of the `reqwest` and `url` packages: URLs, requests and responses over an
-- unknown network. The program only calls them, so they are parameters.
pub mod Client
use sync_stuff_opinionated.Base.{ℕ, Bool, ◌&&◌, Option, none, some, leb, if◌then◌else◌}
use sync_stuff_opinionated.Base.Text.{Text, Bytes}
use sync_stuff_opinionated.Base.Effect.{Eff, ok, err, Result}

pub data Method : Type 0 where
  get : Method
  put : Method
  post : Method
  delete : Method

pub data Auth : Type 0 where
  no_auth : Auth
  basic : Text → Text → Auth
  bearer : Text → Auth
  -- the header as it is
  authorization : Text → Auth

-- No body, a JSON text, or bytes with their content type.
pub data Body : Type 0 where
  no_body : Body
  json : Text → Body
  raw : Text → Bytes → Body

pub record Request (Url : Type 0) : Type 0 where
  pub method : Method
  pub url : Url
  pub auth : Auth
  pub body : Body
  pub timeout : Option ℕ

-- `reqwest::Error`: the status that it carries, if it is of a status, and its text.
pub record RequestError : Type 0 where
  pub status : Option ℕ
  pub message : Text

-- A header that is there has a text, or is no visible ASCII. The body is read from the network.
pub record Response (World : Type 0) : Type 0 where
  pub status : ℕ
  pub header : Text → Option (Option Text)
  pub text : Eff World RequestError Text
  pub bytes : Eff World RequestError Bytes

pub record Web : Type 1 where
  pub World : Type 0
  pub Url : Type 0
  pub parse : Text → Result Text Url
  pub can_be_base : Url → Bool
  pub push : Url → Text → Url
  pub append_pair : Url → Text → Text → Url
  pub send : Request Url → Eff World RequestError (Response World)
  pub status_message : ℕ → Text

-- `StatusCode::is_success`.
abbrev pub is_success : ℕ → Bool
is_success status = leb 200 status && leb status 299

-- `Response::error_for_status`: an error is a client or a server error.
abbrev pub error_for_status :
    {W : Type 0} → (ℕ → Text) → Response W → Result RequestError (Response W)
error_for_status status_message resp =
    if leb 400 resp.status && leb resp.status 599
    then err (record { status = some resp.status; message = status_message resp.status })
    else ok resp
