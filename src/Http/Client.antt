-- ===== src/Http/Client.antt =====
-- The HTTP client that the clients share (crates/common/src/http_client.rs).
use sync_stuff_opinionated.Base.{ℕ, if◌then◌else◌}
use sync_stuff_opinionated.Base.Text.{Text, Bytes, codes}
use sync_stuff_opinionated.Base.Effect.{Eff, Result, ok, err, panic}
use sync_stuff_opinionated.Protocol.{HubError}
use sync_stuff_opinionated.Http.{Response, RequestError, Web, is_success}

-- Seconds.
abbrev pub request_timeout : ℕ
request_timeout = 30

abbrev pub connect_timeout : ℕ
connect_timeout = 10

pub record HttpClient (Url : Type 0) : Type 0 where
  pub base_url : Url

-- The value in the body, or that it cannot be decoded.
abbrev pub decoded_body :
    {A : Type 0} → (Bytes → Result Text A) → Result RequestError Bytes → Result HubError A
decoded_body from_slice (ok body) = elim (from_slice body) [
  | ok value ↦ ok value
  | err e ↦ err (HubError.decode e)
  | panic ↦ panic
]
decoded_body from_slice (err e) = err (HubError.decode e.message)
decoded_body from_slice panic = panic

abbrev pub refused_body : {A : Type 0} → ℕ → Result RequestError Text → Result HubError A
refused_body status (ok body) = err (HubError.api status body)
refused_body status (err e) = err (HubError.api status (codes "<failed to read body>"))
refused_body status panic = panic

module _ (web : Web) where
  -- `HttpClient::new`: a segment is pushed, which is the text "/".
  abbrev pub new_client : web.Url → Result HubError (HttpClient web.Url)
  new_client base_url =
      if web.can_be_base base_url
      then ok (record { base_url = web.push base_url (codes "/") })
      else err HubError.url_build

  abbrev pub build_url : HttpClient web.Url → Text → Result HubError web.Url
  build_url client sub_path =
      if web.can_be_base client.base_url
      then ok (web.push client.base_url sub_path)
      else err HubError.url_build

  abbrev pub add_query_param : Text → Text → web.Url → web.Url
  add_query_param key value url = web.append_pair url key value

  unfoldable pub json_or_err :
      {A : Type 0} → (Bytes → Result Text A) → Response web.World → Eff web.World HubError A
  json_or_err from_slice resp w =
      if is_success resp.status
      then (let (body, w') = resp.bytes w in (decoded_body from_slice body, w'))
      else (let (body, w') = resp.text w in (refused_body resp.status body, w'))
