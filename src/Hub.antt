-- ===== src/Hub.antt =====
-- The client of one hub (crates/client-core/src/hub.rs): each operation is one request to the Hub
-- Sync API. It fills the interface of the sync engine.
pub mod Encoded
pub mod Served
use sync_stuff_opinionated.Base.{
  ℕ, ◌^◌, nat_beq, Bool, false, Option, none, some, List, ◌++◌, map, if◌then◌else◌,
}
use sync_stuff_opinionated.Base.Text.{Text, Bytes, codes}
use sync_stuff_opinionated.Base.Int.{ℤ}
use sync_stuff_opinionated.Base.Split.{split, join}
use sync_stuff_opinionated.Base.Decimal.{decimal, parse_int}
use sync_stuff_opinionated.Base.Effect.{
  Eff, Result, ok, err, panic, pure, fail, panics, of_result, caught, ◌>>=◌, ◌>>◌, with_err,
  then_ok,
}
use sync_stuff_opinionated.Protocol.{ChangesResponse, PushChange, PushResult, FileContent, HubError}
use sync_stuff_opinionated.Engine.Types.{HubClient}
use sync_stuff_opinionated.Engine.Queue.{octet_stream}
use sync_stuff_opinionated.Http.{
  Method, Auth, Body, Request, RequestError, Response, Web, error_for_status,
}
use sync_stuff_opinionated.Http.Client.{
  HttpClient, new_client, build_url, add_query_param, json_or_err,
}

-- Seconds.
abbrev pub longpoll_request_timeout : ℕ
longpoll_request_timeout = 65

abbrev pub slash : ℕ
slash = 47

abbrev pub transport_error : RequestError → HubError
transport_error e = HubError.transport e.message

-- The JSON encodings of the API, and `urlencoding::encode`.
pub record Api : Type 0 where
  pub metadata : Bytes → Result Text Text
  pub changes : Bytes → Result Text ChangesResponse
  pub results : Bytes → Result Text (List PushResult)
  pub pushed : List PushChange → Text
  pub encode : Text → Text

-- Each segment is encoded, the separators are kept.
abbrev pub encode_path : (Text → Text) → Text → Text
encode_path encode path = join slash (map encode (split slash path))

abbrev pub parsed_mtime : Option ℤ → Result HubError ℤ
parsed_mtime none = err (HubError.decode (codes "non-numeric x-file-mtime"))
parsed_mtime (some mtime) = ok mtime

-- An error of status 404 says that there is no such file.
abbrev pub is_not_found : RequestError → Bool
is_not_found e = elim e.status [ none ↦ false | some status ↦ nat_beq status 404 ]

-- `HubClient::new`: the client of the base URL, and the token.
abbrev pub new_hub : (web : Web) → web.Url → Text → Result HubError (HttpClient web.Url × Text)
new_hub web base_url device_token =
    then_ok (new_client web base_url) λ client. ok (client, device_token)

module _ {W : Type 0} where
  -- The text of a header that must be there.
  abbrev pub header : Response W → Text → Result HubError Text
  header resp name = elim (resp.header name) [
    | none ↦ err (HubError.decode (codes "Header " ++ (name ++ codes " is missing.")))
    | some none ↦
        err (HubError.decode (codes "Header " ++ (name ++ codes " has an invalid value.")))
    | some (some value) ↦ ok value
  ]

  abbrev pub content_type_of : Response W → Text
  content_type_of resp = elim (header resp (codes "content-type")) [
    | ok value ↦ value
    | err _ ↦ octet_stream
    | panic ↦ octet_stream
  ]

  -- The file in a response.
  unfoldable pub file_content : Response W → Eff W HubError (Option FileContent)
  file_content resp = do
    rev ← of_result (header resp (codes "x-file-rev"))
    text ← of_result (header resp (codes "x-file-mtime"))
    mtime ← of_result (parsed_mtime (parse_int (2 ^ 63) text))
    content ← with_err transport_error resp.bytes
    pure (
        some (record {
          rev = rev;
          mtime = mtime;
          content_type = content_type_of resp;
          content = content;
        }))

  unfoldable pub found_file : Result RequestError (Response W) → Eff W HubError (Option FileContent)
  found_file (ok resp) = file_content resp
  found_file (err e) = if is_not_found e then pure none else fail (transport_error e)
  found_file panic = panics

module _ (web : Web) (api : Api) (client : HttpClient web.Url) (device_token : Text) where
  abbrev pub Action : Type 0 → Type 0
  Action A = Eff web.World HubError A

  abbrev pub request : Method → web.Url → Body → Option ℕ → Request web.Url
  request method url body timeout = record {
    method = method;
    url = url;
    auth = Auth.bearer device_token;
    body = body;
    timeout = timeout;
  }

  abbrev pub checked :
      Result RequestError (Response web.World) → Result RequestError (Response web.World)
  checked r = then_ok r (error_for_status web.status_message)

  unfoldable pub send_request : Request web.Url → Eff web.World RequestError (Response web.World)
  send_request builder w = let (r, w') = web.send builder w in (checked r, w')

  unfoldable pub send_and_parse :
      {A : Type 0} → (Bytes → Result Text A) → Request web.Url → Action A
  send_and_parse from_slice builder = do
    resp ← with_err transport_error (send_request builder)
    json_or_err web from_slice resp

  unfoldable pub metadata : Action Text
  metadata = do
    url ← of_result (build_url web client (codes "metadata"))
    send_and_parse api.metadata (request Method.get url Body.no_body none)

  abbrev pub with_since : Option Text → web.Url → web.Url
  with_since none url = url
  with_since (some since) url = add_query_param web (codes "since") since url

  unfoldable pub changes : Option Text → Action ChangesResponse
  changes since = do
    url ← of_result (build_url web client (codes "changes"))
    send_and_parse api.changes (request Method.get (with_since since url) Body.no_body none)

  unfoldable pub longpoll : Option Text → ℕ → Action ChangesResponse
  longpoll since timeout_secs = do
    url ← of_result (build_url web client (codes "changes/longpoll"))
    let timed = add_query_param web (codes "timeout") (decimal timeout_secs) url
    send_and_parse api.changes
        (request Method.get (with_since since timed) Body.no_body (some longpoll_request_timeout))

  unfoldable pub get_file : Text → Action (Option FileContent)
  get_file path = do
    url ← of_result (build_url web client (codes "file/" ++ encode_path api.encode path))
    outcome ← caught (send_request (request Method.get url Body.no_body none))
    found_file outcome

  unfoldable pub push : List PushChange → Action (List PushResult)
  push changes = do
    url ← of_result (build_url web client (codes "changes"))
    send_and_parse api.results (request Method.post url (Body.json (api.pushed changes)) none)

  -- The client as the engine sees it.
  abbrev pub hub_client : Text → HubClient web.World
  hub_client id = record { id = id; changes = changes; get_file = get_file; push = push }
