-- ===== src/Hub/Served.antt =====
-- What a file of the hub is read from (`get_file`, crates/client-core/src/hub.rs).
use mathlib.Core.Path.{subst}
use sync_stuff_opinionated.Base.{
  ℕ, ◌^◌, ◌≡◌, refl, sym, ap, ◌∙◌, leb, Bool, true, not, ◌&&◌, Option, none, some, ◌++◌, arith,
}
use sync_stuff_opinionated.Base.Text.{Text, codes}
use sync_stuff_opinionated.Base.Int.{ℤ}
use sync_stuff_opinionated.Base.Decimal.{parse_int}
use sync_stuff_opinionated.Base.Effect.{
  Result, ok, err, panic, pure, fail, panics, of_result-bind, >>=-eq-ok, with_err-ok, caught-ok,
}
use sync_stuff_opinionated.Protocol.{FileContent}
use sync_stuff_opinionated.Http.{Method, Body, Request, RequestError, Response, Web}
use sync_stuff_opinionated.Http.Client.{HttpClient, build_url}
use sync_stuff_opinionated.Hub.{
  Api, transport_error, encode_path, header, parsed_mtime, content_type_of, file_content,
  found_file, request, checked, send_request, get_file,
}

parsed_mtime-ok : (o : Option ℤ) (mtime : ℤ) → parsed_mtime o ≡ ok mtime → o ≡ some mtime
parsed_mtime-ok none mtime e = cc
parsed_mtime-ok (some n) mtime e = cc

module _ {W : Type 0} where
  -- A file that was read from a response: the revision and the time are its headers, the content is
  -- its body.
  pub record Read (resp : Response W) (w w' : W) (file : FileContent) : Type 0 where
    pub rev : resp.header (codes "x-file-rev") ≡ some (some file.rev)
    pub mtime_text : Text
    pub mtime_header : resp.header (codes "x-file-mtime") ≡ some (some mtime_text)
    pub mtime : parse_int (2 ^ 63) mtime_text ≡ some file.mtime
    pub content_type : file.content_type ≡ content_type_of resp
    pub content : resp.bytes w ≡ (ok file.content, w')

  header-ok :
      (resp : Response W) (name value : Text)
      → header resp name ≡ ok value
      → resp.header name ≡ some (some value)
  header-ok resp name value e = ground (arith, e)

  file_content-Read :
      (resp : Response W) (w w' : W) (file : FileContent)
      → file_content resp w ≡ (ok (some file), w')
      → Read resp w w' file
  unfolding file_content pure
  file_content-Read resp w w' file e =
      let (rev, has_rev, e₁) = of_result-bind _ _ w w' _ e in
      let (text, has_mtime, e₂) = of_result-bind _ _ w w' _ e₁ in
      let (mtime, parsed, e₃) = of_result-bind _ _ w w' _ e₂ in
      let (content, v, received, e₄) = >>=-eq-ok _ _ e₃ in
      let made : FileContent = record {
        rev = rev;
        mtime = mtime;
        content_type = content_type_of resp;
        content = content;
      } in
      let same_file : made ≡ file = cc in
      let same_end : v ≡ w' = cc in
      subst (λ f. Read resp w w' f) same_file
        (subst (λ u. Read resp w u made) same_end
          (record {
            rev = header-ok resp _ rev has_rev;
            mtime_text = text;
            mtime_header = header-ok resp _ text has_mtime;
            mtime = parsed_mtime-ok _ mtime parsed;
            content_type = refl;
            content = with_err-ok transport_error resp.bytes w v content received;
          }))

-- An answer that is no error of the client or the server.
abbrev pub no_error : ℕ → Bool
no_error status = not (leb 400 status && leb status 599)

module _ (web : Web) (api : Api) (client : HttpClient web.Url) (device_token : Text) where
  -- The request for a file.
  abbrev pub file_request : web.Url → Request web.Url
  file_request url = request web api client device_token Method.get url Body.no_body none

  -- A file that the hub has served: the answer to the request for its path is no error, and the file
  -- was read from it.
  pub record Served (path : Text) (w w' : web.World) (file : FileContent) : Type 0 where
    pub url : web.Url
    pub of_path : build_url web client (codes "file/" ++ encode_path api.encode path) ≡ ok url
    pub resp : Response web.World
    pub between : web.World
    pub answered : web.send (file_request url) w ≡ (ok resp, between)
    pub good : no_error resp.status ≡ true
    pub read : Read resp between w' file

  send_request-ok :
      (req : Request web.Url) (w w' : web.World) (resp : Response web.World)
      → (send_request web api client device_token req w) ≡ (ok resp, w')
      → (web.send req w ≡ (ok resp, w')) × (no_error resp.status ≡ true)
  unfolding send_request
  send_request-ok req w w' resp e =
      onward (web.send req w).0 refl
        (ap (λ (out : Result RequestError (Response web.World) × web.World). out.0) e)
        (ap (λ (out : Result RequestError (Response web.World) × web.World). out.1) e)
    where
      onward :
          (r : Result RequestError (Response web.World))
          → (web.send req w).0 ≡ r
          → checked web api client device_token r ≡ ok resp
          → (web.send req w).1 ≡ w'
          → (web.send req w ≡ (ok resp, w')) × (no_error resp.status ≡ true)
      onward (ok answer) g h k =
          let parts : (answer ≡ resp) × (no_error answer.status ≡ true) = ground (arith, h) in
          (
            cc (g, k, parts.0),
            ap (λ (x : Response web.World). no_error x.status) (sym parts.0) ∙ parts.1,
          )
      onward (err x) g h k = ground (arith, h)
      onward panic g h k = cc

  found_file-Read :
      (r : Result RequestError (Response web.World)) (w w' : web.World) (file : FileContent)
      → found_file r w ≡ (ok (some file), w')
      → (resp : Response web.World) × (r ≡ ok resp) × Read resp w w' file
  unfolding found_file pure fail panics
  found_file-Read (ok resp) w w' file e = (resp, refl, file_content-Read resp w w' file e)
  found_file-Read (err x) w w' file e = ground (arith, e)
  found_file-Read panic w w' file e = cc

  -- `get_file` returns a file only if the hub has answered the request for the encoded path without
  -- an error, and the file has the revision and the time of the headers and the content of the body.
  pub get_file-Served :
      (path : Text) (w w' : web.World) (file : FileContent)
      → get_file web api client device_token path w ≡ (ok (some file), w')
      → Served path w w' file
  unfolding get_file
  get_file-Served path w w' file e =
      let (url, made, rest) = of_result-bind _ _ w w' _ e in
      let (outcome, v, got, found) = >>=-eq-ok _ _ rest in
      let (resp, answered, read) = found_file-Read outcome v w' file found in
      let (sent, good) = send_request-ok (file_request url) w v resp (
        caught-ok (send_request web api client device_token (file_request url)) w v outcome got
        ∙ ap (λ (r : Result RequestError (Response web.World)). (r, v)) answered) in
      record {
        url = url;
        of_path = made;
        resp = resp;
        between = v;
        answered = sent;
        good = good;
        read = read;
      }
