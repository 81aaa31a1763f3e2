-- ===== src/Couch/Client/Answered.antt =====
-- What the answers of CouchDB make of a call of its client (crates/hub-api/src/couch.rs): which
-- answers acknowledge a write, insert a revision, or say that there is no document.
use mathlib.Core.Path.{subst}
use sync_stuff_opinionated.Base.{
  ◌≡◌, refl, ap, nat_beq, Bool, true, false, ◌||◌, Option, none, some, arith, if◌then◌else◌, ◌⊎◌,
}
use sync_stuff_opinionated.Base.Text.{Text}
use sync_stuff_opinionated.Base.Effect.{
  Result, ok, err, panic, fail, panics, of_result, of_result-ok, of_result-bind, ◌>>=◌, with_err,
  then_ok, >>=-eq-ok, with_err-ok,
}
use sync_stuff_opinionated.Http.{Method, Body, Request, RequestError, Response, Web, is_success}
use sync_stuff_opinionated.Couch.{CouchError, PutResult, Json}
use sync_stuff_opinionated.Couch.Client.{
  Wire, Connection, transport_error, fetch, api_err, json_or_err, decoded, body_or_empty, Action,
  req, doc_url, put_result, with_rev, put_body, put_doc,
}

module _ (web : Web) where
  pub fetch-ok :
      (request : Request web.Url) (w w' : web.World) (resp : Response web.World)
      → fetch web request w ≡ (ok resp, w')
      → web.send request w ≡ (ok resp, w')
  unfolding fetch
  fetch-ok request w w' resp e = with_err-ok transport_error (web.send request) w w' resp e

  pub api_err-ok :
      {A : Type 0} (resp : Response web.World) (w w' : web.World) (a : A)
      → ¬ (api_err web resp w ≡ (ok a, w'))
  unfolding api_err
  api_err-ok {A} resp w w' a e =
      onward (resp.text w).0 (ap (λ (out : Result CouchError A × web.World). out.0) e)
    where
      refused : Text → Result CouchError A
      refused text = err (CouchError.api resp.status text)

      onward : (body : Result RequestError Text) → ¬ (then_ok (body_or_empty body) refused ≡ ok a)
      onward (ok text) f = cc
      onward (err x) f = cc
      onward panic f = cc

  -- The body of a response with a status of success has been read as the value.
  pub record Parsed {A : Type 0} (from_str : Text → Result Text A) (resp : Response web.World)
      (w w' : web.World) (a : A) : Type 0 where
    pub success : is_success resp.status ≡ true
    pub text : Text
    pub received : resp.text w ≡ (ok text, w')
    pub read : from_str text ≡ ok a

  decoded-ok :
      {A : Type 0} (text : Text) (r : Result Text A) (a : A) → decoded web text r ≡ ok a → r ≡ ok a
  decoded-ok text (ok b) a e = cc
  decoded-ok text (err x) a e = cc
  decoded-ok text panic a e = cc

  pub json_or_err-Parsed :
      {A : Type 0} (from_str : Text → Result Text A) (resp : Response web.World) (w w' : web.World)
      (a : A)
      → json_or_err web from_str resp w ≡ (ok a, w')
      → Parsed from_str resp w w' a
  unfolding json_or_err
  json_or_err-Parsed {A} from_str resp w w' a e = onward (is_success resp.status) refl e
    where
      onward :
          (b : Bool)
          → is_success resp.status ≡ b
          → (if b
                then with_err transport_error resp.text
                  >>= (λ text. of_result (decoded web text (from_str text)))
                else api_err web resp)
              w
            ≡ (ok a, w')
          → Parsed from_str resp w w' a
      onward true good f =
          let (text, v, got, made) = >>=-eq-ok _ _ f in
          let (parsed, same) = of_result-ok _ v w' a made in
          record {
            success = good;
            text = text;
            received =
                with_err-ok transport_error resp.text w w' text
                  (subst (λ u. with_err transport_error resp.text w ≡ (ok text, u)) same got);
            read = decoded-ok text (from_str text) a parsed;
          }
      onward false bad f = absurd (api_err-ok resp w w' a f)

  module _ (J : Json) (wire : Wire J.Value) (c : Connection web.Url) where
    -- A write that the server has acknowledged: the request was sent, the answer has the status 200
    -- or 201, and its body is the result.
    pub record Acknowledged (request : Request web.Url) (w w' : web.World) (r : PutResult)
        : Type 0 where
      pub resp : Response web.World
      pub between : web.World
      pub sent : web.send request w ≡ (ok resp, between)
      pub status : (resp.status ≡ 200) ⊎ (resp.status ≡ 201)
      pub told : Parsed wire.put_result resp between w' r

    put_result-ok :
        (resp : Response web.World) (id : Text) (w w' : web.World) (r : PutResult)
        → put_result web J wire c resp id w ≡ (ok r, w')
        → ((resp.status ≡ 200) ⊎ (resp.status ≡ 201)) × Parsed wire.put_result resp w w' r
    unfolding put_result fail
    put_result-ok resp id w w' r e =
        onward (nat_beq resp.status 200 || nat_beq resp.status 201) refl (nat_beq resp.status 409) e
      where
        onward :
            (b : Bool)
            → (nat_beq resp.status 200 || nat_beq resp.status 201) ≡ b
            → (d : Bool)
            → (if b
                  then json_or_err web wire.put_result resp
                  else if d
                  then fail (CouchError.rev_conflict id)
                  else api_err web resp)
                w
              ≡ (ok r, w')
            → ((resp.status ≡ 200) ⊎ (resp.status ≡ 201)) × Parsed wire.put_result resp w w' r
        onward true good d f = (ground (arith, good), json_or_err-Parsed _ resp w w' r f)
        onward false bad true f = cc
        onward false bad false f = absurd (api_err-ok resp w w' r f)

    -- A request whose answer is read as that of a write.
    write-Acknowledged :
        (request : Request web.Url) (id : Text) (w w' : web.World) (r : PutResult)
        → (fetch web request >>= λ resp. put_result web J wire c resp id) w ≡ (ok r, w')
        → Acknowledged request w w' r
    write-Acknowledged request id w w' r e =
        let (resp, v, got, rest) = >>=-eq-ok _ _ e in
        let (status, told) = put_result-ok resp id v w' r rest in
        record {
          resp = resp;
          between = v;
          sent = fetch-ok request w v resp got;
          status = status;
          told = told;
        }

    -- `put_doc` returns a result only if the server has acknowledged, by a status of 200 or 201, a
    -- request to put the document under the revision that the write is conditioned on, and the
    -- result is what the answer says.
    pub put_doc-Acknowledged :
        (id : Text) (rev : Option Text) (body : J.Value) (w w' : web.World) (r : PutResult)
        → put_doc web J wire c id rev body w ≡ (ok r, w')
        → (url : web.Url) × (conditioned : J.Value) × (doc_url web J wire c id ≡ ok url)
          × (with_rev web J wire c rev body ≡ some conditioned)
          × Acknowledged
              (req web J wire c Method.put url (Body.json (J.to_string conditioned)))
              w
              w'
              r
    unfolding put_doc panics
    put_doc-Acknowledged id rev body w w' r e = onward (with_rev web J wire c rev body) refl e
      where
        onward :
            (conditioned : Option J.Value)
            → with_rev web J wire c rev body ≡ conditioned
            → (elim conditioned as (λ _. Action web PutResult) [
              | none ↦ panics
              | some b ↦ put_body web J wire c id b
            ])
                w
              ≡ (ok r, w')
            → (url : web.Url) × (conditioned : J.Value) × (doc_url web J wire c id ≡ ok url)
              × (with_rev web J wire c rev body ≡ some conditioned)
              × Acknowledged
                  (req web J wire c Method.put url (Body.json (J.to_string conditioned)))
                  w
                  w'
                  r
        onward none f g = cc
        onward (some b) f g =
            let (url, made, rest) = of_result-bind _ _ w w' r g in
            (url, b, made, f, write-Acknowledged _ id w w' r rest)
