-- ===== src/Couch/Client/Inserted.antt =====
-- What it takes for the client of CouchDB to say that a revision is there, or that there is no
-- document (crates/hub-api/src/couch.rs).
use mathlib.Core.Path.{subst}
use sync_stuff_opinionated.Base.{
  ◌≡◌, refl, ap, ◌∙◌, nat_beq, Bool, true, false, none, some, List, [], ◌∷◌, arith, if◌then◌else◌,
  ◌⊎◌, ◌↔◌,
}
use sync_stuff_opinionated.Base.Text.{Text, codes}
use sync_stuff_opinionated.Base.Lists.{All}
use sync_stuff_opinionated.Base.Effect.{
  Result, ok, pure, of_result, of_result-ok, of_result-bind, ◌>>=◌, map_err, then_ok, >>=-eq-ok,
  >>=-of_ok,
}
use sync_stuff_opinionated.Http.{Method, Body, Request, RequestError, Response, Web, is_success}
use sync_stuff_opinionated.Couch.{CouchError, Json}
use sync_stuff_opinionated.Couch.Client.{
  BulkDocResult, Wire, Connection, transport_error, bulk_result, fetch, api_err, json_or_err, req,
  append, db_url, doc_url, doc_or_none, get_doc, bulk_docs, put_revision,
}
use sync_stuff_opinionated.Couch.Client.Answered.{fetch-ok, api_err-ok, Parsed, json_or_err-Parsed}

-- A result that says that the revision is there.
abbrev pub Present : BulkDocResult → Type 0
Present r = (r.error ≡ none) ⊎ (r.error ≡ some (codes "conflict"))

bulk_result-Present :
    (results : List BulkDocResult) → (bulk_result results ≡ ok tt) ↔ All Present results
bulk_result-Present [] = (λ _. tt, λ _. refl)
bulk_result-Present (r ∷ results) = ground (arith, bulk_result-Present results)

module _ (web : Web) where
  module _ (J : Json) (wire : Wire J.Value) (c : Connection web.Url) where
    -- What an inserted revision rests on: the server has taken the request, and each result of its
    -- answer says that the revision is there.
    pub record Inserted (doc : J.Value) (w w' : web.World) : Type 0 where
      pub url : web.Url
      pub database :
          then_ok (db_url web J wire c) (λ db. append web db (codes "_bulk_docs" ∷ [])) ≡ ok url
      pub resp : Response web.World
      pub between : web.World
      pub sent :
          web.send
            (req web J wire c Method.post url
              (Body.json (J.to_string (bulk_docs web J wire c doc))))
            w
          ≡ (ok resp, between)
      pub results : List BulkDocResult
      pub told : Parsed web wire.bulk resp between w' results
      pub present : All Present results

    -- `put_revision` succeeds only if the server has answered the insertion of the revision with a
    -- success, and each of its results has no error or says that the revision is there already.
    pub put_revision-Inserted :
        (doc : J.Value) (w w' : web.World)
        → put_revision web J wire c doc w ≡ (ok tt, w')
        → Inserted doc w w'
    unfolding put_revision
    put_revision-Inserted doc w w' e =
        let (url, made, rest) = of_result-bind _ _ w w' tt e in
        let (resp, v, got, rest') = >>=-eq-ok _ _ rest in
        onward url resp v made got (is_success resp.status) rest'
      where
        onward :
            (url : web.Url) (resp : Response web.World) (v : web.World)
            → then_ok (db_url web J wire c) (λ db. append web db (codes "_bulk_docs" ∷ [])) ≡ ok url
            → fetch web
                (req web J wire c Method.post url
                  (Body.json (J.to_string (bulk_docs web J wire c doc))))
                w
              ≡ (ok resp, v)
            → (b : Bool)
            → (if b
                  then json_or_err web wire.bulk resp
                    >>= (λ results. of_result (bulk_result results))
                  else api_err web resp)
                v
              ≡ (ok tt, w')
            → Inserted doc w w'
        onward url resp v made got true f =
            let (results, u, read, checked) = >>=-eq-ok _ _ f in
            let (good, same) = of_result-ok _ u w' tt checked in
            record {
              url = url;
              database = made;
              resp = resp;
              between = v;
              sent = fetch-ok web _ w v resp got;
              results = results;
              told =
                  subst (λ x. Parsed web wire.bulk resp v x results) same
                    (json_or_err-Parsed web wire.bulk resp v u results read);
              present = (bulk_result-Present results).0 good;
            }
        onward url resp v made got false f = absurd (api_err-ok web resp v w' tt f)

    doc_or_none_iff :
        (resp : Response web.World) (w w' : web.World)
        → (doc_or_none web J wire c resp w ≡ (ok none, w')) ↔ ((resp.status ≡ 404) × (w ≡ w'))
    unfolding pure
    doc_or_none_iff resp w w' = onward (nat_beq resp.status 404) refl
      where
        onward :
            (b : Bool)
            → nat_beq resp.status 404 ≡ b
            → ((if b
                    then pure none
                    else (json_or_err web wire.value resp >>= λ doc. pure (some doc)))
                  w
                ≡ (ok none, w'))
              ↔ ((resp.status ≡ 404) × (w ≡ w'))
        onward true e = (λ f. (ground (arith, e), cc), λ h. cc (h.1))
        onward false e =
            (λ f. let (doc, v, got, rest) = >>=-eq-ok _ _ f in cc, λ h. absurd (ground arith))

    abbrev pub doc_request : web.Url → Request web.Url
    doc_request url =
        req web J wire c Method.get (web.append_pair url (codes "conflicts") (codes "true"))
          Body.no_body

    -- The request for the document was answered with a status of 404.
    pub record Missing (id : Text) (w w' : web.World) : Type 0 where
      pub url : web.Url
      pub resp : Response web.World
      pub of_doc : doc_url web J wire c id ≡ ok url
      pub sent : web.send (doc_request url) w ≡ (ok resp, w')
      pub status : resp.status ≡ 404

    -- `get_doc` finds no document exactly when the server answers its request with a status of 404.
    pub get_doc-none_iff :
        (id : Text) (w w' : web.World)
        → (get_doc web J wire c id w ≡ (ok none, w')) ↔ Missing id w w'
    unfolding get_doc of_result fetch
    get_doc-none_iff id w w' = (forth, back)
      where
        forth : get_doc web J wire c id w ≡ (ok none, w') → Missing id w w'
        forth e =
            let (url, made, rest) = of_result-bind _ _ w w' none e in
            let (resp, v, got, rest') = >>=-eq-ok _ _ rest in
            let (status, same) = (doc_or_none_iff resp v w').0 rest' in
            record {
              url = url;
              resp = resp;
              of_doc = made;
              sent =
                  subst (λ u. web.send (doc_request url) w ≡ (ok resp, u)) same
                    (fetch-ok web (doc_request url) w v resp got);
              status = status;
            }

        back : Missing id w w' → get_doc web J wire c id w ≡ (ok none, w')
        back h =
            >>=-of_ok (of_result (doc_url web J wire c id)) _
              (ap (λ (r : Result CouchError web.Url). (r, w)) h.of_doc)
            ∙ >>=-of_ok (fetch web (doc_request h.url)) (doc_or_none web J wire c) (
                ap
                  (λ (out : Result RequestError (Response web.World) × web.World).
                    (map_err transport_error out.0, out.1))
                  h.sent)
            ∙ (doc_or_none_iff h.resp w' w').1 (h.status, refl)
