-- ===== src/Couch/Client.antt =====
-- The CouchDB client of the hub (`CouchClient`, crates/hub-api/src/couch.rs): each operation is one
-- request, and its answer is read by its status. It fills the interface of the other modules.
pub mod Answered
pub mod Inserted
use sync_stuff_opinionated.Base.{
  ℕ, nat_beq, Bool, true, false, not, ◌||◌, Option, none, some, List, [], ◌∷◌, ◌++◌, if◌then◌else◌,
}
use sync_stuff_opinionated.Base.Text.{Text, Bytes, codes, ◌==◌}
use sync_stuff_opinionated.Base.Decimal.{decimal}
use sync_stuff_opinionated.Base.Effect.{
  Eff, Result, ok, err, panic, pure, fail, panics, of_result, ◌>>=◌, ◌>>◌, map_err, with_err,
  then_ok,
}
use sync_stuff_opinionated.Engine.Queue.{unwrap_or}
use sync_stuff_opinionated.Http.{
  Method, Auth, Body, Request, RequestError, Response, Web, is_success,
}
use sync_stuff_opinionated.Couch.{CouchError, PutResult, Json, RawChangesResponse, CouchClient}
use sync_stuff_opinionated.Couch.Leaves.{parse_open_revs}

pub record SchedulerJobInfo : Type 0 where
  pub error : Option Text
  pub last_updated : Option Text

pub record SchedulerJob : Type 0 where
  pub id : Text
  pub source : Text
  pub target : Text
  pub info : SchedulerJobInfo

pub record BulkDocResult : Type 0 where
  pub error : Option Text
  pub reason : Option Text

-- `serde_json::from_str` at the types of the answers, and the assignment to a field of a value,
-- which panics on what is no object.
pub record Wire (V : Type 0) : Type 0 where
  pub put_result : Text → Result Text PutResult
  pub changes : Text → Result Text (RawChangesResponse V)
  pub value : Text → Result Text V
  pub values : Bytes → Result Text (List V)
  pub jobs : Text → Result Text (List SchedulerJob)
  pub bulk : Text → Result Text (List BulkDocResult)
  pub set : V → Text → V → Option V
  pub from_utf8 : Bytes → Option Text

pub record Connection (Url : Type 0) : Type 0 where
  pub base : Url
  pub db : Text
  pub user : Text
  pub pass : Text

-- The statuses that the client tells apart.
abbrev pub status_ok : ℕ
status_ok = 200

abbrev pub status_created : ℕ
status_created = 201

abbrev pub status_not_found : ℕ
status_not_found = 404

abbrev pub status_conflict : ℕ
status_conflict = 409

abbrev pub status_precondition_failed : ℕ
status_precondition_failed = 412

abbrev pub transport_error : RequestError → CouchError
transport_error e = CouchError.transport e.message

abbrev pub bad_url : CouchError
bad_url = CouchError.bad_url (codes "url cannot be a base")

-- `unwrap_or_default` of a body that cannot be read.
abbrev pub body_or_empty : Result RequestError Text → Result CouchError Text
body_or_empty (ok body) = ok body
body_or_empty (err e) = ok []
body_or_empty panic = panic

-- The results of `_bulk_docs`: a conflict says that the revision is there already.
abbrev pub bulk_result : List BulkDocResult → Result CouchError (Unit {0})
bulk_result [] = ok tt
bulk_result (r ∷ results) =
    let rest = bulk_result results in
    elim r.error [
      | none ↦ rest
      | some other ↦
          if other == codes "conflict"
          then rest
          else err (CouchError.api status_conflict (unwrap_or r.reason other))
    ]

module _ (web : Web) where
  abbrev pub Action : Type 0 → Type 0
  Action A = Eff web.World CouchError A

  -- `CouchClient::new`.
  abbrev pub connect : Text → Text → Text → Text → Result CouchError (Connection web.Url)
  connect base_url db user pass =
      then_ok (map_err CouchError.bad_url (web.parse base_url))
        λ base. ok (record { base = base; db = db; user = user; pass = pass })

  abbrev pub push_all : web.Url → List Text → web.Url
  push_all url [] = url
  push_all url (segment ∷ segments) = push_all (web.push url segment) segments

  abbrev pub append : web.Url → List Text → Result CouchError web.Url
  append url segments = if web.can_be_base url then ok (push_all url segments) else err bad_url

  unfoldable pub fetch : Request web.Url → Action (Response web.World)
  fetch request = with_err transport_error (web.send request)

  unfoldable pub read_bytes : Response web.World → Action Bytes
  read_bytes resp = with_err transport_error resp.bytes

  -- `Err(Self::api_err(status, resp).await)`.
  unfoldable pub api_err : {A : Type 0} → Response web.World → Action A
  api_err resp w =
      let (body, w') = resp.text w in
      (then_ok (body_or_empty body) (λ text. err (CouchError.api resp.status text)), w')

  abbrev pub decoded : {A : Type 0} → Text → Result Text A → Result CouchError A
  decoded text r = map_err (λ e. CouchError.decode (e ++ codes ": " ++ text)) r

  unfoldable pub json_or_err : {A : Type 0} → (Text → Result Text A) → Response web.World → Action A
  json_or_err from_str resp =
      if is_success resp.status
      then with_err transport_error resp.text >>= (λ text. of_result (decoded text (from_str text)))
      else api_err resp

  module _ (J : Json) (wire : Wire J.Value) (c : Connection web.Url) where
    abbrev pub req : Method → web.Url → Body → Request web.Url
    req method url body = record {
      method = method;
      url = url;
      auth = Auth.basic c.user c.pass;
      body = body;
      timeout = none;
    }

    abbrev pub db_url : Result CouchError web.Url
    db_url = append c.base (c.db ∷ [])

    abbrev pub doc_url : Text → Result CouchError web.Url
    doc_url id = then_ok db_url λ url. append url (id ∷ [])

    unfoldable pub ensure_db : Action (Unit {0})
    ensure_db = do
      url ← of_result db_url
      resp ← fetch (req Method.put url Body.no_body)
      if nat_beq resp.status status_created || nat_beq resp.status status_precondition_failed
          then pure tt
          else api_err resp

    unfoldable pub replication_jobs : Action (List SchedulerJob)
    replication_jobs = do
      url ← of_result (append c.base (codes "_scheduler" ∷ codes "jobs" ∷ []))
      resp ← fetch (req Method.get url Body.no_body)
      json_or_err wire.jobs resp

    -- A pair of the query, if there is a value.
    abbrev pub pair_of : Text → Option Text → web.Url → web.Url
    pair_of key none url = url
    pair_of key (some value) url = web.append_pair url key value

    abbrev pub changes_url : Result CouchError web.Url
    changes_url = then_ok db_url λ url. append url (codes "_changes" ∷ [])

    abbrev pub all_docs : web.Url → web.Url
    all_docs url = web.append_pair url (codes "style") (codes "all_docs")

    abbrev pub docs_pairs : Bool → web.Url → web.Url
    docs_pairs true url =
        web.append_pair (web.append_pair url (codes "include_docs") (codes "true"))
          (codes "conflicts") (codes "true")
    docs_pairs false url = url

    unfoldable pub changes_inner : Option Text → Bool → Action (RawChangesResponse J.Value)
    changes_inner since with_docs = do
      url ← of_result changes_url
      resp ← fetch (
          req Method.get (pair_of (codes "since") since (docs_pairs with_docs (all_docs url)))
            Body.no_body)
      json_or_err wire.changes resp

    unfoldable pub changes_longpoll : Option Text → ℕ → Action (RawChangesResponse J.Value)
    changes_longpoll since timeout_secs = do
      url ← of_result changes_url
      let longpoll = web.append_pair (all_docs url) (codes "feed") (codes "longpoll")
      let timed = web.append_pair longpoll (codes "timeout") (decimal timeout_secs)
      resp ← fetch (req Method.get (pair_of (codes "since") since timed) Body.no_body)
      json_or_err wire.changes resp

    -- A document, or none for an answer of 404.
    abbrev pub doc_or_none : Response web.World → Action (Option J.Value)
    doc_or_none resp =
        if nat_beq resp.status status_not_found
        then pure none
        else (json_or_err wire.value resp >>= λ doc. pure (some doc))

    unfoldable pub get_doc : Text → Action (Option J.Value)
    get_doc id = do
      url ← of_result (doc_url id)
      resp ←
          fetch
            (req Method.get (web.append_pair url (codes "conflicts") (codes "true")) Body.no_body)
      doc_or_none resp

    -- The query for a revision with its history.
    abbrev pub with_revs : Text → Text → web.Url → web.Url
    with_revs key value url =
        web.append_pair (web.append_pair url key value) (codes "revs") (codes "true")

    unfoldable pub get_doc_at_rev : Text → Text → Action (Option J.Value)
    get_doc_at_rev id rev = do
      url ← of_result (doc_url id)
      resp ← fetch (req Method.get (with_revs (codes "rev") rev url) Body.no_body)
      doc_or_none resp

    unfoldable pub get_attachment_at_rev : Text → Text → Option Text → Action Bytes
    get_attachment_at_rev id attachment rev = do
      url ← of_result (then_ok (doc_url id) λ doc. append doc (attachment ∷ []))
      resp ← fetch (req Method.get (pair_of (codes "rev") rev url) Body.no_body)
      if is_success resp.status then read_bytes resp else api_err resp

    abbrev pub get_attachment : Text → Text → Action Bytes
    get_attachment id attachment = get_attachment_at_rev id attachment none

    -- The content type of a response, empty if there is none.
    abbrev pub content_type_of : Response web.World → Text
    content_type_of resp = elim (resp.header (codes "content-type")) [
      | none ↦ []
      | some value ↦ unwrap_or value []
    ]

    unfoldable pub get_doc_leaves : Text → Action (List J.Value)
    get_doc_leaves id = do
      url ← of_result (doc_url id)
      resp ← fetch (req Method.get (with_revs (codes "open_revs") (codes "all") url) Body.no_body)
      if nat_beq resp.status status_not_found
          then pure []
          else if not (is_success resp.status)
          then api_err resp
          else (read_bytes resp >>= λ body.
              pure
                (parse_open_revs wire.from_utf8 wire.value wire.values (content_type_of resp) body))

    unfoldable pub put_result : Response web.World → Text → Action PutResult
    put_result resp id =
        if nat_beq resp.status status_ok || nat_beq resp.status status_created
        then json_or_err wire.put_result resp
        else if nat_beq resp.status status_conflict
        then fail (CouchError.rev_conflict id)
        else api_err resp

    -- `body["_rev"] = json!(r)`.
    abbrev pub with_rev : Option Text → J.Value → Option J.Value
    with_rev none body = some body
    with_rev (some rev) body = wire.set body (codes "_rev") (J.string rev)

    abbrev pub put_body : Text → J.Value → Action PutResult
    put_body id body = do
      url ← of_result (doc_url id)
      resp ← fetch (req Method.put url (Body.json (J.to_string body)))
      put_result resp id

    unfoldable pub put_doc : Text → Option Text → J.Value → Action PutResult
    put_doc id rev body = elim (with_rev rev body) [
      | none ↦ panics
      | some conditioned ↦ put_body id conditioned
    ]

    unfoldable pub put_attachment : Text → Text → Text → Bytes → Action PutResult
    put_attachment id rev content_type bytes = do
      url ← of_result (then_ok (doc_url id) λ doc. append doc (codes "content" ∷ []))
      resp ←
          fetch
            (req Method.put (web.append_pair url (codes "rev") rev) (Body.raw content_type bytes))
      put_result resp id

    unfoldable pub delete_doc : Text → Text → Action PutResult
    delete_doc id rev = do
      url ← of_result (doc_url id)
      resp ← fetch (req Method.delete (web.append_pair url (codes "rev") rev) Body.no_body)
      put_result resp id

    abbrev pub bulk_docs : J.Value → J.Value
    bulk_docs doc =
        J.object ((codes "new_edits", J.boolean false) ∷ (codes "docs", J.array (doc ∷ [])) ∷ [])

    unfoldable pub put_revision : J.Value → Action (Unit {0})
    put_revision doc = do
      url ← of_result (then_ok db_url λ db. append db (codes "_bulk_docs" ∷ []))
      resp ← fetch (req Method.post url (Body.json (J.to_string (bulk_docs doc))))
      if is_success resp.status
          then (json_or_err wire.bulk resp >>= λ results. of_result (bulk_result results))
          else api_err resp

    abbrev pub client : CouchClient web.World J.Value
    client = record {
      changes = λ since. changes_inner since false;
      changes_longpoll = changes_longpoll;
      changes_with_docs = λ since. changes_inner since true;
      get_doc = get_doc;
      get_doc_at_rev = get_doc_at_rev;
      get_attachment_at_rev = get_attachment_at_rev;
      get_doc_leaves = get_doc_leaves;
      put_doc = put_doc;
      put_attachment = put_attachment;
      delete_doc = delete_doc;
      put_revision = put_revision;
    }
