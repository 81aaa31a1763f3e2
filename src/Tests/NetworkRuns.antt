-- ===== src/Tests/NetworkRuns.antt =====
-- Runs of the clients over a network, and their theorems at concrete inputs.
use sync_stuff_opinionated.Base.{
  ℕ, ◌+◌, ◌-◌, ltb, ◌≡◌, refl, ◌↔◌, ◌≢◌, false, none, some, List, [], ◌∷◌, map, arith,
  if◌then◌else◌,
}
use sync_stuff_opinionated.Base.Text.{Text, codes, text_dec}
use sync_stuff_opinionated.Base.Int.{pos}
use sync_stuff_opinionated.Base.Split.{split, join, has}
use sync_stuff_opinionated.Base.Trim.{trim}
use sync_stuff_opinionated.Base.Decimal.{decimal}
use sync_stuff_opinionated.Base.Effect.{ok, panic, pure, with_log, of_result, ◌>>=◌, then_ok, err}
use sync_stuff_opinionated.Protocol.{FileContent}
use sync_stuff_opinionated.Couch.{PutResult}
use sync_stuff_opinionated.Couch.Client.{
  SchedulerJob, fetch, json_or_err, put_result, put_doc, put_revision, get_doc, req, doc_url,
  with_rev,
}
use sync_stuff_opinionated.Couch.Client.Answered.{Acknowledged, put_doc-Acknowledged}
use sync_stuff_opinionated.Couch.Client.Inserted.{
  Inserted, Missing, put_revision-Inserted, get_doc-none_iff,
}
use sync_stuff_opinionated.Couch.Leaves.{parse_open_revs, newline}
use sync_stuff_opinionated.Couch.Leaves.Framed.{Line, frame, leaf, line_of, parse_open_revs-join}
use sync_stuff_opinionated.Http.{Method, Body}
use sync_stuff_opinionated.Hub.{
  slash, encode_path, send_request, get_file, file_content, found_file,
}
use sync_stuff_opinionated.Hub.Encoded.{decode-encode_path}
use sync_stuff_opinionated.Hub.Served.{Served, get_file-Served}
use sync_stuff_opinionated.Notify.{send, post_to, accepted}
use sync_stuff_opinionated.Watcher.Health.{describe_problem, check_job, check_jobs}
use sync_stuff_opinionated.Watcher.Reported.{messages, after_sends, check_jobs-Reported}
use sync_stuff_opinionated.Env.{
  Var, present, list_env, default_env, required_env, optional_env, empty_env,
}
use sync_stuff_opinionated.Env.Defaults.{or_else, env_optional}
use sync_stuff_opinionated.Tests.Database.{docs}
use sync_stuff_opinionated.Tests.Network.{network, wire, connection, api, http, discord}

abbrev put_answer : PutResult
put_answer = record { id = codes "f"; rev = codes "2-b" }

stored :
    put_doc (network 201) docs wire connection (codes "f") none (codes "x", []) 0
    ≡ (ok put_answer, 2)
unfolding put_doc put_result json_or_err fetch of_result ◌>>=◌
stored = refl

put_doc-Acknowledged_example :
    (url : List Text) × (conditioned : Text × List Text) × (doc_url
        (network 201)
        docs
        wire
        connection
        (codes "f")
      ≡ ok url)
    × (with_rev (network 201) docs wire connection none (codes "x", []) ≡ some conditioned)
    × Acknowledged
        (network 201)
        docs
        wire
        connection
        (req (network 201) docs wire connection Method.put url (Body.json conditioned.0))
        0
        2
        put_answer
put_doc-Acknowledged_example =
    put_doc-Acknowledged (network 201) docs wire connection (codes "f") none (codes "x", []) 0 2
      put_answer stored

inserted : put_revision (network 201) docs wire connection (codes "2-b", []) 0 ≡ (ok tt, 2)
unfolding put_revision json_or_err fetch of_result text_dec ◌>>=◌
inserted = refl

put_revision-Inserted_example : Inserted (network 201) docs wire connection (codes "2-b", []) 0 2
put_revision-Inserted_example =
    put_revision-Inserted (network 201) docs wire connection (codes "2-b", []) 0 2 inserted

get_doc-none_iff_example :
    (get_doc (network 404) docs wire connection (codes "f") 0 ≡ (ok none, 1))
    ↔ Missing (network 404) docs wire connection (codes "f") 0 1
get_doc-none_iff_example = get_doc-none_iff (network 404) docs wire connection (codes "f") 0 1

-- A body with one leaf, the empty object.
abbrev lines : List (Line Text)
lines = frame (codes "--b") ∷ leaf (codes "{}") ∷ []

parse_open_revs-join_example :
    parse_open_revs some ok
      (λ content. ok [])
      (codes "multipart/mixed")
      (join newline (map (line_of some ok (λ text. text)) lines))
    ≡ codes "{}" ∷ []
unfolding trim
parse_open_revs-join_example =
    parse_open_revs-join some ok (λ text. text) (λ content. ok []) (codes "multipart/mixed") lines
      refl refl
      (
        (refl, refl),
        (record { fields = []; shape = refl; one_line = refl; utf8 = refl; read = refl }, tt),
      )

-- An encoding without slashes: the characters from the slash on are shifted.
abbrev shift : ℕ → ℕ
shift c = if ltb c 47 then c else c + 1

abbrev unshift : ℕ → ℕ
unshift c = if ltb c 47 then c else c - 1

shift-back : (text : Text) → map unshift (map shift text) ≡ text
shift-back [] = refl
shift-back (c ∷ text) =
    let same : unshift (shift c) ≡ c = ground arith in cc (same, shift-back text)

shift-free : (text : Text) → has slash (map shift text) ≡ false
shift-free [] = refl
shift-free (c ∷ text) = ground (arith, shift-free text)

decode-encode_path_example :
    (split slash (encode_path (map shift) (codes "a/b"))
      ≡ map (map shift) (split slash (codes "a/b")))
    × (join slash (map (map unshift) (split slash (encode_path (map shift) (codes "a/b"))))
        ≡ codes "a/b")
decode-encode_path_example =
    decode-encode_path (map shift) (map unshift) shift-back shift-free (codes "a/b")

abbrev served : FileContent
served = record {
  rev = codes "1-a";
  mtime = pos 5;
  content_type = codes "application/octet-stream";
  content = codes "B";
}

found : get_file (network 200) api http (codes "token") (codes "a/b") 0 ≡ (ok (some served), 2)
unfolding get_file send_request found_file file_content of_result text_dec decimal pure ◌>>=◌
found = refl

get_file-Served_example : Served (network 200) api http (codes "token") (codes "a/b") 0 2 served
get_file-Served_example =
    get_file-Served (network 200) api http (codes "token") (codes "a/b") 0 2 served found

abbrev failing : SchedulerJob
failing = record {
  id = codes "a-to-b";
  source = codes "a";
  target = codes "b";
  info = record { error = some (codes "timeout"); last_updated = none };
}

calm : (message : Text) (w : ℕ) → (send (network 500) docs discord message w).0 ≢ panic
unfolding send post_to accepted of_result ◌>>=◌
calm message w e = cc

check_jobs-Reported_example :
    check_jobs
      (network 500)
      docs
      wire
      connection
      discord
      (λ _ text. none)
      300
      (failing ∷ failing ∷ [])
      0
    ≡ (
      ok tt,
      after_sends
          (network 500)
          docs
          wire
          connection
          discord
          (λ text. none)
          300
          (messages
            (network 500)
            docs
            wire
            connection
            discord
            (λ text. none)
            300
            (failing ∷ failing ∷ []))
          0,
    )
check_jobs-Reported_example =
    check_jobs-Reported (network 500) docs wire connection discord (λ text. none) 300 calm
      (failing ∷ failing ∷ []) 0

-- Both failing jobs are reported, although no alert is accepted.
two_messages :
    check_jobs
      (network 500)
      docs
      wire
      connection
      discord
      (λ _ text. none)
      300
      (failing ∷ failing ∷ [])
      0
    ≡ (ok tt, 4)
unfolding check_jobs check_job describe_problem send post_to accepted of_result with_log pure trim
    ◌>>=◌
two_messages = refl

abbrev tokens : Text → Var
tokens key = present (codes "a, b")

env_optional_example :
    (default_env tokens list_env (codes "TOKENS") []
      ≡ then_ok (optional_env tokens list_env (codes "TOKENS")) (or_else tokens list_env (ok [])))
    × (required_env tokens list_env (codes "TOKENS")
        ≡ then_ok
            (optional_env tokens list_env (codes "TOKENS"))
            (or_else tokens list_env (err (empty_env (codes "TOKENS")))))
env_optional_example = env_optional tokens list_env (codes "TOKENS") []
