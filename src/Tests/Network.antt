-- ===== src/Tests/Network.antt =====
-- A network for the runs: a URL is the list of its parts, the state counts the requests and the
-- bodies that were read, and every request is answered with the same status.
use sync_stuff_opinionated.Base.{
  ℕ, ◌+◌, true, Option, none, some, List, [], ◌∷◌, ◌++◌, if◌then◌else◌,
}
use sync_stuff_opinionated.Base.Text.{Text, codes, ◌==◌}
use sync_stuff_opinionated.Base.Decimal.{decimal}
use sync_stuff_opinionated.Base.Effect.{ok}
use sync_stuff_opinionated.Http.{Response, Web}
use sync_stuff_opinionated.Http.Client.{HttpClient}
use sync_stuff_opinionated.Couch.Client.{Wire, Connection}
use sync_stuff_opinionated.Notify.{DiscordClient}
use sync_stuff_opinionated.Hub.{Api}
use sync_stuff_opinionated.Tests.Database.{Doc}

abbrev pub headers : Text → Option (Option Text)
headers name =
    if name == codes "x-file-rev"
    then some (some (codes "1-a"))
    else if name == codes "x-file-mtime"
    then some (some (codes "5"))
    else none

abbrev pub response : ℕ → Response ℕ
response status = record {
  status = status;
  header = headers;
  text = λ n. (ok (codes "2-b"), n + 1);
  bytes = λ n. (ok (codes "B"), n + 1);
}

abbrev pub network : ℕ → Web
network status = record {
  World = ℕ;
  Url = List Text;
  parse = λ text. ok (text ∷ []);
  can_be_base = λ url. true;
  push = λ url segment. url ++ segment ∷ [];
  append_pair = λ url key value. url ++ (key ++ codes "=" ++ value) ∷ [];
  send = λ request n. (ok (response status), n + 1);
  status_message = decimal;
}

-- A server that says that every revision is there already.
abbrev pub wire : Wire Doc
wire = record {
  put_result = λ text. ok (record { id = codes "f"; rev = text });
  changes = λ text. ok (record { results = []; last_seq = (text, []) });
  value = λ text. ok (text, []);
  values = λ content. ok [];
  jobs = λ text. ok [];
  bulk = λ text. ok (record { error = some (codes "conflict"); reason = none } ∷ []);
  set = λ doc key value. some doc;
  from_utf8 = λ content. some content;
}

abbrev pub connection : Connection (List Text)
connection = record {
  base = codes "http" ∷ [];
  db = codes "filesync";
  user = codes "hub";
  pass = codes "hub-pass";
}

abbrev pub api : Api
api = record {
  metadata = λ content. ok content;
  changes = λ content. ok (record { changes = []; checkpoint = content });
  results = λ content. ok [];
  pushed = λ changes. codes "[]";
  encode = λ text. text;
}

abbrev pub http : HttpClient (List Text)
http = record { base_url = codes "http" ∷ [] }

abbrev pub discord : DiscordClient
discord = record { webhook_url = codes "hook" }
