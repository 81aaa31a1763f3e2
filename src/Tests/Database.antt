-- ===== src/Tests/Database.antt =====
-- A database for the runs: the state counts the writes and the deletions, a document is a revision
-- with the list of its conflicts, and texts never merge.
use sync_stuff_opinionated.Base.{ℕ, ◌+◌, true, false, none, some, List, [], ◌∷◌, map, if◌then◌else◌}
use sync_stuff_opinionated.Base.Text.{Text, codes, ◌==◌}
use sync_stuff_opinionated.Base.Int.{pos}
use sync_stuff_opinionated.Base.Effect.{ok, err}
use sync_stuff_opinionated.Protocol.{PushChange}
use sync_stuff_opinionated.Couch.{rev_conflict, Json, CouchClient, Backend}
use sync_stuff_opinionated.Resolver.{Leaf}

abbrev pub Doc : Type 0
Doc = Text × List Text

abbrev pub docs : Json
docs = record {
  Value = Doc;
  get = λ doc key.
      if key == codes "_rev"
      then some (doc.0, [])
      else if key == codes "_conflicts"
      then some ([], doc.1)
      else if key == codes "_revisions"
      then some doc
      else none;
  as_str = λ doc. some doc.0;
  as_bool = λ doc. none;
  as_i64 = λ doc. none;
  as_array = λ doc. some (map (λ t. (t, [])) doc.1);
  revisions = λ doc. some (record { start = 1; ids = codes "a" ∷ [] });
  null = ([], []);
  string = λ t. (t, []);
  boolean = λ b. ([], []);
  number = λ n. ([], []);
  array = λ vs. ([], map (λ (v : Doc). v.0) vs);
  object = λ fields. ([], []);
  to_string = λ doc. doc.0;
}

abbrev pub Writes : Type 0
Writes = ℕ × ℕ

-- A document "f" is there, and a write on a stale base is refused.
abbrev pub couch : CouchClient Writes Doc
couch = record {
  changes = λ since w. (ok (record { results = []; last_seq = (codes "7", []) }), w);
  changes_longpoll =
      λ since timeout w. (ok (record { results = []; last_seq = (codes "7", []) }), w);
  changes_with_docs = λ since w. (ok (record { results = []; last_seq = (codes "7", []) }), w);
  get_doc = λ path w. (ok (if path == codes "f" then some (codes "3-m", []) else none), w);
  get_doc_at_rev = λ path rev w. (ok (some (rev, [])), w);
  get_attachment_at_rev = λ path name rev w. (ok (codes "base"), w);
  get_doc_leaves = λ path w. (ok [], w);
  put_doc = λ path rev doc w. elim rev [
    | none ↦ (ok (record { id = path; rev = codes "1-a" }), (w.0 + 1, w.1))
    | some base ↦ (
      if base == codes "1-a"
          then err (rev_conflict path)
          else ok (record { id = path; rev = codes "4-n" }),
      (w.0 + 1, w.1),
    )
  ];
  put_attachment = λ path rev content_type content w.
      (ok (record { id = path; rev = codes "5-o" }), (w.0 + 1, w.1));
  delete_doc = λ path rev w. (ok (record { id = path; rev = codes "6-p" }), (w.0, w.1 + 1));
  put_revision = λ doc w. (ok tt, (w.0 + 1, w.1));
}

abbrev pub database : Backend
database = record {
  json = docs;
  World = Writes;
  couch = couch;
  today = λ w. record { day = 1; month = 2; year = 2026 };
  from_utf8 = λ b. some b;
  into_bytes = λ t. t;
  merge_strings = λ base mine theirs. ok (record { has_conflicts = true; content = base });
  base64_encode = λ b. b;
  base64_decode = λ t. ok t;
}

-- A database where the document has a conflict, and where every write meets a new revision.
abbrev pub contested : Backend
contested = record database {
  couch = record couch {
    get_doc = λ path w.
        (ok (if path == codes "f" then some (codes "3-m", codes "2-b" ∷ []) else none), w);
    put_doc = λ path rev doc w. (err (rev_conflict path), (w.0 + 1, w.1));
    delete_doc = λ path rev w. (err (rev_conflict path), (w.0, w.1 + 1));
  };
}

-- A database where the first name for a copy of "f" is taken.
abbrev pub crowded : Backend
crowded = record database {
  couch = record couch {
    get_doc = λ path w.
        (ok (if path == codes "f.conflict-01.02.2026" then some (codes "1-a", []) else none), w);
  };
}

abbrev pub older : Leaf
older = record {
  rev = codes "2-b";
  deleted = false;
  mtime = pos 5;
  content_type = codes "t";
  content = codes "old";
  revisions = none;
}

abbrev pub newer : Leaf
newer = record {
  rev = codes "2-c";
  deleted = false;
  mtime = pos 9;
  content_type = codes "t";
  content = codes "new";
  revisions = none;
}

-- A push on a stale base.
abbrev pub stale_push : PushChange
stale_push = record {
  path = codes "f";
  deleted = false;
  base_rev = some (codes "1-a");
  mtime = pos 9;
  content_type = some (codes "t");
  content_base64 = some (codes "new");
}
