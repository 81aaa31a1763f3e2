-- ===== src/Tests/HubRuns.antt =====
-- Runs of the hub, and its theorems at concrete inputs.
use sync_stuff_opinionated.Base.{
  false, ◌++◌, ℕ, ◌≤◌, ◌<◌, true, false, ◌+◌, ◌≡◌, ◌⊎◌, refl, Option, none, some, [], ◌∷◌,
}
use sync_stuff_opinionated.Base.Text.{Text, Bytes, codes, text_dec, ◌==◌}
use sync_stuff_opinionated.Base.Lists.{All}
use sync_stuff_opinionated.Base.Decimal.{decimal}
use sync_stuff_opinionated.Base.Effect.{ok, err, ◌>>=◌, pure, fail, Keeps}
use sync_stuff_opinionated.Protocol.{PushResult}
use sync_stuff_opinionated.Couch.{RawChangesResponse}
use sync_stuff_opinionated.Diff3.{merge, rev_text, common_ancestor, ancestor_from, revision_at}
use sync_stuff_opinionated.Diff3.Ancestor.{common_ancestor-branches}
use sync_stuff_opinionated.Resolver.{max_retries, Plan, on_read, on_write, content_or_default}
use sync_stuff_opinionated.Resolver.Planning.{
  plan_kept, plan_edit_vs_edit, plan_for, plan_resolution,
}
use sync_stuff_opinionated.Resolver.Preserved.{Saved, plan_resolution-Saved}
use sync_stuff_opinionated.Resolver.Apply.{
  free_path, conflict_copy_path, write_copy, write_copies, write_final, delete_leaves, apply_plan,
}
use sync_stuff_opinionated.Resolver.Written.{
  CopiesUploaded, ContentUploaded, Deleted, apply_plan-Uploaded, apply_plan-Uploaded_before, Safe,
}
use sync_stuff_opinionated.Resolver.Resolve.{
  resolve, resolve_rounds, resolve_winner, fetch_leaves, fetch_leaf, leaf_from_doc, leaf_content,
  try_plan,
}
use sync_stuff_opinionated.Routes.Push.{
  on_couch, parent_of, branch_and_resolve, or_branch, upsert_content, apply_upsert, apply,
  apply_one, post_changes,
}
use sync_stuff_opinionated.Routes.Storing.{AllStored}
use sync_stuff_opinionated.Routes.Stored.{post_changes-AllStored}
use sync_stuff_opinionated.Routes.Changes.{to_response, get_changes_longpoll}
use sync_stuff_opinionated.Http.{Method}
use sync_stuff_opinionated.Routes.Router.{Incoming, Reply, hub}
use sync_stuff_opinionated.Routes.Guarded.{is_refusal, hub-unauthorized}
use sync_stuff_opinionated.Routes.Listed.{
  IsCheckpoint, Lists, longpoll_reply, get_changes_longpoll-waits, to_response-Lists,
}
use sync_stuff_opinionated.Tests.Database.{
  Doc, Writes, database, contested, crowded, older, newer, stale_push,
}

-- The newer one of two edits that do not merge is kept, the older one is copied.
abbrev kept : Plan
kept = plan_kept (codes "2-b") newer older (codes "2-c" ∷ [])

planned :
    plan_resolution database (codes "f") (older ∷ newer ∷ []) (codes "2-b") (0, 0)
    ≡ (ok kept, (0, 0))
unfolding plan_resolution plan_for plan_edit_vs_edit merge text_dec ◌>>=◌ pure
planned = refl

plan_resolution-Saved_example : All (Saved database kept) (older ∷ newer ∷ [])
unfolding text_dec
plan_resolution-Saved_example =
    plan_resolution-Saved database (codes "f") (older ∷ newer ∷ []) (codes "2-b") kept (0, 0) (0, 0)
      (refl, (refl, tt)) planned

abbrev copy_name : Text
copy_name = codes "f.conflict-01.02.2026"

applied : apply_plan database 1 (codes "f") kept (0, 0) ≡ (ok (copy_name ∷ []), (4, 1))
unfolding apply_plan write_copies write_copy conflict_copy_path free_path write_final delete_leaves
    on_read on_write text_dec decimal ◌>>=◌ pure
applied = refl

apply_plan-Uploaded_example :
    CopiesUploaded database (0, 0) (4, 1) kept.copies (copy_name ∷ [])
    × ContentUploaded database (0, 0) (4, 1) (codes "f") kept kept.final_content
    × All (Deleted database (0, 0) (4, 1) (codes "f")) kept.loser_revs
apply_plan-Uploaded_example =
    apply_plan-Uploaded database 1 (codes "f") kept (0, 0) (4, 1) (copy_name ∷ []) applied

abbrev Undeleted : Writes → Type 0
Undeleted w = w.1 ≡ 0

Keeps-put_doc :
    (path : Text) (rev : Option Text) (doc : Doc)
    → Keeps Undeleted (database.couch.put_doc path rev doc)
Keeps-put_doc path none doc = record { at = λ w h. h }
Keeps-put_doc path (some base) doc = record { at = λ w h. h }

abbrev keeps_get : (path : Text) → Keeps Undeleted (database.couch.get_doc path)
keeps_get path = record { at = λ w h. h }

abbrev keeps_upload :
    (path rev content_type : Text) (content : Bytes)
    → Keeps Undeleted (database.couch.put_attachment path rev content_type content)
keeps_upload path rev content_type content = record { at = λ w h. h }

apply_plan-Uploaded_before_example :
    Undeleted (apply_plan database 1 (codes "f") kept (0, 0)).1
    ⊎ Safe database Undeleted keeps_get Keeps-put_doc keeps_upload (0, 0) (codes "f") kept
apply_plan-Uploaded_before_example =
    apply_plan-Uploaded_before database Undeleted keeps_get Keeps-put_doc keeps_upload 1 (codes "f")
      kept (0, 0) refl

-- The first name is taken, so the copy gets the second one.
second_name :
    conflict_copy_path crowded 2 (codes "f") (0, 0) ≡ (ok (copy_name ++ codes ".0"), (0, 0))
unfolding conflict_copy_path free_path on_read text_dec decimal ◌>>=◌ pure
second_name = refl

-- Each of the five rounds meets a conflict.
given_up : (resolve contested 1 (codes "f") (0, 0)).0 ≡ err max_retries
unfolding resolve resolve_rounds resolve_winner fetch_leaves fetch_leaf leaf_from_doc leaf_content
    plan_resolution plan_for plan_edit_vs_edit merge try_plan apply_plan write_copies write_copy
    conflict_copy_path free_path write_final delete_leaves on_read on_write text_dec decimal ◌>>=◌
    pure fail common_ancestor ancestor_from revision_at content_or_default
given_up = refl

common_ancestor-branches_example :
    (common_ancestor (codes "b" ∷ codes "a" ∷ []) (1 + 1) (codes "c" ∷ codes "a" ∷ [])
      ≡ some (rev_text 1 (codes "a")))
    × (common_ancestor (codes "c" ∷ codes "a" ∷ []) (1 + 1) (codes "b" ∷ codes "a" ∷ [])
        ≡ some (rev_text 1 (codes "a")))
unfolding text_dec
common_ancestor-branches_example =
    common_ancestor-branches (codes "b" ∷ []) (codes "c" ∷ []) (codes "a") [] 1 (refl, tt)
      (refl, tt)

-- The stale push becomes a branch, and the client gets the revision that won.
abbrev answer : PushResult
answer = record { path = codes "f"; rev = codes "3-m" }

pushed : post_changes database 1 (stale_push ∷ []) (0, 0) ≡ (ok (answer ∷ []), (2, 0))
unfolding post_changes apply_one apply apply_upsert upsert_content or_branch branch_and_resolve
    parent_of on_couch resolve resolve_rounds resolve_winner on_read text_dec ◌>>=◌ pure
pushed = refl

post_changes-AllStored_example : AllStored database 1 (stale_push ∷ []) (answer ∷ []) (0, 0) (2, 0)
post_changes-AllStored_example =
    post_changes-AllStored database 1 (stale_push ∷ []) (0, 0) (2, 0) (answer ∷ []) pushed

get_changes_longpoll-waits_example :
    (t : ℕ) × (1 ≤ t)
    × (t ≤ 60)
    × ((t ≡ 99) ⊎ ((99 < 1) × (t ≡ 1)) ⊎ ((60 < 99) × (t ≡ 60)))
    × ((get_changes_longpoll database none 99 (0, 0)).0
        ≡ longpoll_reply database (database.couch.changes_longpoll none t (0, 0)).0)
    × ((get_changes_longpoll database none 99 (0, 0)).1
        ≡ (database.couch.changes_longpoll none t (0, 0)).1)
get_changes_longpoll-waits_example = get_changes_longpoll-waits database none 99 (0, 0)

-- A file, and a design document.
abbrev polled : RawChangesResponse Doc
polled = record {
  results =
      record {
        id = codes "f";
        deleted = true;
        changes = record { rev = codes "1-a" } ∷ [];
        doc = none;
      }
      ∷ record {
        id = codes "_design";
        deleted = false;
        changes = record { rev = codes "1-b" } ∷ [];
        doc = none;
      }
      ∷ [];
  last_seq = (codes "7", []);
}

to_response-Lists_example :
    Lists database polled.results
      (record { path = codes "f"; deleted = true; rev = codes "1-a" } ∷ [])
    × IsCheckpoint database polled.last_seq (to_response database polled).checkpoint
unfolding to_response text_dec
to_response-Lists_example = to_response-Lists database polled

-- A push with a token that the hub does not know.
abbrev stranger : Incoming
stranger = record {
  method = Method.post;
  path = codes "/changes";
  token = some (codes "guess");
  since = none;
  timeout = none;
  pushed = some (stale_push ∷ []);
}

abbrev serve : Incoming → Writes → Reply × Writes
serve =
    hub database some (λ w. (ok (record { uuid = codes "id" }), w))
      (λ token. token == codes "secret") 1

hub-unauthorized_example :
    ((serve stranger (0, 0)).1 ≡ (0, 0))
    × ((serve stranger (0, 0)).0 ≡ (serve stranger (5, 5)).0)
    × (is_refusal database some
          (λ w. (ok (record { uuid = codes "id" }), w))
          (λ token. token == codes "secret")
          1
          (serve stranger (0, 0)).0
        ≡ true)
unfolding text_dec
hub-unauthorized_example =
    hub-unauthorized database some (λ w. (ok (record { uuid = codes "id" }), w))
      (λ token. token == codes "secret") 1 stranger (0, 0) (5, 5) refl
