-- ===== src/Tests/EndToEndRuns.antt =====
-- A device whose hub answers by its push route, and what a push of it has done.
use sync_stuff_opinionated.Base.{◌≡◌, refl, false, none, List, [], ◌∷◌}
use sync_stuff_opinionated.Base.Text.{codes, text_dec, is_empty}
use sync_stuff_opinionated.Base.Int.{pos}
use sync_stuff_opinionated.Base.Effect.{Result, ok, err, panic, ◌>>=◌, pure, with_err}
use sync_stuff_opinionated.Protocol.{PushResult, HubError}
use sync_stuff_opinionated.Store.Memory.{get_meta, put_meta, get_file, put_file, lookup, insert}
use sync_stuff_opinionated.Engine.Types.{
  World, SyncEngine, PushReport, HubClient, file_key, checkpoint_key,
}
use sync_stuff_opinionated.Engine.Queue.{
  on_meta, on_files, on_net, load_pending, upsert_pending, bump_rev, restamp,
}
use sync_stuff_opinionated.Engine.Pull.{try_hubs, notify}
use sync_stuff_opinionated.Engine.Push.{
  push, push_pending, push_to, report, clear_if_full, adopt_all, adopt, build_push_changes,
  build_push_change, build_upsert,
}
use sync_stuff_opinionated.Engine.Record.{record_upsert, record_upsert_inner}
use sync_stuff_opinionated.Engine.Queues.{queue}
use sync_stuff_opinionated.Routes.{ApiError}
use sync_stuff_opinionated.Routes.Push.{
  on_couch, parent_of, branch_and_resolve, or_branch, upsert_content, apply_upsert, apply,
  apply_one, post_changes,
}
use sync_stuff_opinionated.EndToEnd.Acknowledged.{Serves, Acknowledged, push-Acknowledged}
use sync_stuff_opinionated.Tests.Codec.{
  put_meta as encode_file_meta, get_meta as decode_file_meta, put_queue, get_queue,
}
use sync_stuff_opinionated.Tests.Device.{device_on, device_laws_on, empty_store, unreachable}
use sync_stuff_opinionated.Tests.Database.{Writes, database}

abbrev of_api : ApiError → HubError
of_api e = HubError.api e.status e.message

abbrev routed : HubClient Writes
routed = record {
  id = codes "h";
  changes = λ since w. (err unreachable, w);
  get_file = λ path w. (err unreachable, w);
  push = λ changes. with_err of_api (post_changes database 1 changes);
}

routed-Serves : Serves (device_on Writes) database (λ w. w) 1 routed
routed-Serves = record {
  answers = λ changes w w' results e. onward (post_changes database 1 changes w) w' results e;
}
  where
    onward :
        (out : Result ApiError (List PushResult) × Writes) (w' : Writes) (results : List PushResult)
        → with_err of_api (λ (v : Writes). out) w' ≡ (ok results, w')
        → out ≡ (ok results, w')
    onward (ok r, v) w' results e = cc
    onward (err x, v) w' results e = cc
    onward (panic, v) w' results e = cc

-- A hub that cannot be reached.
abbrev down : HubClient Writes
down = record {
  id = codes "d";
  changes = λ since w. (err unreachable, w);
  get_file = λ path w. (err unreachable, w);
  push = λ changes w. (err unreachable, w);
}

down-Serves : Serves (device_on Writes) database (λ w. w) 1 down
down-Serves = record { answers = λ changes w w' results e. cc }

abbrev online : SyncEngine (device_on Writes)
online = record { hubs = down ∷ routed ∷ []; notifier = none }

abbrev start : World (device_on Writes)
start = record { meta = empty_store; files = empty_store; net = (0, 0); ui = [] }

abbrev edited : World (device_on Writes)
edited =
    (record_upsert (device_on Writes) online (codes "f") (pos 9) (codes "t") (codes "mine") start).1

abbrev sent : World (device_on Writes)
sent = (push (device_on Writes) online edited).1

abbrev one_pushed : PushReport
one_pushed = record { hub = codes "h"; pushed = 1 }

pushed-ok : push (device_on Writes) online edited ≡ (ok one_pushed, sent)
unfolding record_upsert record_upsert_inner upsert_pending load_pending on_meta on_files on_net
    ◌>>=◌ pure get_meta put_meta get_file put_file lookup insert text_dec report notify
    encode_file_meta decode_file_meta put_queue get_queue file_key checkpoint_key try_hubs push
    push_pending push_to clear_if_full adopt_all adopt bump_rev restamp build_push_changes
    build_push_change build_upsert post_changes apply_one apply apply_upsert upsert_content
    or_branch branch_and_resolve parent_of on_couch
pushed-ok = refl

waiting : is_empty (queue (device_on Writes) (device_laws_on Writes) edited) ≡ false
unfolding pushed-ok
waiting = refl

push-Acknowledged_example :
    Acknowledged
      (device_on Writes)
      (device_laws_on Writes)
      database
      (λ w. w)
      1
      (down ∷ routed ∷ [])
      edited
      sent
      (queue (device_on Writes) (device_laws_on Writes) edited)
push-Acknowledged_example =
    push-Acknowledged (device_on Writes) (device_laws_on Writes) database (λ w. w) 1 online edited
      sent one_pushed (down-Serves, (routed-Serves, tt)) waiting pushed-ok
