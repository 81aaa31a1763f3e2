-- ===== src/Tests/EngineRuns.antt =====
-- Runs of the sync engine, and its theorems at concrete inputs.
use sync_stuff_opinionated.Base.{
  ◌≡◌, refl, true, false, none, some, [], ◌∷◌, ◌++◌, List, inl, ◌&&◌, if◌then◌else◌,
}
use sync_stuff_opinionated.Base.Text.{Text, codes, text_dec}
use sync_stuff_opinionated.Base.Int.{pos}
use sync_stuff_opinionated.Base.Effect.{ok, ◌>>=◌, Result, is_ok}
use sync_stuff_opinionated.Protocol.{ChangesResponse, PushChange}
use sync_stuff_opinionated.Store.Memory.{
  get_meta, put_meta, delete_meta, get_file, put_file, delete_file, lookup, insert,
}
use sync_stuff_opinionated.Engine.Types.{
  World, SyncEngine, SyncError, PullReport, PushReport, PendingChange, file_key, checkpoint_key,
  hub,
}
use sync_stuff_opinionated.Engine.Queue.{
  on_meta, on_files, on_net, load_pending, pending_contains, upsert_pending, bump_rev, restamp,
  encode_meta, retain_others,
}
use sync_stuff_opinionated.Engine.Pull.{
  pull, pull_from, try_hubs, notify, apply_all, apply_remote, apply_checked, apply_delete,
  apply_upsert, found_or_fail,
}
use sync_stuff_opinionated.Engine.Push.{
  reported, push, push_pending, push_to, report, clear_if_full, adopt_all, adopt,
  build_push_changes, build_push_change, build_upsert,
}
use sync_stuff_opinionated.Engine.Record.{
  record_upsert, record_upsert_inner, record_delete, record_delete_inner, upsert_change,
  delete_change, upsert_meta,
}
use sync_stuff_opinionated.Engine.Queues.{queue, queued}
use sync_stuff_opinionated.Engine.Pulled.{queue-pull}
use sync_stuff_opinionated.Engine.Unpushed.{pull-queued}
use sync_stuff_opinionated.Engine.Checkpoint.{checkpoint_left, checkpoint-pull_from}
use sync_stuff_opinionated.Engine.Failover.{Down, engine_of, pull_failover, pull_all-Down}
use sync_stuff_opinionated.Engine.Pushed.{answered, queue-push_to, queue-push_failed}
use sync_stuff_opinionated.Engine.Recorded.{Recorded}
use sync_stuff_opinionated.Engine.Edits.{
  stored_base, record_upsert_ok, record_delete_ok, record_delete_twice,
}
use sync_stuff_opinionated.Engine.Coalesced.{NodupPaths, record-NodupPaths}
use sync_stuff_opinionated.Engine.Delivered.{last_entry}
use sync_stuff_opinionated.Engine.Settled.{Settled, pull_from-Settled}
use sync_stuff_opinionated.Tests.Codec.{
  put_meta as encode_file_meta, get_meta as decode_file_meta, put_queue, get_queue,
}
use sync_stuff_opinionated.Tests.Device.{
  device, device_laws, engine, cut_off, alerts, fresh, hub_up, hub_down, unreachable,
}

-- The actions at the device, opened together.
edit : Text → World device → Result SyncError (Unit {0}) × World device
unfolding record_upsert record_upsert_inner upsert_pending load_pending on_meta on_files ◌>>=◌
    get_meta put_meta get_file put_file lookup insert text_dec report notify encode_file_meta
    decode_file_meta put_queue get_queue file_key checkpoint_key
edit path = record_upsert device engine path (pos 9) (codes "t") (codes "mine")

delete : Text → World device → Result SyncError (Unit {0}) × World device
unfolding edit record_delete record_delete_inner delete_meta delete_file
delete path = record_delete device engine path (pos 9)

pull_up : World device → Result SyncError PullReport × World device
unfolding edit delete pull_from apply_all apply_remote apply_checked apply_delete apply_upsert
    found_or_fail pending_contains on_net encode_meta try_hubs pull
pull_up = pull_from device hub_up

abbrev edited : World device
edited = (record_upsert device engine (codes "a") (pos 9) (codes "t") (codes "mine") fresh).1

edited-ok :
    record_upsert device engine (codes "a") (pos 9) (codes "t") (codes "mine") fresh
    ≡ (ok tt, edited)
unfolding edit
edited-ok = refl

a_is_queued : queued device device_laws (codes "a") edited ≡ true
unfolding edit
a_is_queued = refl

abbrev pulled : World device
pulled = (pull_from device hub_up fresh).1

push_all : SyncEngine device → World device → Result SyncError PushReport × World device
unfolding edit delete pull_up push push_pending push_to clear_if_full adopt_all adopt bump_rev
    restamp build_push_changes build_push_change build_upsert
push_all e = push device e

-- A pull writes the served file, and the checkpoint of the batch.
pull_writes :
    (lookup pulled.files.files (codes "a") ≡ some (codes "A"))
    × (lookup pulled.meta.meta (checkpoint_key (codes "u")) ≡ some (codes "7"))
unfolding pull_up
pull_writes = (refl, refl)

-- A push empties the queue, and the file has the revision of the hub.
push_empties : queue device device_laws (push_all engine edited).1 ≡ []
unfolding push_all
push_empties = refl

queue-pull_example :
    queue device device_laws (pull device engine edited).1 ≡ queue device device_laws edited
queue-pull_example = queue-pull device device_laws engine edited

pull-queued_example :
    (lookup (pull device engine edited).1.files.files (codes "a")
      ≡ lookup edited.files.files (codes "a"))
    × (lookup (pull device engine edited).1.meta.meta (file_key (codes "a"))
        ≡ lookup edited.meta.meta (file_key (codes "a")))
pull-queued_example = pull-queued device device_laws engine edited (codes "a") a_is_queued

checkpoint-pull_from_example :
    lookup (pull_from device hub_up fresh).1.meta.meta (checkpoint_key (codes "u"))
    ≡ checkpoint_left
        (pull_from device hub_up fresh).0
        (lookup fresh.meta.meta (checkpoint_key (codes "u")))
checkpoint-pull_from_example = checkpoint-pull_from device device_laws hub_up fresh

abbrev a_pulled : PullReport
a_pulled = record {
  hub = codes "u";
  pulled = 1;
  deleted = 1;
  local_conflicts = [];
  checkpoint = some (codes "7");
}

pull_up-ok : pull_from device hub_up fresh ≡ (ok a_pulled, pulled)
unfolding pull_up
pull_up-ok = refl

a_is_free : queued device device_laws (codes "a") fresh ≡ false
unfolding edit
a_is_free = refl

pull_from-Settled_example :
    (resp : ChangesResponse) × ((hub_up.changes none 0).0 ≡ ok resp)
    × Settled device device_laws hub_up
        (codes "a")
        (last_entry (codes "a") resp.changes)
        fresh
        pulled
    × (lookup pulled.meta.meta (checkpoint_key (codes "u")) ≡ some resp.checkpoint)
pull_from-Settled_example =
    pull_from-Settled device device_laws hub_up (codes "a") fresh pulled a_pulled a_is_free
      pull_up-ok

-- The world after one failed request.
abbrev one_down : World device
one_down = record fresh { net = 1 }

Down-first :
    Down device (pull_from device) (hub_down ∷ []) none fresh (some (hub unreachable)) one_down
unfolding pull_up
Down-first = (unreachable, one_down, refl, (refl, refl))

abbrev up_second : World device
up_second = (pull_from device hub_up one_down).1

up_answers : pull_from device hub_up one_down ≡ (ok a_pulled, up_second)
unfolding pull_up
up_answers = refl

pull_failover_example :
    let engine = engine_of device alerts (hub_down ∷ [] ++ hub_up ∷ []) in
    pull device engine fresh ≡ reported device engine (pull_from device hub_up one_down).0 up_second
unfolding pull_up
pull_failover_example =
    pull_failover device alerts (hub_down ∷ []) [] hub_up (some (hub unreachable)) fresh one_down
      up_second (pull_from device hub_up one_down).0 Down-first refl refl

pull_all-Down_example : pull device cut_off fresh ≡ notify device cut_off (hub unreachable) one_down
pull_all-Down_example =
    pull_all-Down device alerts (hub_down ∷ []) (some (hub unreachable)) fresh one_down Down-first

abbrev waiting : List PendingChange
waiting = queue device device_laws edited

abbrev to_push : List PushChange
to_push =
    record {
      path = codes "a";
      deleted = false;
      base_rev = none;
      mtime = pos 9;
      content_type = some (codes "t");
      content_base64 = some (codes "mine");
    }
    ∷ []

queue-push_to_example :
    let (r, w') = push_to device waiting to_push hub_up edited in
    queue device device_laws w' ≡ (
      if is_ok r && answered to_push (hub_up.push to_push edited.net).0
      then []
      else queue device device_laws edited)
queue-push_to_example = queue-push_to device device_laws waiting to_push hub_up edited

push_cut_off : is_ok (push device cut_off edited).0 ≡ false
unfolding push_all
push_cut_off = refl

queue-push_failed_example :
    queue device device_laws (push device cut_off edited).1 ≡ queue device device_laws edited
queue-push_failed_example = queue-push_failed device device_laws cut_off edited push_cut_off

record_upsert_ok_example :
    Recorded device device_laws
      (upsert_change device
        (codes "a")
        (stored_base device device_laws (codes "a") fresh)
        (pos 9)
        (codes "t"))
      (some (codes "mine"))
      (some (
        encode_file_meta (
          upsert_meta device
            (stored_base device device_laws (codes "a") fresh)
            (pos 9)
            (codes "t"))))
      fresh
      edited
record_upsert_ok_example =
    record_upsert_ok device device_laws engine (codes "a") (pos 9) (codes "t") (codes "mine") fresh
      edited edited-ok

abbrev deleted_once : World device
deleted_once = (record_delete device engine (codes "a") (pos 9) pulled).1

abbrev deleted_twice : World device
deleted_twice = (record_delete device engine (codes "a") (pos 9) deleted_once).1

delete-ok : record_delete device engine (codes "a") (pos 9) pulled ≡ (ok tt, deleted_once)
unfolding pull_up
delete-ok = refl

delete-again : record_delete device engine (codes "a") (pos 9) deleted_once ≡ (ok tt, deleted_twice)
unfolding pull_up
delete-again = refl

record_delete_ok_example :
    Recorded device device_laws
      (delete_change device (codes "a") (stored_base device device_laws (codes "a") pulled) (pos 9))
      none
      none
      pulled
      deleted_once
record_delete_ok_example =
    record_delete_ok device device_laws engine (codes "a") (pos 9) pulled deleted_once delete-ok

record_delete_twice_example :
    queue device device_laws deleted_twice
    ≡ retain_others (codes "a") (queue device device_laws deleted_once)
      ++ delete_change device (codes "a") none (pos 9) ∷ []
record_delete_twice_example =
    record_delete_twice device device_laws engine (codes "a") (pos 9) (pos 9) pulled deleted_once
      deleted_twice delete-ok delete-again

empty_queue : NodupPaths (queue device device_laws fresh)
unfolding edit
empty_queue = tt

record-NodupPaths_example : NodupPaths (queue device device_laws edited)
record-NodupPaths_example =
    record-NodupPaths device device_laws engine (codes "a") (pos 9) (codes "t") (codes "mine") fresh
      edited empty_queue (inl edited-ok)
