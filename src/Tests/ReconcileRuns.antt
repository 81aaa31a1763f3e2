-- ===== src/Tests/ReconcileRuns.antt =====
-- The reconciliation of the desktop client and the stores of the web client at concrete inputs.
use mathlib.Core.Path.{subst}
use mathlib.Core.Logic.{ite}
use sync_stuff_opinionated.Base.{
  ◌≡◌, ◌≢◌, refl, sym, ◌⊎◌, Bool, true, false, Option, none, some, List, [], ◌∷◌, if◌then◌else◌,
}
use sync_stuff_opinionated.Base.Text.{Text, Bytes, codes, text_dec, ◌==◌}
use sync_stuff_opinionated.Base.Int.{pos}
use sync_stuff_opinionated.Base.Lists.{All}
use sync_stuff_opinionated.Base.Effect.{Eff, Result, ok, err, ◌>>=◌, Keeps}
use sync_stuff_opinionated.Store.{StoreError, MetaStore, IsMetaStore}
use sync_stuff_opinionated.Store.Memory.{lookup, insert, get_meta, put_meta, get_file, put_file}
use sync_stuff_opinionated.Engine.Types.{
  FileMeta, Platform, IsPlatform, World, SyncEngine, file_key,
}
use sync_stuff_opinionated.Engine.Keys.{file_key_injective}
use sync_stuff_opinionated.Engine.Queue.{on_meta, on_files, load_pending, upsert_pending}
use sync_stuff_opinionated.Engine.Pull.{notify}
use sync_stuff_opinionated.Engine.Push.{report}
use sync_stuff_opinionated.Engine.Record.{record_upsert, record_upsert_inner, read_file_meta}
use sync_stuff_opinionated.Desktop.Files.{IoError}
use sync_stuff_opinionated.Desktop.Scan.{
  Local, contains_key, entry, no_entries, directory, file, scan, scan_entries,
}
use sync_stuff_opinionated.Desktop.Reconcile.{reconcile_file, record_directory}
use sync_stuff_opinionated.Desktop.Reconcile.Known.{Same}
use sync_stuff_opinionated.Desktop.Reconcile.Unchanged.{record_directory-Same}
use sync_stuff_opinionated.Desktop.Reconcile.Noticed.{Edited, Vanished, reconcile_file-Edited}
use sync_stuff_opinionated.Browser.Opfs.{Opfs, opfs_files, opfs_meta}
use sync_stuff_opinionated.Browser.Opfs.Reading.{reads-Keep}
use sync_stuff_opinionated.Tests.Codec.{
  put_meta as encode_file_meta, get_meta as decode_file_meta, put_queue, get_queue,
}
use sync_stuff_opinionated.Tests.Device.{device, device_laws, engine, fresh, empty_store}

-- A scan skips temporary files, and finds the files in the directories below.
scanned :
    scan (
      some (
        entry (file (some (codes ".1-0.tmp")) none) (
          entry
            (directory
              (some (codes "d"))
              (entry (file (some (codes "a")) (some (pos 5))) no_entries))
            no_entries)))
    ≡ (codes "d/a", pos 5) ∷ []
unfolding text_dec scan_entries
scanned = refl

abbrev read : Text → Eff device.files.State IoError Bytes
read path s = (ok (codes "mine"), s)

abbrev noticed : World device
noticed = (reconcile_file device engine read (λ path. codes "t") (codes "a") (pos 9) fresh).1

noticed-ok :
    reconcile_file device engine read (λ path. codes "t") (codes "a") (pos 9) fresh
    ≡ (ok tt, noticed)
unfolding reconcile_file read_file_meta record_upsert record_upsert_inner upsert_pending
    load_pending on_meta on_files ◌>>=◌ get_meta put_meta get_file put_file lookup insert text_dec
    report notify encode_file_meta decode_file_meta put_queue get_queue file_key
noticed-ok = refl

reconcile_file-Edited_example :
    Vanished device device_laws engine read (λ path. codes "t") (codes "a")
    ⊎ Edited device device_laws engine read (λ path. codes "t") (codes "a") (pos 9) fresh noticed
unfolding lookup
reconcile_file-Edited_example =
    reconcile_file-Edited device device_laws engine read (λ path. codes "t") (codes "a") (pos 9)
      fresh noticed (λ s j. refl) refl noticed-ok

-- A platform whose metadata store is read-only and knows one file.
abbrev known : FileMeta
known = record { rev = codes "1-x"; mtime = pos 5; content_type = codes "t" }

abbrev held : Text → Option Bytes
held k = if k == file_key (codes "a") then some (encode_file_meta known) else none

abbrev frozen : MetaStore
frozen = record {
  State = Unit;
  get = λ k s. (ok (held k), s);
  put = λ k v s. (err (StoreError.io (codes "read-only")), s);
  delete = λ k s. (err (StoreError.io (codes "read-only")), s);
  list_keys = λ prefix s. (ok (file_key (codes "a") ∷ []), s);
}

ok_injective : {E A : Type 0} {a b : A} → ◌≡◌ {A = Result E A} (ok a) (ok b) → a ≡ b
ok_injective e = cc

same_entry : (b : Bool) (v : Option Bytes) → v ≡ (if b then v else v)
same_entry true v = refl
same_entry false v = refl

frozen-IsMetaStore : IsMetaStore frozen (λ s k. held k)
frozen-IsMetaStore = record {
  reads = record { returned = λ s k e. cc; same = λ s k j. refl };
  puts = λ k v. record { written = λ s j. same_entry (j == k) (held j) };
  deletes = λ k. record { written = λ s j. same_entry (j == k) (held j) };
  lists = λ prefix s j. refl;
}

abbrev frozen_device : Platform
frozen_device = record {
  meta = frozen;
  files = device.files;
  Net = device.Net;
  Ui = device.Ui;
  file_meta = device.file_meta;
  pending = device.pending;
  base64 = device.base64;
  from_utf8 = device.from_utf8;
}

abbrev frozen_laws : IsPlatform frozen_device
frozen_laws = record {
  meta_view = λ s k. held k;
  files_view = device_laws.files_view;
  meta_laws = frozen-IsMetaStore;
  files_laws = device_laws.files_laws;
  file_meta_back = device_laws.file_meta_back;
  pending_back = device_laws.pending_back;
}

abbrev at_rest : World frozen_device
at_rest = record { meta = tt; files = empty_store; net = 0; ui = [] }

abbrev offline : SyncEngine frozen_device
offline = record { hubs = []; notifier = none }

abbrev one_file : Local
one_file = (codes "a", pos 5) ∷ []

held_key : held (file_key (codes "a")) ≢ none
unfolding text_dec file_key
held_key e = cc

a_is_there : contains_key (codes "a") one_file ≡ true
unfolding text_dec
a_is_there = refl

tracked_only : (path : Text) → held (file_key path) ≢ none → contains_key path one_file ≡ true
tracked_only path there = onward (text_dec (file_key path) (file_key (codes "a"))) there
  where
    onward :
        (d : Dec (file_key path ≡ file_key (codes "a")))
        → (if ite d true false then some (encode_file_meta known) else none) ≢ none
        → contains_key path one_file ≡ true
    onward (yes same) found =
        subst (λ q. contains_key q one_file ≡ true) (sym (file_key_injective path (codes "a") same))
          a_is_there
    onward (no differs) found = absurd (found refl)

record_directory-Same_example :
    Same frozen_device frozen_laws at_rest
      (record_directory frozen_device offline read
        (λ path. codes "t")
        one_file
        (λ w. pos 9)
        at_rest).1
unfolding text_dec file_key decode_file_meta encode_file_meta
record_directory-Same_example =
    record_directory-Same frozen_device frozen_laws offline read (λ path. codes "t") at_rest
      one_file (λ w. pos 9)
      (λ v keys e. subst (All (λ k. held k ≢ none)) (ok_injective e) (held_key, tt)) (refl, tt)
      tracked_only

-- A browser where the names of what was created are the state.
abbrev browser : Opfs
browser = record {
  State = List Text;
  Directory = Unit;
  File = Unit;
  Writable = Unit;
  root = tt;
  get_directory_handle = λ dir name create s. (ok tt, if create then name ∷ s else s);
  get_file_handle = λ dir name create s. (ok tt, if create then name ∷ s else s);
  array_buffer = λ handle s. (ok (codes "A"), s);
  create_writable = λ handle s. (ok tt, s);
  write_buffer = λ writable content s. (ok tt, s);
  close = λ writable s. (ok tt, s);
  remove_entry = λ dir name s. (ok tt, s);
  entries = λ dir s. (ok (record { name = some (codes "k"); is_directory = false } ∷ []), s);
}

abbrev Empty : List Text → Type 0
Empty s = s ≡ []

reads-Keep_example :
    ((path : Text) → Keeps Empty ((opfs_files browser).get path))
    × ((key : Text) → Keeps Empty ((opfs_meta browser (λ key. key) some).get key))
    × ((prefix : Text) → Keeps Empty ((opfs_meta browser (λ key. key) some).list_keys prefix))
reads-Keep_example =
    reads-Keep browser Empty (λ dir name. record { at = λ s h. h })
      (λ dir name. record { at = λ s h. h }) (λ handle. record { at = λ s h. h })
      (λ dir. record { at = λ s h. h }) (λ key. key) some
