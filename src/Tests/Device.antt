-- ===== src/Tests/Device.antt =====
-- A device for the runs: in-memory stores, two hubs, and the list of the reported errors in the
-- place of the user interface. The network counts the requests.
use sync_stuff_opinionated.Base.{
  ℕ, ◌+◌, true, false, Option, none, some, List, [], ◌∷◌, map, if◌then◌else◌,
}
use sync_stuff_opinionated.Base.Text.{codes, ◌==◌}
use sync_stuff_opinionated.Base.Int.{pos}
use sync_stuff_opinionated.Base.Effect.{ok, err}
use sync_stuff_opinionated.Protocol.{ChangesResponse, PushChange, FileContent, HubError}
use sync_stuff_opinionated.Store.Memory.{
  MemStore, mem_meta, mem_files, lookup, mem_meta-IsMetaStore, mem_files-IsFileStore,
}
use sync_stuff_opinionated.Engine.Types.{
  Platform, IsPlatform, World, HubClient, SyncEngine, SyncError,
}
use sync_stuff_opinionated.Tests.Codec.{
  put_meta, get_meta, put_queue, get_queue, get-put_meta, get-put_queue,
}

abbrev pub device_on : Type 0 → Platform
device_on Net = record {
  meta = mem_meta;
  files = mem_files;
  Net = Net;
  Ui = List SyncError;
  file_meta = record { encode = put_meta; decode = get_meta };
  pending = record { encode = put_queue; decode = get_queue };
  base64 = record { encode = λ b. b; decode = λ b. some b };
  from_utf8 = λ b. some b;
}

abbrev pub device : Platform
device = device_on ℕ

abbrev pub device_laws_on : (Net : Type 0) → IsPlatform (device_on Net)
device_laws_on Net = record {
  meta_view = λ s k. lookup s.meta k;
  files_view = λ s k. lookup s.files k;
  meta_laws = mem_meta-IsMetaStore;
  files_laws = mem_files-IsFileStore;
  file_meta_back = get-put_meta;
  pending_back = get-put_queue;
}

abbrev pub device_laws : IsPlatform device
device_laws = device_laws_on ℕ

abbrev pub empty_store : MemStore
empty_store = record { meta = []; files = [] }

abbrev pub fresh : World device
fresh = record { meta = empty_store; files = empty_store; net = 0; ui = [] }

abbrev pub batch : ChangesResponse
batch = record {
  changes =
      record { path = codes "a"; deleted = false; rev = codes "1-x" }
      ∷ record { path = codes "b"; deleted = true; rev = codes "2-y" }
      ∷ [];
  checkpoint = codes "7";
}

abbrev pub served : FileContent
served = record { rev = codes "1-x"; mtime = pos 5; content_type = codes "t"; content = codes "A" }

-- The hub answers every push with the revision "3-z".
abbrev pub hub_up : HubClient ℕ
hub_up = record {
  id = codes "u";
  changes = λ since n. (ok batch, n + 1);
  get_file = λ path n. (ok (if path == codes "a" then some served else none), n + 1);
  push = λ changes n.
      (ok (map (λ c. record { path = PushChange.path c; rev = codes "3-z" }) changes), n + 1);
}

abbrev pub unreachable : HubError
unreachable = HubError.transport (codes "down")

abbrev pub hub_down : HubClient ℕ
hub_down = record {
  id = codes "d";
  changes = λ since n. (err unreachable, n + 1);
  get_file = λ path n. (err unreachable, n + 1);
  push = λ changes n. (err unreachable, n + 1);
}

abbrev pub alerts : Option (SyncError → List SyncError → List SyncError)
alerts = some (λ e shown. e ∷ shown)

abbrev pub engine : SyncEngine device
engine = record { hubs = hub_down ∷ hub_up ∷ []; notifier = alerts }

abbrev pub cut_off : SyncEngine device
cut_off = record { hubs = hub_down ∷ []; notifier = alerts }
