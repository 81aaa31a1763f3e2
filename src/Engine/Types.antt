-- ===== src/Engine/Types.antt =====
-- The data of the sync engine (crates/client-core/src/engine.rs), and the platform that it runs
-- on: the two stores, the network behind the hub clients, the user interface behind the notifier,
-- and the encodings of the `serde_json` and `base64` packages.
use sync_stuff_opinionated.Base.{ℕ, Bool, Option, some, List, [], ◌++◌, ◌≡◌}
use sync_stuff_opinionated.Base.Text.{Text, Bytes, codes}
use sync_stuff_opinionated.Base.Int.{ℤ}
use sync_stuff_opinionated.Base.Effect.{Eff}
use sync_stuff_opinionated.Protocol.{ChangesResponse, PushChange, PushResult, FileContent, HubError}
use sync_stuff_opinionated.Store.{StoreError, MetaStore, FileStore, IsMetaStore, IsFileStore}

abbrev pub key_pending : Text
key_pending = codes "pending"

abbrev pub file_prefix : Text
file_prefix = codes "file/"

unfoldable pub file_key : Text → Text
file_key path = codes "file/" ++ path

unfoldable pub checkpoint_key : Text → Text
checkpoint_key hub_id = codes "checkpoint/" ++ hub_id

pub data SyncError : Type 0 where
  store : StoreError → SyncError
  hub : HubError → SyncError

pub record FileMeta : Type 0 where
  pub rev : Text
  pub mtime : ℤ
  pub content_type : Text

pub record PendingChange : Type 0 where
  pub path : Text
  pub deleted : Bool
  pub base_rev : Option Text
  pub mtime : ℤ
  pub content_type : Option Text

pub record PullReport : Type 0 where
  pub hub : Text
  pub pulled : ℕ
  pub deleted : ℕ
  pub local_conflicts : List Text
  pub checkpoint : Option Text

pub record PushReport : Type 0 where
  pub hub : Text
  pub pushed : ℕ

abbrev pub no_push : PushReport
no_push = record { hub = []; pushed = 0 }

pub record SyncReport : Type 0 where
  pub pull : PullReport
  pub push : PushReport

-- The client of one hub: its base URL as its identity, and the requests that the engine makes.
-- The rest of the network, the other devices with it, is in the state.
pub record HubClient (Net : Type 0) : Type 0 where
  pub id : Text
  pub changes : Option Text → Eff Net HubError ChangesResponse
  pub get_file : Text → Eff Net HubError (Option FileContent)
  pub push : List PushChange → Eff Net HubError (List PushResult)

-- A JSON or base64 encoding, as far as the engine uses it.
pub record Codec (A : Type 0) : Type 0 where
  pub encode : A → Bytes
  pub decode : Bytes → Option A

pub record Platform : Type 1 where
  pub meta : MetaStore
  pub files : FileStore
  pub Net : Type 0
  pub Ui : Type 0
  pub file_meta : Codec FileMeta
  pub pending : Codec (List PendingChange)
  pub base64 : Codec Bytes
  pub from_utf8 : Bytes → Option Text

pub record World (P : Platform) : Type 0 where
  pub meta : P.meta.State
  pub files : P.files.State
  pub net : P.Net
  pub ui : P.Ui

-- `SyncEngine`: the hubs in order, and the notifier, if there is one.
pub record SyncEngine (P : Platform) : Type 0 where
  pub hubs : List (HubClient P.Net)
  pub notifier : Option (SyncError → P.Ui → P.Ui)

-- What the engine relies on: both stores are atomic, what was encoded can be decoded.
pub record IsPlatform (P : Platform) : Type 0 where
  pub meta_view : P.meta.State → Text → Option Bytes
  pub files_view : P.files.State → Text → Option Bytes
  pub meta_laws : IsMetaStore P.meta meta_view
  pub files_laws : IsFileStore P.files files_view
  pub file_meta_back : (m : FileMeta) → P.file_meta.decode (P.file_meta.encode m) ≡ some m
  pub pending_back : (q : List PendingChange) → P.pending.decode (P.pending.encode q) ≡ some q
