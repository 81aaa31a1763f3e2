-- ===== src/Engine/Queue.antt =====
-- The actions that the engine (crates/client-core/src/engine.rs) is built from: calls of the
-- stores and of a hub, the queue of pending changes, and the stored metadata of a file.
use sync_stuff_opinionated.Base.{Bool, not, Option, none, some, List, [], ◌∷◌, ◌++◌, if◌then◌else◌}
use sync_stuff_opinionated.Base.Text.{Text, Bytes, codes, ◌==◌, is_empty}
use sync_stuff_opinionated.Base.Lists.{any, retain}
use sync_stuff_opinionated.Base.Effect.{Eff, pure, panics, map_err, ◌>>=◌}
use sync_stuff_opinionated.Protocol.{FileContent, HubError}
use sync_stuff_opinionated.Store.{StoreError}
use sync_stuff_opinionated.Engine.Types.{
  key_pending, file_key, SyncError, store, hub, FileMeta, PendingChange, Platform, World,
}

-- `Option::unwrap_or_default`, at the type at hand.
abbrev pub unwrap_or {ℓ} : {A : Type ℓ} → Option A → A → A
unwrap_or none d = d
unwrap_or (some a) d = a

abbrev pub and_then {ℓ κ} : {A : Type ℓ} {B : Type κ} → Option A → (A → Option B) → Option B
and_then none f = none
and_then (some a) f = f a

abbrev pub or_else {ℓ} : {A : Type ℓ} → Option A → Option A → Option A
or_else none o = o
or_else (some a) o = some a

-- `.filter(|r| !r.is_empty())`
abbrev pub nonempty : Option Text → Option Text
nonempty none = none
nonempty (some r) = if is_empty r then none else some r

abbrev pub octet_stream : Text
octet_stream = codes "application/octet-stream"

abbrev pub listed : Text → List PendingChange → Bool
listed path = any (λ p. p.path == path)

-- `pending.retain(|p| p.path != change.path)`
abbrev pub retain_others : Text → List PendingChange → List PendingChange
retain_others path = retain (λ p. not (p.path == path))

module _ (P : Platform) where
  abbrev pub Action : Type 0 → Type 0
  Action A = Eff (World P) SyncError A

  -- Calls of the stores and of a hub, with the conversions that `?` makes.
  unfoldable pub on_meta : {A : Type 0} → Eff P.meta.State StoreError A → Action A
  on_meta m w = let (r, s) = m w.meta in (map_err store r, record w { meta = s })

  unfoldable pub on_files : {A : Type 0} → Eff P.files.State StoreError A → Action A
  on_files m w = let (r, s) = m w.files in (map_err store r, record w { files = s })

  unfoldable pub on_net : {A : Type 0} → Eff P.Net HubError A → Action A
  on_net m w = let (r, s) = m w.net in (map_err hub r, record w { net = s })

  abbrev pub decode_pending : Option Bytes → List PendingChange
  decode_pending none = []
  decode_pending (some bytes) = unwrap_or (P.pending.decode bytes) []

  unfoldable pub load_pending : Action (List PendingChange)
  load_pending = do found ← on_meta (P.meta.get key_pending); pure (decode_pending found)

  unfoldable pub pending_contains : Text → Action Bool
  pending_contains path = do pending ← load_pending; pure (listed path pending)

  unfoldable pub upsert_pending : PendingChange → Action (Unit {0})
  upsert_pending change = do
    pending ← load_pending
    on_meta (
        P.meta.put key_pending
          (P.pending.encode (retain_others change.path pending ++ change ∷ [])))

  unfoldable pub restamp : Text → Text → Option FileMeta → Action (Unit {0})
  restamp path rev none = panics
  restamp path rev (some stored) =
      on_meta (P.meta.put (file_key path) (P.file_meta.encode (record stored { rev = rev })))

  unfoldable pub bump_found : Text → Text → Option Bytes → Action (Unit {0})
  bump_found path rev none = pure tt
  bump_found path rev (some bytes) = restamp path rev (P.file_meta.decode bytes)

  unfoldable pub bump_rev : Text → Text → Action (Unit {0})
  unfolding bump_found
  bump_rev path rev = do found ← on_meta (P.meta.get (file_key path)); bump_found path rev found

  unfoldable pub encode_meta : FileContent → Bytes
  encode_meta file =
      P.file_meta.encode
        (record { rev = file.rev; mtime = file.mtime; content_type = file.content_type })
