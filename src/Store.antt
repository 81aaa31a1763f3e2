-- ===== src/Store.antt =====
-- The durable-storage traits behind the sync engine (crates/client-core/src/store.rs), as records
-- of operations over an unknown state, and what the engine relies on: each operation is atomic.
-- `view` is the abstract content of a store; the code never computes it.
pub mod Memory
use sync_stuff_opinionated.Base.{◌≡◌, Option, none, some, List, if◌then◌else◌}
use sync_stuff_opinionated.Base.Text.{Text, Bytes, ◌==◌}
use sync_stuff_opinionated.Base.Int.{ℤ}
use sync_stuff_opinionated.Base.Effect.{Eff, ok, err, Result}

pub data StoreError : Type 0 where
  io : Text → StoreError

pub record MetaStore : Type 1 where
  pub State : Type 0
  pub get : Text → Eff State StoreError (Option Bytes)
  pub put : Text → Bytes → Eff State StoreError (Unit {0})
  pub delete : Text → Eff State StoreError (Unit {0})
  pub list_keys : Text → Eff State StoreError (List Text)

pub record FileStore : Type 1 where
  pub State : Type 0
  pub get : Text → Eff State StoreError (Option Bytes)
  pub put : Text → Bytes → ℤ → Eff State StoreError (Unit {0})
  pub delete : Text → Eff State StoreError (Unit {0})

-- A read returns what is stored, or fails, and stores nothing.
pub record Reads {S : Type 0} (view : S → Text → Option Bytes)
    (get : Text → Eff S StoreError (Option Bytes)) : Type 0 where
  pub returned :
      (s : S) (k : Text) {found : Option Bytes} → (get k s).0 ≡ ok found → found ≡ view s k
  pub same : (s : S) (k j : Text) → view (get k s).1 j ≡ view s j

abbrev pub landed : Result StoreError (Unit {0}) → Option Bytes → Option Bytes → Option Bytes
landed (ok _) new old = new
landed _ new old = old

-- A write replaces the entry of its key if it succeeds, and stores nothing otherwise.
pub record Writes {S : Type 0} (view : S → Text → Option Bytes) (k : Text) (new : Option Bytes)
    (write : Eff S StoreError (Unit {0})) : Type 0 where
  pub written :
      (s : S) (j : Text)
      → view (write s).1 j ≡ (if j == k then landed (write s).0 new (view s j) else view s j)

pub record IsMetaStore (M : MetaStore) (view : M.State → Text → Option Bytes) : Type 0 where
  pub reads : Reads view M.get
  pub puts : (k : Text) (v : Bytes) → Writes view k (some v) (M.put k v)
  pub deletes : (k : Text) → Writes view k none (M.delete k)
  pub lists : (prefix : Text) (s : M.State) (j : Text) → view (M.list_keys prefix s).1 j ≡ view s j

pub record IsFileStore (F : FileStore) (view : F.State → Text → Option Bytes) : Type 0 where
  pub reads : Reads view F.get
  pub puts : (k : Text) (v : Bytes) (mtime : ℤ) → Writes view k (some v) (F.put k v mtime)
  pub deletes : (k : Text) → Writes view k none (F.delete k)

-- The same of a store that keeps it at some of the keys only.
pub record KeyedReads {S : Type 0} (Key : Text → Type 0) (view : S → Text → Option Bytes)
    (get : Text → Eff S StoreError (Option Bytes)) : Type 0 where
  pub returned :
      (s : S) (k : Text) (found : Option Bytes) → Key k → (get k s).0 ≡ ok found → found ≡ view s k
  pub same : (s : S) (k j : Text) → Key j → view (get k s).1 j ≡ view s j

pub record KeyedWrites {S : Type 0} (Key : Text → Type 0) (view : S → Text → Option Bytes)
    (k : Text) (new : Option Bytes) (write : Eff S StoreError (Unit {0})) : Type 0 where
  pub written :
      (s : S) (j : Text)
      → Key j
      → view (write s).1 j ≡ (if j == k then landed (write s).0 new (view s j) else view s j)

pub record IsMetaStoreOn (Key : Text → Type 0) (M : MetaStore)
    (view : M.State → Text → Option Bytes) : Type 0 where
  pub reads : KeyedReads Key view M.get
  pub puts : (k : Text) (v : Bytes) → Key k → KeyedWrites Key view k (some v) (M.put k v)
  pub deletes : (k : Text) → Key k → KeyedWrites Key view k none (M.delete k)
  pub lists :
      (prefix : Text) (s : M.State) (j : Text) → Key j → view (M.list_keys prefix s).1 j ≡ view s j

pub record IsFileStoreOn (Key : Text → Type 0) (F : FileStore)
    (view : F.State → Text → Option Bytes) : Type 0 where
  pub reads : KeyedReads Key view F.get
  pub puts :
      (k : Text) (v : Bytes) (mtime : ℤ) → Key k → KeyedWrites Key view k (some v) (F.put k v mtime)
  pub deletes : (k : Text) → Key k → KeyedWrites Key view k none (F.delete k)
