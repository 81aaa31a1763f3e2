-- ===== src/Store/Memory.antt =====
-- `MemStore` (crates/client-core/src/store.rs): two maps, one for metadata and one for files.
-- A `HashMap` is an association list with at most one entry of a key; its order is not modelled.
use sync_stuff_opinionated.Base.{
  ◌≡◌, refl, Option, none, some, List, [], ◌∷◌, map, arith, if◌then◌else◌,
}
use sync_stuff_opinionated.Base.Text.{Text, Bytes, ◌==◌, starts_with}
use sync_stuff_opinionated.Base.Lists.{retain}
use sync_stuff_opinionated.Base.Effect.{Eff, ok}
use sync_stuff_opinionated.Base.Int.{ℤ}
use sync_stuff_opinionated.Store.{MetaStore, FileStore, StoreError, IsMetaStore, IsFileStore}

abbrev pub Table : Type 0
Table = List (Text × Bytes)

-- `HashMap::get`.
unfoldable pub lookup : Table → Text → Option Bytes
lookup [] k = none
lookup ((j, v) ∷ t) k = if k == j then some v else lookup t k

-- `HashMap::remove`.
unfoldable pub remove : Text → Table → Table
remove k [] = []
remove k ((j, v) ∷ t) = let rest = remove k t in if j == k then rest else (j, v) ∷ rest

-- `HashMap::insert`.
unfoldable pub insert : Text → Bytes → Table → Table
unfolding remove
insert k v t = (k, v) ∷ remove k t

pub lookup-remove :
    (k j : Text) (t : Table) → lookup (remove k t) j ≡ (if j == k then none else lookup t j)
unfolding lookup remove
lookup-remove k j [] = ground arith
lookup-remove k j ((i, v) ∷ t) = ground (arith, lookup-remove k j t)

pub lookup-insert :
    (k j : Text) (v : Bytes) (t : Table)
    → lookup (insert k v t) j ≡ (if j == k then some v else lookup t j)
unfolding lookup insert
lookup-insert k j v t = ground (arith, lookup-remove k j t)

pub record MemStore : Type 0 where
  pub meta : Table
  pub files : Table

unfoldable pub get_meta : Text → Eff MemStore StoreError (Option Bytes)
get_meta k s = (ok (lookup s.meta k), s)

unfoldable pub put_meta : Text → Bytes → Eff MemStore StoreError (Unit {0})
put_meta k v s = (ok tt, record s { meta = insert k v s.meta })

unfoldable pub delete_meta : Text → Eff MemStore StoreError (Unit {0})
delete_meta k s = (ok tt, record s { meta = remove k s.meta })

-- The keys of the map that begin with the prefix.
unfoldable pub keys_with : Text → Table → List Text
keys_with prefix t = retain (λ k. starts_with k prefix) (map (λ (k, _). k) t)

unfoldable pub list_meta_keys : Text → Eff MemStore StoreError (List Text)
unfolding keys_with
list_meta_keys prefix s = (ok (keys_with prefix s.meta), s)

unfoldable pub get_file : Text → Eff MemStore StoreError (Option Bytes)
get_file k s = (ok (lookup s.files k), s)

unfoldable pub put_file : Text → Bytes → ℤ → Eff MemStore StoreError (Unit {0})
put_file k v _ s = (ok tt, record s { files = insert k v s.files })

unfoldable pub delete_file : Text → Eff MemStore StoreError (Unit {0})
delete_file k s = (ok tt, record s { files = remove k s.files })

abbrev pub mem_meta : MetaStore
mem_meta = record {
  State = MemStore;
  get = get_meta;
  put = put_meta;
  delete = delete_meta;
  list_keys = list_meta_keys;
}

abbrev pub mem_files : FileStore
mem_files = record { State = MemStore; get = get_file; put = put_file; delete = delete_file }

-- The metadata half.
pub mem_meta-IsMetaStore : IsMetaStore mem_meta (λ s k. lookup s.meta k)
unfolding get_meta put_meta delete_meta list_meta_keys
mem_meta-IsMetaStore = record {
  reads = record { returned = λ s k e. cc; same = λ s k j. refl };
  puts = λ k v. record { written = λ s j. lookup-insert k j v s.meta };
  deletes = λ k. record { written = λ s j. lookup-remove k j s.meta };
  lists = λ prefix s j. refl;
}

-- The file half.
pub mem_files-IsFileStore : IsFileStore mem_files (λ s k. lookup s.files k)
unfolding get_file put_file delete_file
mem_files-IsFileStore = record {
  reads = record { returned = λ s k e. cc; same = λ s k j. refl };
  puts = λ k v mtime. record { written = λ s j. lookup-insert k j v s.files };
  deletes = λ k. record { written = λ s j. lookup-remove k j s.files };
}
