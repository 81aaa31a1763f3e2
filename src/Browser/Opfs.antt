-- ===== src/Browser/Opfs.antt =====
-- The stores of the web client over the Origin Private File System of the browser
-- (crates/client-web/src/opfs.rs).
pub mod Reading
use sync_stuff_opinionated.Base.{
  not, Bool, true, false, Option, none, some, List, [], ◌∷◌, ◌++◌, if◌then◌else◌,
}
use sync_stuff_opinionated.Base.Text.{Text, Bytes, codes, starts_with, is_empty}
use sync_stuff_opinionated.Base.Lists.{retain, filter_map}
use sync_stuff_opinionated.Base.Int.{ℤ}
use sync_stuff_opinionated.Base.Split.{split}
use sync_stuff_opinionated.Base.Effect.{
  Eff, Result, ok, err, panic, pure, fail, panics, with_err, caught, ◌>>=◌, ◌>>◌,
}
use sync_stuff_opinionated.Hub.{slash}
use sync_stuff_opinionated.Store.{StoreError, MetaStore, FileStore}

-- A rejected promise: whether the name of its error is `NotFoundError`, and its text.
pub data JsError : Type 0 where
  not_found : Text → JsError
  other : Text → JsError

abbrev pub js_err : JsError → StoreError
js_err (not_found e) = StoreError.io e
js_err (other e) = StoreError.io e

-- An entry of a directory: its name, if it is a string, and whether it is a directory.
pub record DirEntry : Type 0 where
  pub name : Option Text
  pub is_directory : Bool

-- The calls of the browser, each with the downcast of its result.
pub record Opfs : Type 1 where
  pub State : Type 0
  pub Directory : Type 0
  pub File : Type 0
  pub Writable : Type 0
  pub root : Directory
  pub get_directory_handle : Directory → Text → Bool → Eff State JsError Directory
  pub get_file_handle : Directory → Text → Bool → Eff State JsError File
  pub array_buffer : File → Eff State JsError Bytes
  pub create_writable : File → Eff State JsError Writable
  pub write_buffer : Writable → Bytes → Eff State JsError (Unit {0})
  pub close : Writable → Eff State JsError (Unit {0})
  pub remove_entry : Directory → Text → Eff State JsError (Unit {0})
  pub entries : Directory → Eff State JsError (List DirEntry)

abbrev pub parts : Text → List Text
parts path = retain (λ part. not (is_empty part)) (split slash path)

-- `split_last`, of a part and the parts after it.
abbrev pub split_from : Text → List Text → Text × List Text
split_from part [] = (part, [])
split_from part (next ∷ rest) = let (last, parents) = split_from next rest in (last, part ∷ parents)

abbrev pub split_last : List Text → Option (Text × List Text)
split_last [] = none
split_last (part ∷ rest) = some (split_from part rest)

-- The names of the files among the entries.
abbrev pub file_name_of : DirEntry → Option Text
file_name_of e = if e.is_directory then none else e.name

module _ (O : Opfs) where
  abbrev pub Action : Type 0 → Type 0
  Action A = Eff O.State StoreError A

  unfoldable pub await : {A : Type 0} → Eff O.State JsError A → Action A
  await promise = with_err js_err promise

  unfoldable pub walk : Bool → O.Directory → List Text → Action O.Directory
  walk create dir [] = pure dir
  walk create dir (part ∷ rest) = do
    next ← await (O.get_directory_handle dir part create)
    walk create next rest

  abbrev pub handle_at : Bool → Option (Text × List Text) → Action O.File
  handle_at create none = fail (StoreError.io (codes "empty path"))
  handle_at create (some (last, parents)) = do
    dir ← walk create O.root parents
    await (O.get_file_handle dir last create)

  unfoldable pub file_handle : Text → Bool → Action O.File
  file_handle path create = handle_at create (split_last (parts path))

  -- Any failure to get the handle is a missing file.
  abbrev pub read_handle : Result StoreError O.File → Action (Option Bytes)
  read_handle (ok handle) = do bytes ← await (O.array_buffer handle); pure (some bytes)
  read_handle (err e) = pure none
  read_handle panic = panics

  unfoldable pub read : Text → Action (Option Bytes)
  read path = do handle ← caught (file_handle path false); read_handle handle

  unfoldable pub write : Text → Bytes → Action (Unit {0})
  write path content = do
    handle ← file_handle path true
    writable ← await (O.create_writable handle)
    await (O.write_buffer writable content)
    await (O.close writable)

  -- A step that ends the operation if there is no such entry.
  abbrev pub if_found : {A B : Type 0} → B → (A → Action B) → Result JsError A → Action B
  if_found missing found (ok a) = found a
  if_found missing found (err (not_found e)) = pure missing
  if_found missing found (err (other e)) = fail (js_err (other e))
  if_found missing found panic = panics

  -- The directory at the end of the parts, for the rest of an operation.
  unfoldable pub descend :
      {B : Type 0} → B → (O.Directory → Action B) → List Text → O.Directory → Action B
  descend missing found [] dir = found dir
  descend missing found (part ∷ rest) dir = do
    resolved ← caught (O.get_directory_handle dir part false)
    if_found missing (descend missing found rest) resolved

  abbrev pub remove_last : Text → O.Directory → Action (Unit {0})
  remove_last last dir = do removed ← caught (O.remove_entry dir last); if_found tt pure removed

  abbrev pub remove_at : Option (Text × List Text) → Action (Unit {0})
  remove_at none = pure tt
  remove_at (some (last, parents)) = descend tt (remove_last last) parents O.root

  unfoldable pub remove : Text → Action (Unit {0})
  remove path = remove_at (split_last (parts path))

  abbrev pub names_in : O.Directory → Action (List Text)
  names_in dir = do found ← await (O.entries dir); pure (filter_map file_name_of found)

  unfoldable pub list : Text → Action (List Text)
  list dir = descend [] names_in (parts dir) O.root

  abbrev pub content_path : Text → Text
  content_path path = codes "content/" ++ path

  abbrev pub opfs_files : FileStore
  opfs_files = record {
    State = O.State;
    get = λ path. read (content_path path);
    put = λ path content mtime. write (content_path path) content;
    delete = λ path. remove (content_path path);
  }

  -- One file per key, named by the encoded key.
  module _ (encode : Text → Text) (decode : Text → Option Text) where
    abbrev pub meta_path : Text → Text
    meta_path key = codes "meta/" ++ encode key

    abbrev pub with_prefix : Text → List Text → List Text
    with_prefix prefix names = retain (λ key. starts_with key prefix) (filter_map decode names)

    unfoldable pub list_keys : Text → Action (List Text)
    list_keys prefix = do names ← list (codes "meta"); pure (with_prefix prefix names)

    abbrev pub opfs_meta : MetaStore
    opfs_meta = record {
      State = O.State;
      get = λ key. read (meta_path key);
      put = λ key value. write (meta_path key) value;
      delete = λ key. remove (meta_path key);
      list_keys = list_keys;
    }
