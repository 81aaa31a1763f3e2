-- ===== src/Browser/Opfs/Reading.antt =====
-- Reading the stores of the web client creates nothing (crates/client-web/src/opfs.rs).
use sync_stuff_opinionated.Base.{false, Option, none, some, List, [], ◌∷◌}
use sync_stuff_opinionated.Base.Text.{Text, codes}
use sync_stuff_opinionated.Base.Effect.{
  Eff, Result, ok, err, panic, caught, Keeps, Keeps-pure, Keeps-fail, Keeps-panics, Keeps-bind,
}
use sync_stuff_opinionated.Browser.Opfs.{
  JsError, not_found, other, Opfs, parts, split_last, await, walk, handle_at, file_handle,
  read_handle, read, if_found, descend, names_in, list, content_path, meta_path, list_keys,
  opfs_files, opfs_meta,
}

Keeps-caught :
    {W E F A : Type 0} {Q : W → Type 0} (m : Eff W E A) → Keeps Q m → Keeps Q (caught {F = F} m)
Keeps-caught m keeps = record { at = λ w h. keeps.at w h }

module _ (O : Opfs) (Q : O.State → Type 0)
    (keeps_directory : (dir : O.Directory) (name : Text)
      → Keeps Q (O.get_directory_handle dir name false))
    (keeps_file : (dir : O.Directory) (name : Text) → Keeps Q (O.get_file_handle dir name false))
    (keeps_buffer : (handle : O.File) → Keeps Q (O.array_buffer handle))
    (keeps_entries : (dir : O.Directory) → Keeps Q (O.entries dir)) where
  Keeps-await : {A : Type 0} (m : Eff O.State JsError A) → Keeps Q m → Keeps Q (await O m)
  unfolding await
  Keeps-await m keeps = record { at = λ w h. keeps.at w h }

  Keeps-walk : (dir : O.Directory) (path : List Text) → Keeps Q (walk O false dir path)
  unfolding walk
  Keeps-walk dir [] = Keeps-pure dir
  Keeps-walk dir (part ∷ rest) =
      Keeps-bind _ _ (Keeps-await _ (keeps_directory dir part)) (λ next. Keeps-walk next rest)

  Keeps-handle_at : (at : Option (Text × List Text)) → Keeps Q (handle_at O false at)
  Keeps-handle_at none = Keeps-fail _
  Keeps-handle_at (some (last, parents)) =
      Keeps-bind _ _ (Keeps-walk O.root parents) (λ dir. Keeps-await _ (keeps_file dir last))

  Keeps-read_handle : (r : Result _ O.File) → Keeps Q (read_handle O r)
  Keeps-read_handle (ok handle) =
      Keeps-bind _ _ (Keeps-await _ (keeps_buffer handle)) (λ bytes. Keeps-pure _)
  Keeps-read_handle (err e) = Keeps-pure _
  Keeps-read_handle panic = Keeps-panics

  Keeps-read : (path : Text) → Keeps Q (read O path)
  unfolding read file_handle
  Keeps-read path =
      Keeps-bind _ _ (Keeps-caught _ (Keeps-handle_at (split_last (parts path)))) Keeps-read_handle

  Keeps-descend :
      {B : Type 0} (missing : B) (found : O.Directory → Eff O.State _ B) (path : List Text)
      (dir : O.Directory)
      → ((d : O.Directory) → Keeps Q (found d))
      → Keeps Q (descend O missing found path dir)
  unfolding descend
  Keeps-descend missing found [] dir good = good dir
  Keeps-descend missing found (part ∷ rest) dir good =
      Keeps-bind _ _ (Keeps-caught _ (keeps_directory dir part))
        (onward (λ next. Keeps-descend missing found rest next good))
    where
      onward :
          ((next : O.Directory) → Keeps Q (descend O missing found rest next))
          → (r : Result JsError O.Directory)
          → Keeps Q (if_found O missing (descend O missing found rest) r)
      onward further (ok next) = further next
      onward further (err (not_found e)) = Keeps-pure _
      onward further (err (other e)) = Keeps-fail _
      onward further panic = Keeps-panics

  Keeps-list : (dir : Text) → Keeps Q (list O dir)
  unfolding list
  Keeps-list dir =
      Keeps-descend [] (names_in O) (parts dir) O.root
        (λ d. Keeps-bind _ _ (Keeps-await _ (keeps_entries d)) (λ found. Keeps-pure _))

  -- A property of the file system that is kept by the calls that look up handles without creating
  -- them, read a file and list a directory is kept by every read of both stores and by the listing
  -- of the keys, whatever their outcome.
  pub reads-Keep :
      (encode : Text → Text) (decode : Text → Option Text)
      → ((path : Text) → Keeps Q ((opfs_files O).get path))
        × ((key : Text) → Keeps Q ((opfs_meta O encode decode).get key))
        × ((prefix : Text) → Keeps Q ((opfs_meta O encode decode).list_keys prefix))
  unfolding list_keys
  reads-Keep encode decode = (
    λ path. Keeps-read (content_path O path),
    λ key. Keeps-read (meta_path O encode decode key),
    λ prefix. Keeps-bind _ _ (Keeps-list (codes "meta")) (λ names. Keeps-pure _),
  )
