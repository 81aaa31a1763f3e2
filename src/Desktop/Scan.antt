-- ===== src/Desktop/Scan.antt =====
-- The scan of the synced directory (`scan`, crates/client-desktop/src/reconcile.rs): the regular
-- files below it, with their modification times. The directory is the tree that the calls of the
-- file system show.
use sync_stuff_opinionated.Base.{
  not, Bool, Option, none, some, List, [], ◌∷◌, ◌++◌, false, if◌then◌else◌,
}
use sync_stuff_opinionated.Base.Text.{Text, codes, ◌==◌}
use sync_stuff_opinionated.Base.Lists.{any, retain}
use sync_stuff_opinionated.Base.Int.{ℤ, pos}
use sync_stuff_opinionated.Base.Split.{ends_with}
use sync_stuff_opinionated.Engine.Queue.{unwrap_or}

mutual
  -- An entry of a directory by its type, which may be unknown. A directory may be unreadable, and a
  -- file has no time if any step to its seconds since 1970 fails. A name may be no Unicode.
  pub data Entry : Type 0 where
    directory : Option Text → Entries → Entry
    unreadable : Option Text → Entry
    file : Option Text → Option ℤ → Entry
    symlink : Option Text → Entry
    special : Option Text → Entry
    untyped : Option Text → Entry

  pub data Entries : Type 0 where
    no_entries : Entries
    entry : Entry → Entries → Entries

abbrev pub Local : Type 0
Local = List (Text × ℤ)

-- `HashMap::insert`.
abbrev pub insert : Text → ℤ → Local → Local
insert path mtime out = (path, mtime) ∷ retain (λ (known : Text × ℤ). not (known.0 == path)) out

-- `HashMap::contains_key`.
abbrev pub contains_key : Text → Local → Bool
contains_key path out = any (λ (known : Text × ℤ). known.0 == path) out

abbrev pub is_temp_name : Option Text → Bool
is_temp_name none = false
is_temp_name (some name) = ends_with name (codes ".tmp")

-- The text of a path below the prefix, if all names are Unicode.
abbrev pub below : Option Text → Option Text → Option Text
below none name = none
below (some prefix) none = none
below (some prefix) (some name) = some (prefix ++ name)

abbrev pub slashed : Option Text → Option Text
slashed none = none
slashed (some path) = some (path ++ codes "/")

abbrev pub insert_file : Option Text → Option ℤ → Local → Local
insert_file none mtime out = out
insert_file (some path) mtime out = insert path (unwrap_or mtime (pos 0)) out

unfoldable mutual
  pub scan_entry : Option Text → Entry → Local → Local
  scan_entry prefix (directory name entries) out =
      if is_temp_name name then out else scan_entries (slashed (below prefix name)) entries out
  scan_entry prefix (unreadable name) out = out
  scan_entry prefix (file name mtime) out =
      if is_temp_name name then out else insert_file (below prefix name) mtime out
  scan_entry prefix (symlink name) out = out
  scan_entry prefix (special name) out = out
  scan_entry prefix (untyped name) out = out

  pub scan_entries : Option Text → Entries → Local → Local
  scan_entries prefix no_entries out = out
  scan_entries prefix (entry e entries) out = scan_entries prefix entries (scan_entry prefix e out)

-- `scan` of a root that can be read, or not.
abbrev pub scan : Option Entries → Local
scan none = []
scan (some entries) = scan_entries (some []) entries []
