-- ===== src/Tests/DiskRuns.antt =====
-- The stores of the desktop client over a directory in memory.
use sync_stuff_opinionated.Base.{◌≡◌, refl, some, [], ◌∷◌, ◌++◌}
use sync_stuff_opinionated.Base.Text.{codes, strip_prefix, text_dec}
use sync_stuff_opinionated.Base.Int.{pos}
use sync_stuff_opinionated.Base.Effect.{ok, ◌>>=◌, pure}
use sync_stuff_opinionated.Base.Decimal.{decimal}
use sync_stuff_opinionated.Store.{IsMetaStoreOn, IsFileStoreOn}
use sync_stuff_opinionated.Desktop.FsStore.{
  on_disk, tmp_name, atomic_write, put_file, get_file, fs_meta, fs_files,
}
use sync_stuff_opinionated.Desktop.FsStore.Replaced.{Replaced, atomic_write-Replaced}
use sync_stuff_opinionated.Desktop.FsStore.Metadata.{MetaKey, meta_view, fs_meta-IsMetaStoreOn}
use sync_stuff_opinionated.Desktop.FsStore.Synced.{FileKey, file_view, fs_files-IsFileStoreOn}
use sync_stuff_opinionated.Tests.Directory.{
  memory, memory_view, memory-IsFileSystem, path_dec, empty_disk,
}

-- A file is written, and read back; a path out of the directory is refused.
written_back :
    (get_file memory 1
      (codes "root" ∷ [])
      (codes "a/b")
      (put_file memory 1 (codes "root" ∷ []) (codes "a/b") (codes "x") (pos 5) empty_disk).1).0
    ≡ ok (some (codes "x"))
unfolding get_file put_file on_disk tmp_name path_dec text_dec decimal ◌>>=◌ pure
written_back = refl

atomic_write-Replaced_example :
    Replaced memory memory_view memory-IsFileSystem
      (codes "d" ∷ codes "k" ∷ [])
      (some (codes "x"))
      empty_disk
      (atomic_write memory 1 (codes "d" ∷ codes "k" ∷ []) (codes "x") empty_disk)
unfolding text_dec
atomic_write-Replaced_example =
    atomic_write-Replaced memory memory_view memory-IsFileSystem (codes "d" ∷ codes "k" ∷ [])
      (codes "x") refl 1 empty_disk

fs_meta-IsMetaStoreOn_example :
    IsMetaStoreOn
      (MetaKey memory memory_view memory-IsFileSystem 1
        (codes "meta" ∷ [])
        (λ key. codes "k" ++ key)
        (λ name. strip_prefix name (codes "k"))
        (λ key. refl))
      (fs_meta memory 1
        (codes "meta" ∷ [])
        (λ key. codes "k" ++ key)
        (λ name. strip_prefix name (codes "k")))
      (meta_view memory memory_view memory-IsFileSystem 1
        (codes "meta" ∷ [])
        (λ key. codes "k" ++ key)
        (λ name. strip_prefix name (codes "k"))
        (λ key. refl))
fs_meta-IsMetaStoreOn_example =
    fs_meta-IsMetaStoreOn memory memory_view memory-IsFileSystem 1 (codes "meta" ∷ [])
      (λ key. codes "k" ++ key) (λ name. strip_prefix name (codes "k")) (λ key. refl)

fs_files-IsFileStoreOn_example :
    IsFileStoreOn
      (FileKey memory memory_view memory-IsFileSystem 1 (codes "root" ∷ []))
      (fs_files memory 1 (codes "root" ∷ []))
      (file_view memory memory_view memory-IsFileSystem 1 (codes "root" ∷ []))
fs_files-IsFileStoreOn_example =
    fs_files-IsFileStoreOn memory memory_view memory-IsFileSystem 1 (codes "root" ∷ [])
