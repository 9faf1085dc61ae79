-- ===== src/Checks/Files.antt =====
-- The theorems on the storage, each at the small storage of Checks/Small.
use vtfs.Base.{ℕ, ◌≡◌, refl, some, false, [], ◌∷◌, arith, inr}
use vtfs.Base.Int.{pos}
use vtfs.Base.Strings.{Bytes, codes, str_eq, clip}
use vtfs.Storage.State.{Entry, Store, dir_mode, write_request}
use vtfs.Storage.Path.{build_path}
use vtfs.Storage.Path.Full.{IsPath, build_path-IsPath}
use vtfs.Storage.Search.{vtfs_storage_lookup}
use vtfs.Storage.Search.First.{lookup-first}
use vtfs.Storage.Create.{create_entry_internal}
use vtfs.Storage.Create.Made.{Made, create-Made}
use vtfs.Storage.Remove.{vtfs_storage_delete_entry}
use vtfs.Storage.Remove.Gone.{Gone, delete-Gone}
use vtfs.Storage.Contents.{vtfs_storage_read, vtfs_storage_write}
use vtfs.Storage.Contents.File.{IsFresh}
use vtfs.Storage.Contents.Write.{Written, write-Written}
use vtfs.Storage.Contents.Read.{read-write}
use vtfs.Checks.Small.{Unnamed-but, file_entry, file_block, small, env, small-IsTree, small-IsFile}

-- the allocator grows the block of the file in place
small-IsFresh : IsFresh (env 0 9) small file_entry
small-IsFresh = record { got = refl; unused = inr refl }

read-write_example :
    (s' : Store) × (s'' : Store) × (vtfs_storage_write (env 0 9) 2 (codes "abc") 3 small
      ≡ some (pos 3, s'))
    × (vtfs_storage_read (env 0 0) 2 3 3 s' ≡ some ((pos 3, codes "abc"), s''))
read-write_example =
    read-write (env 0 9) small 2 file_entry (codes "abc") 3 small-IsTree refl small-IsFile
      small-IsFresh (omega arith) (omega arith) (env 0 0)

write-Written_example :
    (s' : Store) × (e' : Entry) × (vtfs_storage_write (env 0 9) 2 (codes "abc") 70 small
      ≡ some (pos 3, s'))
    × Written (env 0 9) small 2 file_entry (codes "abc") 70 s' e'
    × ((path : Bytes) × (s'.sent ≡ write_request (clip 512 path) (codes "abc") 0 ∷ []))
write-Written_example =
    write-Written (env 0 9) small 2 file_entry (codes "abc") 70 small-IsTree refl small-IsFile
      small-IsFresh (omega arith)

create-Made_example :
    (s' : Store) × (create_entry_internal (env 3 0) 1 (codes "b") dir_mode 0 false small
      ≡ some (3, s'))
    × Made (env 3 0) small 1 (codes "b") dir_mode 0 false s'
unfolding str_eq
create-Made_example =
    create-Made (env 3 0) small 1 (codes "b") dir_mode 0 false small-IsTree refl refl
      (Unnamed-but (codes "b") refl) refl refl

delete-Gone_example :
    (s' : Store) × (vtfs_storage_delete_entry (env 0 0) 2 small ≡ some (pos 0, s'))
    × Gone (env 0 0) small 2 s'
delete-Gone_example =
    delete-Gone (env 0 0) small 2 small-IsTree refl refl refl (inr (refl, (file_block, refl)))

build_path-IsPath_example :
    (path : Bytes) × (n : ℕ) × IsPath small 2 path n
    × (build_path 2 512 small ≡ some (clip 512 path, small))
build_path-IsPath_example = build_path-IsPath small 2 512 small-IsTree refl

lookup-first_example : vtfs_storage_lookup 1 (codes "a") small ≡ some (2, small)
unfolding str_eq
lookup-first_example = lookup-first small 1 (codes "a") small-IsTree refl refl
