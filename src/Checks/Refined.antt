-- ===== src/Checks/Refined.antt =====
-- The specification of the storage, at a session of four calls.
use vtfs.Base.{◌≡◌, refl, Option, none, some, List, [], ◌∷◌, arith, true, false, inl}
use vtfs.Base.Int.{pos}
use vtfs.Base.Strings.{codes, str_eq}
use vtfs.Base.Lists.{mem}
use vtfs.Storage.Path.{build_path}
use vtfs.Storage.State.{Store, load, change, spin_lock, file_mode}
use vtfs.Storage.Contents.{
  vtfs_storage_read, vtfs_storage_write, memcpy_from, memcpy_to, memset_zero, krealloc, reserve,
  fill, sync_write_to_server,
}
use vtfs.Storage.Create.{
  create_entry_internal, alloc_entry, choose_ino, link_entry, announce, sync_create_to_server,
}
use vtfs.Storage.Search.{vtfs_storage_lookup}
use vtfs.Storage.Create.Init.{fresh}
use vtfs.Storage.Sound.Reached.{Op, create, starved_create, write, read, start}
use vtfs.Storage.Spec.{
  Call, create_call, create_without_memory, write_call, read_call, Reply, handle, result, Plays,
  new_file_system,
}
use vtfs.Storage.Spec.View.{view}
use vtfs.Storage.Spec.Refines.{answer, Session, done, call, Allowed, Reached-Does, fresh-Plays}
use vtfs.Storage.Spec.Unique.{IsUnique, Session-IsUnique}
use vtfs.Checks.Small.{small, env}

abbrev empty : Store
empty = fresh (env 3 0) small refl

abbrev make_file : Op empty
make_file = create (env 4 0) 3 (codes "b") file_mode false refl refl refl

-- What an answer leaves.
abbrev left_by : Option (Reply × Store) → Store
left_by none = empty
left_by (some (reply, s)) = s

abbrev made : Store
made = left_by (answer empty make_file)

make_answer : answer empty make_file ≡ some (handle 4, made)
unfolding create_entry_internal alloc_entry choose_ino link_entry announce sync_create_to_server
    vtfs_storage_lookup load change spin_lock str_eq build_path
make_answer = refl

made_listed : mem 4 made.all_entries ≡ true
unfolding create_entry_internal alloc_entry choose_ino link_entry announce sync_create_to_server
    vtfs_storage_lookup load change spin_lock str_eq build_path
made_listed = refl

made_free : made.block 7 ≡ none
unfolding create_entry_internal alloc_entry choose_ino link_entry announce sync_create_to_server
    vtfs_storage_lookup load change spin_lock str_eq build_path
made_free = refl

abbrev fill_file : Op made
fill_file = write (env 0 7) 4 (codes "hi") 1 made_listed refl (inl made_free) (omega arith)

abbrev written : Store
written = left_by (answer made fill_file)

fill_answer : answer made fill_file ≡ some (result (pos 2) [], written)
unfolding create_entry_internal alloc_entry choose_ino link_entry announce sync_create_to_server
    vtfs_storage_lookup load change spin_lock str_eq build_path vtfs_storage_write memcpy_to
    memset_zero krealloc reserve fill sync_write_to_server
fill_answer = refl

written_listed : mem 4 written.all_entries ≡ true
unfolding create_entry_internal alloc_entry choose_ino link_entry announce sync_create_to_server
    vtfs_storage_lookup load change spin_lock str_eq build_path vtfs_storage_write memcpy_to
    memset_zero krealloc reserve fill sync_write_to_server
written_listed = refl

abbrev read_file : Op written
read_file = read (env 0 0) 4 9 0 written_listed

read_answer :
    answer written read_file
    ≡ some (result (pos 3) (0 ∷ codes "hi"), left_by (answer written read_file))
unfolding create_entry_internal alloc_entry choose_ino link_entry announce sync_create_to_server
    vtfs_storage_lookup load change spin_lock str_eq build_path vtfs_storage_write memcpy_to
    memset_zero krealloc reserve fill sync_write_to_server vtfs_storage_read memcpy_from
read_answer = refl

abbrev seen : Store
seen = left_by (answer written read_file)

seen_listed : mem 3 seen.all_entries ≡ true
unfolding create_entry_internal alloc_entry choose_ino link_entry announce sync_create_to_server
    vtfs_storage_lookup load change spin_lock str_eq build_path vtfs_storage_write memcpy_to
    memset_zero krealloc reserve fill sync_write_to_server vtfs_storage_read memcpy_from
seen_listed = refl

abbrev no_more : Op seen
no_more = starved_create (env 0 0) 3 (codes "c") file_mode false seen_listed refl

starved_answer : answer seen no_more ≡ some (handle 0, left_by (answer seen no_more))
unfolding create_entry_internal alloc_entry choose_ino link_entry announce sync_create_to_server
    vtfs_storage_lookup load change spin_lock str_eq build_path vtfs_storage_write memcpy_to
    memset_zero krealloc reserve fill sync_write_to_server vtfs_storage_read memcpy_from
starved_answer = refl

-- A file is made, written to behind its end, and read; for another one there is no memory.
abbrev trace : List (Call × Reply)
trace =
    (create_call 3 (codes "b") file_mode, handle 4)
    ∷ (write_call 4 (codes "hi") 1, result (pos 2) [])
    ∷ (read_call 4 9 0, result (pos 3) (0 ∷ codes "hi"))
    ∷ (create_without_memory 3 (codes "c") file_mode, handle 0)
    ∷ []

session : Session empty trace (left_by (answer seen no_more))
session = call make_file make_answer (
    call fill_file fill_answer (
      call read_file read_answer
        (call no_more starved_answer (done (left_by (answer seen no_more))))))

fresh-Plays_example : Plays (new_file_system 3) trace (view (left_by (answer seen no_more)))
fresh-Plays_example = fresh-Plays (env 3 0) small refl session

Reached-Does_example : Allowed empty make_file
Reached-Does_example = Reached-Does (start (env 3 0) small refl) make_file

Session-IsUnique_example : IsUnique (view (left_by (answer seen no_more)))
Session-IsUnique_example =
    Session-IsUnique (env 3 0) small refl (omega arith, (tt, (tt, (tt, tt)))) session
