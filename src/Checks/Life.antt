-- ===== src/Checks/Life.antt =====
-- The start and the end of the module and the lookup, each at the small storage of Checks/Small.
use vtfs.Base.{◌≡◌, refl, inr, true, false, none, some, [], ◌∷◌, ◌==◌, if◌then◌else◌}
use vtfs.Base.Int.{negsuc}
use vtfs.Base.Strings.{codes, str_eq}
use vtfs.Storage.State.{Store, load, kfree, free_entry_at, spin_lock, change}
use vtfs.Storage.Tree.{at, IsTree}
use vtfs.Storage.Cleanup.{
  vtfs_storage_cleanup, free_root, free_entries_recursive, free_children, remove_child, free_entry,
}
use vtfs.Storage.Cleanup.All.{Cleaned}
use vtfs.Http.Server.{initial}
use vtfs.Storage.Search.First.{first, named}
use vtfs.Storage.State.{file_mode}
use vtfs.Storage.Create.Init.{fresh}
use vtfs.Storage.Sound.Reached.{Op, create, run, Reached, start, Reached-run, Reached-Cleaned}
use vtfs.Ops.Lookup.{Remote}
use vtfs.Ops.Lookup.Cached.{Lookup, vtfs_lookup-Lookup}
use vtfs.Module.{Super, Inode, no_super_ops, default_ops}
use vtfs.Module.Mount.{nodev, Ending, vtfs_mount-Ending}
use vtfs.Module.Life.{Init, vtfs_init-Init}
use vtfs.Checks.Small.{file_entry, small, env, small-IsTree}
use vtfs.Checks.Remote.{local, net_of}

-- a storage that has just been initialised, and a file to make in it
abbrev empty : Store
empty = fresh (env 3 0) small refl

make_file : Op empty
make_file = create (env 4 0) 3 (codes "b") file_mode false refl refl refl

Reached-run_example : (s' : Store) × (run empty make_file ≡ some s') × IsTree s' × Reached s'
Reached-run_example = Reached-run (start (env 3 0) small refl) make_file

-- the storage with the file
with_file : (s' : Store) × (run empty make_file ≡ some s') × IsTree s' × Reached s'
with_file = Reached-run (start (env 3 0) small refl) make_file

Reached-Cleaned_example :
    (s' : Store) × (vtfs_storage_cleanup (with_file.0) ≡ some (tt, s')) × Cleaned (with_file.0) s'
Reached-Cleaned_example = Reached-Cleaned with_file.3

vtfs_init-Init_example : Init (env 3 0) (some (codes "http://10.0.0.2")) (negsuc 15) initial small
vtfs_init-Init_example =
    vtfs_init-Init (env 3 0) (some (codes "http://10.0.0.2")) (negsuc 15) initial small

-- a client that is not asked
abbrev remote : Remote
remote = record {
  server = local;
  token = [];
  stat_net = net_of [];
  read_net = net_of [];
  has_buffer = true;
}

a_found : (first (named small (codes "a")) (at small 1).children == 0) ≡ false
unfolding str_eq
a_found = refl

vtfs_lookup-Lookup_example :
    Lookup (env 0 0) remote true small 1 1000 (codes "a") small-IsTree refl refl refl
vtfs_lookup-Lookup_example =
    vtfs_lookup-Lookup (env 0 0) remote true small 1 1000 (codes "a") small-IsTree refl refl refl
      (inr a_found)

-- the file and a hard link to it
abbrev linked : Store
linked = record small {
  entry = λ p.
      if p == 3
      then some (record file_entry { name = codes "b" })
      else if p == 1
      then some (record (at small 1) { children = 3 ∷ 2 ∷ [] })
      else small.entry p;
  all_entries = 3 ∷ 2 ∷ 1 ∷ [];
}

-- The data that two links share is freed twice.
freed_twice : vtfs_storage_cleanup linked ≡ none
unfolding vtfs_storage_cleanup free_root free_entries_recursive free_children remove_child
    free_entry load kfree free_entry_at spin_lock change
freed_twice = refl

-- a super block and an inode as the kernel makes them
abbrev new_super : Super
new_super = record {
  magic = 0;
  blocksize = 0;
  blocksize_bits = 0;
  ops = no_super_ops;
  maxbytes = 0;
  root = none;
}

abbrev new_inode : Inode
new_inode = record {
  ino = 0;
  mode = 0;
  uid = 5;
  gid = 5;
  atime = 0;
  mtime = 0;
  ctime = 0;
  nlink = 1;
  ops = default_ops;
}

vtfs_mount-Ending_example :
    Ending
      (nodev new_super)
      new_super
      (λ flags fill. refl)
      (env 3 0)
      small
      refl
      0
      12
      7
      (some new_inode)
      true
vtfs_mount-Ending_example =
    vtfs_mount-Ending (nodev new_super) new_super (λ flags fill. refl) (env 3 0) small refl 0 12 7
      (some new_inode) true
