-- ===== src/Checks/Calls.antt =====
-- The theorems on the calls of the VFS, each at the small storage of Checks/Small.
use vtfs.Base.{◌≡◌, refl, Bool, true, false, none, some, List, [], ◌∷◌, ◌==◌, ltb, arith, inr}
use vtfs.Base.Int.{ℤ, pos, neg, enomem}
use vtfs.Base.Lists.{mem, length}
use vtfs.Base.Strings.{codes, str_eq}
use vtfs.Storage.State.{Ptr, Store, Env, file_mode}
use vtfs.Storage.Tree.{at}
use vtfs.Storage.Search.First.{first, named}
use vtfs.Ops.Dir.{Dirent, Ctx, vtfs_iterate, dot_dot}
use vtfs.Ops.Dir.Listing.{iterate-taken}
use vtfs.Ops.Dir.Resume.{always, iterate-resume}
use vtfs.Ops.Inode.{Dentry, vtfs_create, get_inode}
use vtfs.Ops.Inode.Create.{Restored, vtfs_create-Restored}
use vtfs.Ops.Inode.Remove.{Rmdir, rmdir-Rmdir}
use vtfs.Ops.File.{Client, FileInode}
use vtfs.Checks.Remote.{local, net_of}
use vtfs.Checks.Small.{file_block, small, env, small-IsTree, Unnamed-but}

-- a reader with room for one item
abbrev one_only : List Dirent → Dirent → Bool
one_only seen d = ltb (length seen) 1

abbrev second : Ctx
second = record { position = 1; emitted = [] }

abbrev dentry_a : Dentry
dentry_a = record { name = codes "a"; ino = 1001 }

unnamed_b :
    (q : Ptr) → mem q (at small 1).children ≡ true → str_eq (at small q).name (codes "b") ≡ false
unfolding str_eq
unnamed_b = Unnamed-but (codes "b") refl

a_found : first (named small (codes "a")) (at small 1).children ≡ 2
unfolding str_eq
a_found = refl

iterate-taken_example :
    vtfs_iterate one_only 1000 none second small
    ≡ some ((pos 1, record { position = 2; emitted = dot_dot 1000 ∷ [] }), small)
iterate-taken_example = iterate-taken one_only small 1 small-IsTree refl 1000 none second refl refl

iterate-resume_example :
    (r1 r2 : ℤ) × (ctx1 ctx2 : Ctx) × (vtfs_iterate one_only 1000 none second small
      ≡ some ((r1, ctx1), small))
    × (vtfs_iterate always 1000 none ctx1 small ≡ some ((r2, ctx2), small))
    × (ctx2.emitted ≡ dot_dot 1000 ∷ record { name = codes "a"; ino = 1001; kind = 8 } ∷ [])
iterate-resume_example =
    iterate-resume one_only small 1 small-IsTree refl 1000 none second refl refl

new_number : (q : Ptr) → mem q small.all_entries ≡ true → ((at small q).ino == 1002) ≡ false
new_number q i = ground arith

vtfs_create-Restored_example :
    (s' : Store) × (vtfs_create (env 3 0) false 1000 (codes "b") small
      ≡ some ((neg enomem, get_inode file_mode 1002 ∷ []), s'))
    × Restored small 3 s'
vtfs_create-Restored_example =
    vtfs_create-Restored (env 3 0) small 1 1000 (codes "b") small-IsTree refl refl refl unnamed_b
      refl refl new_number

rmdir-Rmdir_example :
    Rmdir (env 0 0) small 1 2 1000 dentry_a small-IsTree refl refl refl refl a_found
rmdir-Rmdir_example =
    rmdir-Rmdir (env 0 0) small 1 2 1000 dentry_a small-IsTree refl refl refl refl a_found
      (inr (refl, (file_block, refl)))

-- without a server
abbrev alone : Ptr → Env
alone b = record (env 0 b) { server_url = [] }

-- a server that is not asked
abbrev silent : Client
silent = record { server = local; token = []; net = net_of [] }

-- the kernel's inode of the file, before a write and after
abbrev inode : FileInode
inode = record { ino = 1001; size = 5; mtime = 1; ctime = 1 }

abbrev inode_now : FileInode
inode_now = record { ino = 1001; size = 8; mtime = 7; ctime = 7 }
