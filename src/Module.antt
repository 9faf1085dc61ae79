-- ===== src/Module.antt =====
-- The life of the module, module/vtfs_main.c: its inodes and super block, `vtfs_mount` and
-- `vtfs_kill_sb`, `vtfs_init` and `vtfs_exit`.
pub mod Life
pub mod Mount
use vtfs.Base.{
  ℕ, Bool, false, not, Option, none, some, List, [], ◌∷◌, ◌==◌, ltb, if◌then◌else◌, ◌^◌,
}
use vtfs.Base.Int.{ℤ, pos, neg, is_zero, enomem}
use vtfs.Base.Lists.{length}
use vtfs.Base.Strings.{Bytes, codes}
use vtfs.Storage.State.{Ptr, Store, Env, is_dir, is_reg, dir_mode, root_ino, max_file_size}
use vtfs.Storage.Create.{vtfs_storage_init}
use vtfs.Storage.Cleanup.{vtfs_storage_cleanup}
use vtfs.Http.Server.{Server, vtfs_http_init, vtfs_http_cleanup}

-- The tables of functions that an inode can have: the module's, or the kernel's default ones.
pub data InodeOps : Type 0 where
  default_ops : InodeOps
  dir_ops : InodeOps
  file_ops : InodeOps

-- `struct inode`, as far as the module sets it.
pub record Inode : Type 0 where
  pub ino : ℕ
  pub mode : ℕ
  pub uid : ℕ
  pub gid : ℕ
  pub atime : ℕ
  pub mtime : ℕ
  pub ctime : ℕ
  pub nlink : ℕ
  pub ops : InodeOps

abbrev with_owner : Option Inode → Inode → Inode
with_owner none inode = record inode { uid = 0; gid = 0 }
with_owner (some dir) inode = record inode { uid = dir.uid; gid = dir.gid }

abbrev with_ops : Inode → Inode
with_ops inode =
    if is_dir inode.mode
    then record inode { ops = dir_ops; nlink = 2 }
    else if is_reg inode.mode
    then record inode { ops = file_ops; nlink = 1 }
    else inode

-- `new_inode` is what the kernel's call of this name returns.
unfoldable pub vtfs_get_inode :
    (new_inode : Option Inode) → (dir : Option Inode) → (mode ino now : ℕ) → Option Inode
vtfs_get_inode none dir mode ino now = none
vtfs_get_inode (some inode) dir mode ino now = some (
    with_ops (record (with_owner dir (record inode { ino = ino; mode = mode })) {
      atime = now;
      mtime = now;
      ctime = now;
    }))

-- The tables of functions that a super block can have: none yet, or the module's.
pub data SuperOps : Type 0 where
  no_super_ops : SuperOps
  vtfs_super_ops : SuperOps

-- Every inode is dropped with its last user.
unfoldable pub vtfs_drop_inode : Inode → ℤ
vtfs_drop_inode inode = pos 1

-- `struct super_block`, as far as the module sets it.
pub record Super : Type 0 where
  pub magic : ℕ
  pub blocksize : ℕ
  pub blocksize_bits : ℕ
  pub ops : SuperOps
  pub maxbytes : ℕ
  pub root : Option Inode

-- The inode becomes the root, if `d_make_root` finds memory.
abbrev make_root : (made_root : Bool) → Super → Option Inode → ℤ × Super
make_root made_root sb none = (neg enomem, sb)
make_root made_root sb (some inode) =
    if not made_root
    then (neg enomem, record sb { root = none })
    else (pos 0, record sb { root = some inode })

-- A page has 2 ^ page_shift bytes.
unfoldable pub vtfs_fill_super :
    (page_shift : ℕ)
    → Store
    → (new_inode : Option Inode) → (made_root : Bool) → (now : ℕ) → Super
    → ℤ × Super
vtfs_fill_super page_shift s new_inode made_root now sb =
    let sb = record sb {
      magic = 0x56544653;
      blocksize = 2 ^ page_shift;
      blocksize_bits = page_shift;
      ops = vtfs_super_ops;
      maxbytes = max_file_size;
    } in
    if s.root == 0
    then (neg enomem, sb)
    else make_root made_root sb (vtfs_get_inode new_inode none dir_mode root_ino now)

-- `mount_nodev` is the kernel's: it makes a super block, has it filled, and returns what is mounted.
unfoldable pub vtfs_mount :
    {Mounted : Type 0}
    → (mount_nodev : (flags : ℕ) → (Super → ℤ × Super) → Mounted) → (flags page_shift : ℕ) → Store
    → (new_inode : Option Inode) → (made_root : Bool) → (now : ℕ) → Mounted
vtfs_mount mount_nodev flags page_shift s new_inode made_root now =
    mount_nodev flags (vtfs_fill_super page_shift s new_inode made_root now)

-- What the kernel is asked for when a super block goes.
pub data SuperCall : Type 0 where
  truncate_inode_pages_final : (ino : ℕ) → SuperCall
  kill_anon_super : SuperCall

unfoldable pub vtfs_kill_sb : Super → List SuperCall
vtfs_kill_sb sb = elim sb.root [
  | none ↦ kill_anon_super ∷ []
  | some inode ↦ truncate_inode_pages_final inode.ino ∷ kill_anon_super ∷ []
]

-- The two static variables; the second is a parameter of the module.
pub record Params : Type 0 where
  pub server_url : Option Bytes
  pub token : Bytes

abbrev pub default_params : Params
default_params = record { server_url = some (codes "http://127.0.0.1:8080"); token = [] }

unfoldable pub vtfs_get_server_url : Params → Option Bytes
vtfs_get_server_url params = params.server_url

unfoldable pub vtfs_get_token : Params → Bytes
vtfs_get_token params = params.token

-- The client's variables, and the storage.
abbrev pub System : Type 0
System = Server × Store

abbrev pub has_url : Option Bytes → Bool
has_url none = false
has_url (some url) = ltb 0 (length url)

abbrev pub stop_client : Option Bytes → Server → Server
stop_client url server = if has_url url then vtfs_http_cleanup server else server

abbrev cleaned_up :
    (ret : ℤ) → Option Bytes → Server → Option (Unit {0} × Store) → Option (ℤ × System)
cleaned_up ret url server none = none
cleaned_up ret url server (some (done, s)) = some (ret, (stop_client url server, s))

-- From the result of `vtfs_storage_init` on; `registered` is what `register_filesystem` returns.
abbrev with_storage :
    Option Bytes → (registered : ℤ) → Server → Option (ℤ × Store) → Option (ℤ × System)
with_storage url registered server none = none
with_storage url registered server (some (ret, s)) =
    if not (is_zero ret)
    then some (ret, (stop_client url server, s))
    else if not (is_zero registered)
    then cleaned_up registered url server (vtfs_storage_cleanup s)
    else some (pos 0, (server, s))

unfoldable pub vtfs_init : Env → Option Bytes → (registered : ℤ) → System → Option (ℤ × System)
vtfs_init env url registered (server, s) =
    let started = if has_url url then vtfs_http_init url server else (pos 0, server) in
    if not (is_zero started.0)
    then some (started.0, (started.1, s))
    else with_storage url registered started.1 (vtfs_storage_init env s)

unfoldable pub vtfs_exit : Option Bytes → System → Option (ℤ × System)
vtfs_exit url (server, s) = cleaned_up (pos 0) url server (vtfs_storage_cleanup s)
