-- ===== src/Ops/Lookup.antt =====
-- `fetch_from_remote` and `vtfs_lookup`, module/inode_ops.c. The calls that a lookup makes of the kernel
-- are a list beside its result.
pub mod Cached
pub mod Fetched
use vtfs.Base.{
  ℕ, Bool, true, false, not, Option, none, some, List, [], ◌∷◌, ◌==◌, if◌then◌else◌, zero, suc,
}
use vtfs.Base.Int.{ℤ, pos, negsuc, neg, is_zero, enoent, enomem}
use vtfs.Base.Lists.{take}
use vtfs.Base.Strings.{Bytes, str_eq, strlcat}
use vtfs.Storage.State.{Ptr, Env, Cmd, pure, fault, ◌>>=◌, ◌>>◌, load, is_reg, use_remote_server}
use vtfs.Storage.Path.{build_path, slash}
use vtfs.Storage.Search.{vtfs_storage_lookup, vtfs_storage_get_by_ino}
use vtfs.Storage.Create.{vtfs_storage_create_entry_no_sync}
use vtfs.Storage.Contents.{vtfs_storage_write}
use vtfs.Http.Server.{Server}
use vtfs.Http.Call.{Net}
use vtfs.Http.Remote.{Stat, vtfs_http_stat, vtfs_http_read}

-- What the client has to ask with: its server and token, and what the kernel gives to the two calls;
-- `has_buffer` is whether there is memory for the data.
pub record Remote : Type 0 where
  pub server : Server
  pub token : Bytes
  pub stat_net : Net
  pub read_net : Net
  pub has_buffer : Bool

-- The path of a name in a directory, in a buffer of 512 bytes.
abbrev pub full_path : (parent_path name : Bytes) → Bytes
full_path parent_path name =
    strlcat (if not (str_eq parent_path slash) then strlcat parent_path slash 512 else parent_path)
      name 512

-- The bytes that a read gives are written to the new entry.
abbrev fill_entry : Env → Ptr → Option (ℤ × Bytes) → Cmd (Unit {0})
fill_entry env entry none = fault
fill_entry env entry (some (pos zero, bytes)) = pure tt
fill_entry env entry (some (pos (suc n), bytes)) =
    vtfs_storage_write env entry (take (suc n) bytes) 0 >> pure tt
fill_entry env entry (some (negsuc n, bytes)) = pure tt

-- The data of a file that is not empty.
abbrev fetch_data : Env → Remote → (path : Bytes) → Ptr → (mode : ℕ) → (size : ℤ) → Cmd (Unit {0})
fetch_data env remote path entry mode (pos zero) = pure tt
fetch_data env remote path entry mode (pos (suc n)) =
    if not (is_reg mode)
    then pure tt
    else if not remote.has_buffer
    then pure tt
    else fill_entry env entry
        (vtfs_http_read remote.server remote.read_net remote.token path (suc n) (pos 0))
fetch_data env remote path entry mode (negsuc n) = pure tt

-- By what the server says of the path; `none` is an access behind the end of a buffer.
abbrev pub of_stat :
    Env → Remote → (parent : Ptr) → (name path : Bytes) → Option (ℤ × Option Stat) → Cmd Ptr
of_stat env remote parent name path none = fault
of_stat env remote parent name path (some (ret, none)) = if not (is_zero ret) then pure 0 else fault
of_stat env remote parent name path (some (ret, some (mode, size))) =
    if not (is_zero ret) then pure 0 else do
      entry ← vtfs_storage_create_entry_no_sync env parent name mode 0
      if entry == 0 then pure 0 else do fetch_data env remote path entry mode size; pure entry

unfoldable pub fetch_from_remote : Env → Remote → (parent : Ptr) → (name : Bytes) → Cmd Ptr
fetch_from_remote env remote parent name = if not (use_remote_server env) then pure 0 else do
  parent_path ← build_path parent 512
  let path = full_path parent_path name
  of_stat env remote parent name path
      (vtfs_http_stat remote.server remote.stat_net remote.token path)

pub data LookupCall : Type 0 where
  -- `vtfs_get_inode`
  get_inode : (mode ino : ℕ) → LookupCall
  set_nlink : (ino nlink : ℕ) → LookupCall
  set_size : (ino size : ℕ) → LookupCall
  -- the dentry gets an inode, or is a negative one
  d_add : (name : Bytes) → (ino : Option ℕ) → LookupCall

-- With the entry, or NULL; `got_inode` is whether there is memory for an inode. The result is 0 for
-- NULL, or the errno in an `ERR_PTR`.
abbrev with_child : (got_inode : Bool) → (name : Bytes) → Ptr → Cmd (ℤ × List LookupCall)
with_child got_inode name child = if child == 0 then pure (pos 0, d_add name none ∷ []) else do
  c ← load child
  if not got_inode
      then pure (neg enomem, get_inode c.mode c.ino ∷ [])
      else pure (
        pos 0,
        get_inode c.mode c.ino
            ∷ set_nlink c.ino c.nlink
            ∷ set_size c.ino c.size
            ∷ d_add name (some c.ino)
            ∷ [],
      )

unfoldable pub vtfs_lookup :
    Env
    → Remote
    → (got_inode : Bool) → (parent_ino : ℕ) → (name : Bytes) → Cmd (ℤ × List LookupCall)
vtfs_lookup env remote got_inode parent_ino name = do
  parent ← vtfs_storage_get_by_ino parent_ino
  if parent == 0 then pure (neg enoent, []) else do
    cached ← vtfs_storage_lookup parent name
    child ← (if cached == 0 then fetch_from_remote env remote parent name else pure cached)
    with_child got_inode name child
