-- ===== src/Ops/Inode.antt =====
-- `vtfs_create`, `vtfs_mkdir`, `vtfs_unlink`, `vtfs_rmdir` and `vtfs_link`, module/inode_ops.c. An
-- inode of the kernel is given by its number, a dentry by its name and its inode's number; what a
-- call does to the kernel's inodes and dentries is the list of the calls that it makes of the
-- kernel, in their order, beside its result.
pub mod Create
pub mod Remove
pub mod Link
pub mod Undo
pub mod LinkCounts
pub mod Directory
use vtfs.Base.{ℕ, ◌+◌, ◌%◌, ◌^◌, Bool, not, true, false, List, [], ◌∷◌, ◌==◌, if◌then◌else◌}
use vtfs.Base.Int.{ℤ, pos, neg, is_zero, enoent, eexist, enomem, enotdir, enotempty, eperm}
use vtfs.Base.Strings.{Bytes}
use vtfs.Storage.State.{
  Ptr, Entry, Env, Cmd, pure, ◌>>=◌, ◌>>◌, load, change, is_dir, dir_mode, file_mode,
}
use vtfs.Storage.Search.{vtfs_storage_lookup, vtfs_storage_get_by_ino}
use vtfs.Storage.Create.{
  vtfs_storage_create_entry, vtfs_storage_create_entry_no_sync, vtfs_storage_add_link,
}
use vtfs.Storage.Remove.{is_empty, vtfs_storage_delete_entry}

pub record Dentry : Type 0 where
  pub name : Bytes
  pub ino : ℕ

pub data VfsCall : Type 0 where
  -- `vtfs_get_inode`
  get_inode : (mode ino : ℕ) → VfsCall
  d_instantiate : (name : Bytes) (ino : ℕ) → VfsCall
  inc_nlink : (ino : ℕ) → VfsCall
  drop_nlink : (ino : ℕ) → VfsCall
  clear_nlink : (ino : ℕ) → VfsCall
  ihold : (ino : ℕ) → VfsCall
  -- the times of change of an inode
  touch : (ino : ℕ) → VfsCall

-- A result that a call returns before it has asked anything of the kernel.
abbrev pub only : ℤ → Cmd (ℤ × List VfsCall)
only ret = pure (ret, [])

-- `got_inode`: whether `vtfs_get_inode` finds memory for an inode.
unfoldable pub vtfs_create : Env → (got_inode : Bool) → ℕ → Bytes → Cmd (ℤ × List VfsCall)
vtfs_create env got_inode parent_ino name = do
  parent ← vtfs_storage_get_by_ino parent_ino
  if parent == 0 then only (neg enoent) else do
    entry ← vtfs_storage_create_entry env parent name file_mode 0
    if entry == 0 then only (neg eexist) else do
      e ← load entry
      if not got_inode
          then (vtfs_storage_delete_entry env entry
              >> pure (neg enomem, get_inode e.mode e.ino ∷ []))
          else pure
              (pos 0, get_inode e.mode e.ino ∷ d_instantiate name e.ino ∷ touch parent_ino ∷ [])

unfoldable pub vtfs_mkdir : Env → (got_inode : Bool) → ℕ → Bytes → Cmd (ℤ × List VfsCall)
unfolding change
vtfs_mkdir env got_inode parent_ino name = do
  parent ← vtfs_storage_get_by_ino parent_ino
  if parent == 0 then only (neg enoent) else do
    entry ← vtfs_storage_create_entry env parent name dir_mode 0
    if entry == 0 then only (neg eexist) else do
      change entry (λ e. record e { nlink = 2 })
      e ← load entry
      if not got_inode
          then (vtfs_storage_delete_entry env entry
              >> pure (neg enomem, get_inode e.mode e.ino ∷ []))
          else pure (
            pos 0,
            get_inode e.mode e.ino
                ∷ inc_nlink parent_ino
                ∷ d_instantiate name e.ino
                ∷ touch parent_ino
                ∷ [],
          )

unfoldable pub vtfs_unlink : Env → ℕ → Dentry → Cmd (ℤ × List VfsCall)
vtfs_unlink env parent_ino dentry = do
  parent ← vtfs_storage_get_by_ino parent_ino
  if parent == 0 then only (neg enoent) else do
    child ← vtfs_storage_lookup parent dentry.name
    if child == 0 then only (neg enoent) else do
      ret ← vtfs_storage_delete_entry env child
      if not (is_zero ret)
          then only ret
          else pure (pos 0, drop_nlink dentry.ino ∷ touch parent_ino ∷ [])

unfoldable pub vtfs_rmdir : Env → ℕ → Dentry → Cmd (ℤ × List VfsCall)
vtfs_rmdir env parent_ino dentry = do
  parent ← vtfs_storage_get_by_ino parent_ino
  if parent == 0 then only (neg enoent) else do
    child ← vtfs_storage_lookup parent dentry.name
    if child == 0 then only (neg enoent) else do
      e ← load child
      if not (is_dir e.mode)
          then only (neg enotdir)
          else if not (is_empty e.children)
          then only (neg enotempty)
          else do
            ret ← vtfs_storage_delete_entry env child
            if not (is_zero ret)
                then only ret
                else pure
                    (pos 0, clear_nlink dentry.ino ∷ drop_nlink parent_ino ∷ touch parent_ino ∷ [])

-- The new link shares the data of the target.
unfoldable pub vtfs_link : Env → ℕ → ℕ → Bytes → Cmd (ℤ × List VfsCall)
unfolding change
vtfs_link env ino parent_ino name = do
  target ← vtfs_storage_get_by_ino ino
  if target == 0 then only (neg enoent) else do
    t ← load target
    if is_dir t.mode then only (neg eperm) else do
      parent ← vtfs_storage_get_by_ino parent_ino
      if parent == 0 then only (neg enoent) else do
        link ← vtfs_storage_create_entry_no_sync env parent name t.mode t.ino
        if link == 0 then only (neg eexist) else do
          change link (λ l. record l { buffer = t.buffer; size = t.size; capacity = t.capacity })
          ret ← vtfs_storage_add_link target parent name
          if not (is_zero ret)
              then (vtfs_storage_delete_entry env link >> only ret)
              else pure (pos 0, inc_nlink ino ∷ touch ino ∷ ihold ino ∷ d_instantiate name ino ∷ [])
