-- ===== src/Storage/Remove.antt =====
-- `vtfs_storage_delete_entry`, module/storage.c.
pub mod Unlink
pub mod Links
pub mod Discard
pub mod LinkCounts
pub mod Gone
pub mod Refuse
use vtfs.Base.{
  ℕ, ◌+◌, ◌-◌, ◌%◌, ◌^◌, Bool, true, false, not, ◌&&◌, List, [], ◌∷◌, ◌==◌, ltb, if◌then◌else◌,
}
use vtfs.Base.Int.{ℤ, pos, neg, einval, ebusy, enotempty}
use vtfs.Base.Lists.{list_del}
use vtfs.Base.Strings.{Bytes}
use vtfs.Storage.State.{
  Ptr, Entry, Store, Env, delete_request, Cmd, pure, gets, modify, ◌>>=◌, ◌>>◌, load, change,
  is_dir, free_entry_at, kfree, spin_lock, spin_unlock, send, use_remote_server,
}
use vtfs.Storage.Path.{build_path}

-- `list_empty`
abbrev pub is_empty : List Ptr → Bool
is_empty [] = true
is_empty (p ∷ ps) = false

-- `unsigned int` minus one
abbrev pub dec_nlink : ℕ → ℕ
dec_nlink n = (n + 2 ^ 32 - 1) % 2 ^ 32

-- The loop over all entries: each other link to the inode loses one, and they are counted.
unfoldable pub drop_links : ℕ → List Ptr → ℕ → Cmd ℕ
drop_links ino [] count = pure count
drop_links ino (p ∷ ps) count = do
  e ← load p
  if e.ino == ino then change p (λ e. record e { nlink = dec_nlink e.nlink }) else pure tt
  drop_links ino ps (if e.ino == ino then count + 1 else count)

unfoldable pub sync_delete_to_server : Env → Bytes → Cmd (Unit {0})
sync_delete_to_server env path =
    if not (use_remote_server env) then pure tt else send (delete_request path)

-- `list_del(&entry->sibling)`: the entry leaves its parent's chain.
abbrev pub leave_parent : (entry parent : Ptr) → Cmd (Unit {0})
leave_parent entry parent =
    if parent == 0
    then pure tt
    else change parent (λ e. record e { children = list_del entry e.children })

-- The entry leaves its parent and the chain of all entries; the parent of a directory loses a link.
unfoldable pub unlink_entry : (entry parent : Ptr) → (mode : ℕ) → Cmd (Unit {0})
unlink_entry entry parent mode = do
  if is_dir mode && not (parent == 0)
      then change parent (λ d. record d { nlink = dec_nlink d.nlink })
      else pure tt
  leave_parent entry parent
  modify (λ s. record s { all_entries = list_del entry s.all_entries })

-- The data goes with the last link; then the entry itself is freed.
unfoldable pub discard : (entry shared_data : Ptr) → ℕ → Cmd (Unit {0})
unfolding kfree
discard entry shared_data other_count = do
  if other_count == 0 && not (shared_data == 0) then kfree shared_data else pure tt
  if ltb 0 other_count then change entry (λ e. record e { buffer = 0 }) else pure tt
  free_entry_at entry

unfoldable pub vtfs_storage_delete_entry : Env → Ptr → Cmd ℤ
unfolding spin_lock sync_delete_to_server
vtfs_storage_delete_entry env entry = if entry == 0 then pure (neg einval) else do
  root ← gets (λ s. s.root)
  if entry == root then pure (neg ebusy) else do
    e ← load entry
    if is_dir e.mode && not (is_empty e.children) then pure (neg enotempty) else do
      spin_lock
      path ← (if use_remote_server env then build_path entry 512 else pure [])
      unlink_entry entry e.parent e.mode
      all ← gets (λ s. s.all_entries)
      others ← drop_links e.ino all 0
      spin_unlock
      discard entry e.buffer others
      if use_remote_server env then sync_delete_to_server env path else pure tt
      pure (pos 0)
