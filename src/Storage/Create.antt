-- ===== src/Storage/Create.antt =====
-- `alloc_entry`, `vtfs_storage_init`, `create_entry_internal` and its two callers, and
-- `vtfs_storage_add_link`, module/storage.c.
pub mod Init
pub mod Link
pub mod Announce
pub mod Made
pub mod Found
pub mod Refuse
pub mod Count
pub mod LinkCounts
use vtfs.Base.{
  ℕ, ◌+◌, ◌%◌, ◌^◌, Bool, true, false, not, ◌&&◌, none, some, List, [], ◌∷◌, ◌==◌, if◌then◌else◌,
}
use vtfs.Base.Int.{ℤ, pos, neg, enomem, einval, eperm}
use vtfs.Base.Lists.{take}
use vtfs.Base.Strings.{Bytes, codes}
use vtfs.Storage.State.{
  Ptr, Entry, Store, Env, Request, create_request, Cmd, pure, gets, modify, ◌>>=◌, ◌>>◌, load,
  change, put_entry, is_dir, dir_mode, root_ino, max_name_len, spin_lock, spin_unlock, send,
  use_remote_server,
}
use vtfs.Storage.Path.{build_path, slash}
use vtfs.Storage.Search.{vtfs_storage_lookup}

-- What `alloc_entry` fills a new entry with.
abbrev pub blank : Bytes → ℕ → ℕ → ℕ → Entry
blank name mode ino now = record {
  name = take max_name_len name;
  ino = ino;
  mode = mode;
  buffer = 0;
  size = 0;
  capacity = 0;
  nlink = 1;
  atime = now;
  mtime = now;
  ctime = now;
  parent = 0;
  children = [];
}

unfoldable pub alloc_entry : Env → Bytes → ℕ → ℕ → Cmd Ptr
alloc_entry env name mode ino = if env.new_entry == 0 then pure 0 else do
  modify (put_entry env.new_entry (some (blank name mode ino env.now)))
  pure env.new_entry

-- The storage is a global variable, so the initialiser gets its old contents; the memory behind it
-- belongs to the whole kernel.
unfoldable pub vtfs_storage_init : Env → Cmd ℤ
unfolding alloc_entry change
vtfs_storage_init env = do
  modify (λ s. record s { locked = false; all_entries = []; next_ino = root_ino + 1 })
  root ← alloc_entry env slash dir_mode root_ino
  modify (λ s. record s { root = root })
  if root == 0 then pure (neg enomem) else do
    change root (λ e. record e { parent = root; nlink = 2 })
    modify (λ s. record s { all_entries = root ∷ s.all_entries })
    pure (pos 0)

-- `if (ino == 0) ino = vtfs_store.next_ino++;`
unfoldable pub choose_ino : ℕ → Cmd ℕ
choose_ino ino s =
    if ino == 0
    then some (s.next_ino, record s { next_ino = (s.next_ino + 1) % 2 ^ 64 })
    else some (ino, s)

-- The new entry is linked in front of its siblings and of all entries.
unfoldable pub link_entry : (parent entry : Ptr) → (mode : ℕ) → Cmd (Unit {0})
link_entry parent entry mode = do
  change entry (λ e. record e { parent = parent })
  change parent (λ e. record e { children = entry ∷ e.children })
  modify (λ s. record s { all_entries = entry ∷ s.all_entries })
  if is_dir mode then change parent (λ e. record e { nlink = (e.nlink + 1) % 2 ^ 32 }) else pure tt

unfoldable pub sync_create_to_server : Env → Bytes → Bytes → Cmd (Unit {0})
sync_create_to_server env path kind =
    if not (use_remote_server env) then pure tt else send (create_request path kind)

abbrev pub kind_of : ℕ → Bytes
kind_of mode = if is_dir mode then codes "dir" else codes "file"

unfoldable pub announce : Env → Bool → Ptr → ℕ → Cmd (Unit {0})
unfolding sync_create_to_server
announce env skip_sync entry mode =
    if not skip_sync && use_remote_server env
    then (do path ← build_path entry 512; sync_create_to_server env path (kind_of mode))
    else pure tt

unfoldable pub create_entry_internal : Env → Ptr → Bytes → (mode ino : ℕ) → Bool → Cmd Ptr
unfolding alloc_entry spin_lock
create_entry_internal env parent name mode ino skip_sync = if parent == 0 then pure 0 else do
  dir ← load parent
  if not (is_dir dir.mode) then pure 0 else do
    twin ← vtfs_storage_lookup parent name
    if not (twin == 0) then pure 0 else do
      spin_lock
      ino ← choose_ino ino
      entry ← alloc_entry env name mode ino
      if entry == 0 then (do spin_unlock; pure 0) else do
        link_entry parent entry mode
        spin_unlock
        announce env skip_sync entry mode
        pure entry

unfoldable pub vtfs_storage_create_entry : Env → Ptr → Bytes → (mode ino : ℕ) → Cmd Ptr
vtfs_storage_create_entry env parent name mode ino =
    create_entry_internal env parent name mode ino false

unfoldable pub vtfs_storage_create_entry_no_sync : Env → Ptr → Bytes → (mode ino : ℕ) → Cmd Ptr
vtfs_storage_create_entry_no_sync env parent name mode ino =
    create_entry_internal env parent name mode ino true

-- Every entry with the inode number gets the new count.
pub set_links : (ino count : ℕ) → List Ptr → Cmd (Unit {0})
set_links ino count [] = pure tt
set_links ino count (p ∷ ps) = do
  e ← load p
  if e.ino == ino then change p (λ e. record e { nlink = count }) else pure tt
  set_links ino count ps

unfoldable pub vtfs_storage_add_link : (entry parent : Ptr) → Bytes → Cmd ℤ
unfolding set_links change spin_lock
vtfs_storage_add_link entry parent name =
    if entry == 0 then pure (neg einval) else if parent == 0 then pure (neg einval) else do
      e ← load entry
      if is_dir e.mode then pure (neg eperm) else do
        spin_lock
        all ← gets (λ s. s.all_entries)
        set_links e.ino ((e.nlink + 1) % 2 ^ 32) all
        spin_unlock
        pure (pos 0)
