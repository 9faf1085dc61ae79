-- ===== src/Storage/Cleanup.antt =====
-- `free_entry`, `free_entries_recursive` and `vtfs_storage_cleanup`, module/storage.c.
pub mod Elders
pub mod Shrunk
pub mod Step
pub mod Round
pub mod Freed
pub mod All
use vtfs.Base.{ℕ, zero, suc, Bool, not, List, [], ◌∷◌, ◌==◌, if◌then◌else◌}
use vtfs.Base.Lists.{length, list_del}
use vtfs.Storage.State.{
  Ptr, Entry, Store, Cmd, pure, fault, gets, modify, ◌>>=◌, ◌>>◌, load, change, is_dir,
  free_entry_at, kfree, spin_lock, spin_unlock,
}

unfoldable pub free_entry : Ptr → Cmd (Unit {0})
free_entry entry = if entry == 0 then pure tt else do
  e ← load entry
  if not (e.buffer == 0) then kfree e.buffer else pure tt
  free_entry_at entry

-- A child leaves its directory and the chain of all entries, and is freed.
unfoldable pub remove_child : (dir child : Ptr) → Cmd (Unit {0})
remove_child dir child = do
  change dir (λ e. record e { children = list_del child e.children })
  modify (λ s. record s { all_entries = list_del child s.all_entries })
  free_entry child

-- The loop of `free_entries_recursive` over what is left of the children of a directory, with the
-- recursion in it; on fuel.
unfoldable pub free_children : (fuel : ℕ) → (dir : Ptr) → List Ptr → Cmd (Unit {0})
free_children fuel dir [] = pure tt
free_children zero dir (child ∷ rest) = fault
free_children (suc fuel) dir (child ∷ rest) = do
  c ← load child
  if is_dir c.mode then free_children fuel child c.children else pure tt
  remove_child dir child
  free_children fuel dir rest

unfoldable pub free_entries_recursive : (fuel : ℕ) → (dir : Ptr) → Cmd (Unit {0})
free_entries_recursive fuel dir =
    if dir == 0 then pure tt else do e ← load dir; free_children fuel dir e.children

-- What the cleanup does with the root.
unfoldable pub free_root : Ptr → Cmd (Unit {0})
free_root root = if root == 0 then pure tt else do
  count ← gets (λ s. length s.all_entries)
  free_entries_recursive count root
  modify (λ s. record s { all_entries = list_del root s.all_entries })
  free_entry root
  modify (λ s. record s { root = 0 })

unfoldable pub vtfs_storage_cleanup : Cmd (Unit {0})
vtfs_storage_cleanup = do spin_lock; root ← gets (λ s. s.root); free_root root; spin_unlock
