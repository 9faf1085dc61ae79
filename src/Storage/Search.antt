-- ===== src/Storage/Search.antt =====
-- `vtfs_storage_lookup`, `vtfs_storage_get_by_ino` and `vtfs_storage_get_root`, module/storage.c.
-- Each loop walks one of the two chains and returns 0 (NULL) when nothing fits.
pub mod First
use vtfs.Base.{ℕ, not, List, [], ◌∷◌, ◌==◌, if◌then◌else◌}
use vtfs.Base.Strings.{Bytes, str_eq}
use vtfs.Storage.State.{
  Ptr, Entry, Store, Cmd, pure, gets, ◌>>=◌, ◌>>◌, load, is_dir, spin_lock, spin_unlock,
}

find_named : Bytes → List Ptr → Cmd Ptr
find_named name [] = pure 0
find_named name (p ∷ ps) = load p >>= λ e. if str_eq e.name name then pure p else find_named name ps

find_ino : ℕ → List Ptr → Cmd Ptr
find_ino ino [] = pure 0
find_ino ino (p ∷ ps) = load p >>= λ e. if e.ino == ino then pure p else find_ino ino ps

unfoldable pub vtfs_storage_lookup : Ptr → Bytes → Cmd Ptr
unfolding find_named spin_lock
vtfs_storage_lookup parent name = if parent == 0 then pure 0 else do
  dir ← load parent
  if not (is_dir dir.mode)
      then pure 0
      else do spin_lock; child ← find_named name dir.children; spin_unlock; pure child

unfoldable pub vtfs_storage_get_by_ino : ℕ → Cmd Ptr
unfolding find_ino spin_lock
vtfs_storage_get_by_ino ino = do
  spin_lock
  all ← gets (λ s. s.all_entries)
  entry ← find_ino ino all
  spin_unlock
  pure entry

unfoldable pub vtfs_storage_get_root : Cmd Ptr
vtfs_storage_get_root = gets (λ s. s.root)
