-- ===== src/Storage/Contents/Refuse.antt =====
-- The calls of `vtfs_storage_write` and `vtfs_storage_read` that are refused.
use vtfs.Base.{ℕ, ◌+◌, ◌%◌, ◌^◌, ◌≤◌, ◌<◌, ◌≡◌, false, some, ◌==◌, arith, []}
use vtfs.Base.Int.{neg, einval, efbig, enomem}
use vtfs.Base.Lists.{length}
use vtfs.Base.Strings.{Bytes}
use vtfs.Storage.State.{Ptr, Entry, Store, Env, load, is_reg, max_file_size}
use vtfs.Storage.Contents.{krealloc, reserve, vtfs_storage_read, vtfs_storage_write}
use vtfs.Storage.Contents.File.{IsFile}

module _ (env : Env) (s : Store) (p : Ptr) (e : Entry) (unlocked : s.locked ≡ false) where
  -- In a storage that is not locked, without an entry, or on one that is no regular file, both calls
  -- return -EINVAL and change nothing.
  pub refuse_not_reg :
      (bytes : Bytes) (len offset : ℕ)
      → (p == 0) ≡ false
      → s.entry p ≡ some e
      → is_reg e.mode ≡ false
      → (vtfs_storage_write env p bytes offset s ≡ some (neg einval, s))
        × (vtfs_storage_read env p len offset s ≡ some ((neg einval, []), s))
        × (vtfs_storage_write env 0 bytes offset s ≡ some (neg einval, s))
        × (vtfs_storage_read env 0 len offset s ≡ some ((neg einval, []), s))
  unfolding vtfs_storage_write vtfs_storage_read load
  refuse_not_reg bytes len offset p0 live other =
      (ground arith, ground arith, ground arith, ground arith)

-- The errors of `vtfs_storage_write` on a regular file, and when it returns each.
pub data Refusal (env : Env) (s : Store) (p : Ptr) (e : Entry) (bytes : Bytes) (offset : ℕ)
    : ℕ → Type 0 where
  -- the end of the write, as 64-bit numbers add up, is behind the limit on the size
  too_big : max_file_size < (offset + length bytes) % 2 ^ 64 → Refusal env s p e bytes offset efbig
  -- the memory has to grow and the allocator has none
  no_memory :
      offset + length bytes ≤ max_file_size
      → e.capacity < offset + length bytes
      → env.new_block ≡ 0
      → Refusal env s p e bytes offset enomem

module _ (env : Env) (s : Store) (p : Ptr) (e : Entry) (bytes : Bytes) (offset : ℕ)
    (unlocked : s.locked ≡ false) where
  -- On a regular file whose memory agrees with its capacity, in a storage that is not locked, a
  -- write that is too big returns -EFBIG, one for which the memory cannot grow -ENOMEM; both leave
  -- the whole storage as it was, the lock released.
  pub refuse_write :
      (code : ℕ)
      → IsFile s p e
      → Refusal env s p e bytes offset code
      → vtfs_storage_write env p bytes offset s ≡ some (neg code, s)
  unfolding vtfs_storage_write load reserve krealloc
  refuse_write code f (too_big big) = ground (arith, f.live, f.not_null, f.reg)
  refuse_write code f (no_memory fits short oom) = ground (arith, f.live, f.not_null, f.reg)
