-- ===== src/Storage/Contents.antt =====
-- `vtfs_storage_read` and `vtfs_storage_write`, module/storage.c. A `loff_t` stands for its 64-bit
-- pattern: the code compares and adds it as a `size_t`. The bytes that a read copies are returned
-- with its result, and the length of a write is that of its bytes.
pub mod File
pub mod Reserve
pub mod Fill
pub mod Write
pub mod Read
pub mod Refuse
use vtfs.Base.{
  ℕ, zero, suc, ◌+◌, ◌-◌, ◌*◌, ◌%◌, ◌^◌, min, max, Bool, true, false, not, ◌&&◌, ◌||◌, Option, none,
  some, List, [], ◌∷◌, ◌==◌, ltb, leb, if◌then◌else◌,
}
use vtfs.Base.Int.{ℤ, pos, neg, int_of, einval, efbig, enomem}
use vtfs.Base.Lists.{length, get_or}
use vtfs.Base.Strings.{Bytes}
use vtfs.Storage.State.{
  Ptr, Entry, Block, Store, Env, write_request, Cmd, pure, ◌>>=◌, ◌>>◌, load, change, update,
  is_reg, max_file_size, spin_lock, spin_unlock, send, use_remote_server,
}
use vtfs.Storage.Path.{build_path}

-- `n` bytes from an offset on
abbrev pub slice : (ℕ → ℕ) → ℕ → ℕ → Bytes
slice f i zero = []
slice f i (suc n) = f i ∷ slice f (i + 1) n

-- what a block holds once the bytes are copied to the offset
abbrev pub overlay : (ℕ → ℕ) → ℕ → Bytes → ℕ → ℕ
overlay f offset bytes i =
    if leb offset i && ltb i (offset + length bytes) then get_or bytes (i - offset) 0 else f i

-- `memcpy(buffer, data + offset, n)`: a fault past the end of the block.
unfoldable pub memcpy_from : Ptr → (offset n : ℕ) → Cmd Bytes
memcpy_from p offset n s = elim (s.block p) [
  | none ↦ none
  | some b ↦ if leb (offset + n) b.len then some (slice b.at offset n, s) else none
]

-- `memcpy(data + offset, bytes, length bytes)`
unfoldable pub memcpy_to : Ptr → ℕ → Bytes → Cmd (Unit {0})
memcpy_to p offset bytes s = if length bytes == 0 then some (tt, s) else elim (s.block p) [
  | none ↦ none
  | some b ↦
      if leb (offset + length bytes) b.len
      then some (
        tt,
        record s {
          block = update s.block p (some (record { len = b.len; at = overlay b.at offset bytes }));
        },
      )
      else none
]

-- `memset(data + start, 0, n)`
unfoldable pub memset_zero : Ptr → (start n : ℕ) → Cmd (Unit {0})
memset_zero p start n s = elim (s.block p) [
  | none ↦ none
  | some b ↦
      if leb (start + n) b.len
      then some (
        tt,
        record s {
          block = update s.block p (
              some (record {
                len = b.len;
                at = λ i. if leb start i && ltb i (start + n) then 0 else b.at i;
              }));
        },
      )
      else none
]

-- `krealloc(old, n)`: a new block that keeps what the old one held; the rest is whatever the
-- memory holds. On failure the old block stays.
abbrev pub grown : Env → Option Block → ℕ → Block
grown env none n = record { len = n; at = env.uninit }
grown env (some b) n = record { len = n; at = λ i. if ltb i b.len then b.at i else env.uninit i }

unfoldable pub krealloc : Env → Ptr → ℕ → Cmd Ptr
krealloc env old n s =
    if env.new_block == 0
    then some (0, s)
    else if old == 0
    then some
        (env.new_block, record s { block = update s.block env.new_block (some (grown env none n)) })
    else elim (s.block old) [
      | none ↦ none
      | some b ↦ some (
        env.new_block,
        record s {
          block = update (update s.block old none) env.new_block (some (grown env (some b) n));
        },
      )
    ]

unfoldable pub vtfs_storage_read : Env → Ptr → (len offset : ℕ) → Cmd (ℤ × Bytes)
unfolding memcpy_from change spin_lock
vtfs_storage_read env entry len offset = if entry == 0 then pure (neg einval, []) else do
  e ← load entry
  if not (is_reg e.mode) then pure (neg einval, []) else do
    spin_lock
    if leb e.size offset then (do spin_unlock; pure (pos 0, [])) else do
      let bytes_to_read = min len (e.size - offset)
      bytes ←
          (if not (e.buffer == 0) && ltb 0 bytes_to_read
            then memcpy_from e.buffer offset bytes_to_read
            else pure [])
      change entry (λ e. record e { atime = env.now })
      spin_unlock
      pure (int_of bytes_to_read, bytes)

-- `max(new_size, capacity * 2)`, and at least 64
abbrev pub new_capacity : (new_size capacity : ℕ) → ℕ
new_capacity new_size capacity = max (max new_size (capacity * 2 % 2 ^ 64)) 64

-- The block `if (new_size > entry->capacity)`; false when the memory is exhausted.
unfoldable pub reserve : Env → Ptr → Entry → (new_size offset : ℕ) → Cmd Bool
unfolding krealloc memset_zero change
reserve env entry e new_size offset = if leb new_size e.capacity then pure true else do
  let wanted = new_capacity new_size e.capacity
  fresh ← krealloc env e.buffer wanted
  if fresh == 0 then pure false else do
    if ltb e.size offset then memset_zero fresh e.size (offset - e.size) else pure tt
    change entry (λ e. record e { buffer = fresh; capacity = wanted })
    pure true

-- `memcpy(entry->data + offset, buffer, len)`, the new size and times
unfoldable pub fill : Env → Ptr → Bytes → (new_size offset : ℕ) → Cmd (Unit {0})
unfolding memcpy_to change
fill env entry bytes new_size offset = do
  e ← load entry
  memcpy_to e.buffer offset bytes
  change entry (λ e. record e {
    size = if ltb e.size new_size then new_size else e.size;
    mtime = env.now;
    ctime = env.now;
  })

-- `sync_write_to_server`: the offset that it sends is always 0.
unfoldable pub sync_write_to_server : Env → Bytes → Bytes → Cmd (Unit {0})
sync_write_to_server env path bytes =
    if not (use_remote_server env) then pure tt else send (write_request path bytes 0)

unfoldable pub vtfs_storage_write : Env → Ptr → Bytes → ℕ → Cmd ℤ
unfolding spin_lock sync_write_to_server
vtfs_storage_write env entry bytes offset = if entry == 0 then pure (neg einval) else do
  e ← load entry
  if not (is_reg e.mode) then pure (neg einval) else do
    let new_size = (offset + length bytes) % 2 ^ 64
    if ltb max_file_size new_size then pure (neg efbig) else do
      spin_lock
      room ← reserve env entry e new_size offset
      if not room then (do spin_unlock; pure (neg enomem)) else do
        fill env entry bytes new_size offset
        spin_unlock
        if use_remote_server env
            then (do path ← build_path entry 512; sync_write_to_server env path bytes)
            else pure tt
        pure (int_of (length bytes))
