-- ===== src/Storage/Contents/File.antt =====
-- A regular file of the storage whose data pointer and capacity agree with the memory.
use vtfs.Base.{ℕ, ◌*◌, ◌≤◌, ◌≡◌, ◌⊎◌, true, false, Option, none, some, ◌==◌}
use vtfs.Storage.State.{Ptr, Entry, Block, Store, Env, is_reg, max_file_size}

-- The data pointer is NULL and the capacity 0, or it points to a block of `capacity` bytes.
abbrev pub Backed : Store → Entry → Type 0
Backed s e =
    ((e.buffer ≡ 0) × (e.capacity ≡ 0))
    ⊎ ((b : Block) × ((e.buffer == 0) ≡ false) × (s.block e.buffer ≡ some b) × (b.len ≡ e.capacity))

pub record IsFile (s : Store) (p : Ptr) (e : Entry) : Type 0 where
  pub not_null : (p == 0) ≡ false
  pub live : s.entry p ≡ some e
  pub reg : is_reg e.mode ≡ true
  pub size_le : e.size ≤ e.capacity
  pub capacity_le : e.capacity ≤ 2 * max_file_size
  pub backed : Backed s e

abbrev byte_of : Option Block → ℕ → ℕ
byte_of none i = 0
byte_of (some b) i = b.at i

-- What the memory behind the data pointer holds at an offset.
abbrev pub byte_at : Store → Entry → ℕ → ℕ
byte_at s e i = byte_of (s.block e.buffer) i

-- The allocator's promise: a new block is at an address that no other data has; growing a block
-- may leave it in place.
pub record IsFresh (env : Env) (s : Store) (e : Entry) : Type 0 where
  pub got : (env.new_block == 0) ≡ false
  pub unused : (s.block env.new_block ≡ none) ⊎ (env.new_block ≡ e.buffer)
