-- ===== src/Storage/State.antt =====
-- The state of module/storage.c: `struct vtfs_entry`, `struct vtfs_storage`, the memory that holds
-- the entries and the file data, and the commands that read and write it. A command that follows a
-- NULL or freed pointer, or takes the spinlock twice, ends in a fault, `none`.
use Prim.Native.Nat.{bit_and}
use vtfs.Base.{
  ℕ, ◌*◌, Bool, true, false, Option, none, some, List, ◌∷◌, ◌==◌, ltb, ◌≡◌, arith, if◌then◌else◌,
}
use vtfs.Base.Lists.{length}
use vtfs.Base.Strings.{Bytes}

-- An address; 0 is NULL.
abbrev pub Ptr : Type 0
Ptr = ℕ

-- `S_ISDIR` and `S_ISREG` of linux/stat.h, and the two modes that the module gives.
abbrev pub is_dir : ℕ → Bool
is_dir mode = bit_and mode 0o170000 == 0o040000

abbrev pub is_reg : ℕ → Bool
is_reg mode = bit_and mode 0o170000 == 0o100000

abbrev pub dir_mode : ℕ
dir_mode = 0o040777

abbrev pub file_mode : ℕ
file_mode = 0o100777

abbrev pub max_name_len : ℕ
max_name_len = 255

abbrev pub max_file_size : ℕ
max_file_size = 1024 * 1024

abbrev pub root_ino : ℕ
root_ino = 1000

-- `struct vtfs_entry`. A `list_head` chain is the sequence of the entries linked into it, front
-- first; `sibling` is the entry's place in its parent's `children`.
pub record Entry : Type 0 where
  pub name : Bytes
  pub ino : ℕ
  pub mode : ℕ
  pub buffer : Ptr
  pub size : ℕ
  pub capacity : ℕ
  pub nlink : ℕ
  pub atime : ℕ
  pub mtime : ℕ
  pub ctime : ℕ
  pub parent : Ptr
  pub children : List Ptr

-- A block of allocated bytes: its length, and what it holds at each offset.
pub record Block : Type 0 where
  pub len : ℕ
  pub at : ℕ → ℕ

-- The calls that the module makes of the server, in the order made.
pub data Request : Type 0 where
  create_request : (path kind : Bytes) → Request
  delete_request : (path : Bytes) → Request
  write_request : (path : Bytes) (payload : Bytes) (offset : ℕ) → Request

-- `struct vtfs_storage`, with the memory behind its pointers and the requests sent so far, the
-- latest first.
pub record Store : Type 0 where
  pub entry : Ptr → Option Entry
  pub block : Ptr → Option Block
  pub root : Ptr
  pub all_entries : List Ptr
  pub next_ino : ℕ
  pub locked : Bool
  pub sent : List Request

-- What the kernel gives to one operation: the addresses that its allocations return (0 is a failed
-- one), what fresh memory happens to hold, the time, and the server's URL.
pub record Env : Type 0 where
  pub new_entry : Ptr
  pub new_block : Ptr
  pub uninit : ℕ → ℕ
  pub now : ℕ
  pub server_url : Bytes

-- `use_remote_server`
abbrev pub use_remote_server : Env → Bool
use_remote_server env = ltb 0 (length env.server_url)

abbrev pub Cmd : Type 0 → Type 0
Cmd A = Store → Option (A × Store)

abbrev pub pure : {A : Type 0} → A → Cmd A
pure a s = some (a, s)

abbrev pub fault : {A : Type 0} → Cmd A
fault s = none

module _ {A B : Type 0} where
  abbrev pub and_then : Option (A × Store) → (A → Cmd B) → Option (B × Store)
  and_then none k = none
  and_then (some (a, s)) k = k a s

  infixl 5 ◌>>=◌ ◌>>◌
  abbrev pub ◌>>=◌ : Cmd A → (A → Cmd B) → Cmd B
  (m >>= k) s = and_then (m s) k

  abbrev pub ◌>>◌ : Cmd A → Cmd B → Cmd B
  (m >> k) s = and_then (m s) (λ _. k)

abbrev pub gets : {A : Type 0} → (Store → A) → Cmd A
gets f s = some (f s, s)

abbrev pub modify : (Store → Store) → Cmd (Unit {0})
modify f s = some (tt, f s)

module _ {A : Type 0} where
  -- One address of a memory gets new contents, `none` when it is freed.
  abbrev pub update : (Ptr → Option A) → Ptr → Option A → Ptr → Option A
  update f p v q = if q == p then v else f q

-- `*p` of an entry
unfoldable pub load : Ptr → Cmd Entry
load p s = if p == 0 then none else elim (s.entry p) [ none ↦ none | some e ↦ some (e, s) ]

abbrev pub put_entry : Ptr → Option Entry → Store → Store
put_entry p e s = record s { entry = update s.entry p e }

-- A write of some fields of `*p`.
unfoldable pub change : Ptr → (Entry → Entry) → Cmd (Unit {0})
unfolding load
change p f = load p >>= λ e. modify (put_entry p (some (f e)))

pub load_lem :
    (p : Ptr) (s : Store) (e : Entry)
    → (p == 0) ≡ false
    → s.entry p ≡ some e
    → load p s ≡ some (e, s)
unfolding load
load_lem p s e p0 live = ground arith

pub change_lem :
    (p : Ptr) (f : Entry → Entry) (s : Store) (e : Entry)
    → (p == 0) ≡ false
    → s.entry p ≡ some e
    → change p f s ≡ some (tt, put_entry p (some (f e)) s)
unfolding change
change_lem p f s e p0 live = ground arith

-- `kfree` of an entry
unfoldable pub free_entry_at : Ptr → Cmd (Unit {0})
unfolding load
free_entry_at p = load p >> modify (put_entry p none)

-- `kfree` of file data; NULL is allowed, memory that is not allocated is not.
unfoldable pub kfree : Ptr → Cmd (Unit {0})
kfree p s = if p == 0 then some (tt, s) else elim (s.block p) [
  | none ↦ none
  | some b ↦ some (tt, record s { block = update s.block p none })
]

unfoldable pub spin_lock : Cmd (Unit {0})
spin_lock s = if s.locked then none else some (tt, record s { locked = true })

abbrev pub spin_unlock : Cmd (Unit {0})
spin_unlock = modify (λ s. record s { locked = false })

abbrev pub send : Request → Cmd (Unit {0})
send r = modify (λ s. record s { sent = r ∷ s.sent })
