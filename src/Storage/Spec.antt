-- ===== src/Storage/Spec.antt =====
-- What the storage of module/storage.c promises, without its chains, its memory and its lock: nodes
-- under handles, each with its directory and its contents, and what each call may do to them.
pub mod Slices
pub mod View
pub mod Home
pub mod Steps
pub mod Data
pub mod Files
pub mod Refines
pub mod Unique
use vtfs.Base.{
  ℕ, ◌+◌, ◌-◌, ◌<◌, ◌≤◌, ◌⊎◌, ◌≡◌, true, false, Option, none, some, List, [], ◌∷◌, ◌++◌, ◌==◌,
}
use vtfs.Base.Int.{ℤ, pos, neg, einval, efbig, enomem, ebusy, enotempty}
use vtfs.Base.Lists.{length, take, drop}
use vtfs.Base.Strings.{Bytes, str_eq}
use vtfs.Storage.State.{
  Ptr, update, is_dir, is_reg, dir_mode, max_file_size, max_name_len, root_ino,
}
use vtfs.Storage.Path.{slash}

-- A node: the root is its own parent, and a node that is no regular file has no contents.
pub record Node : Type 0 where
  pub name : Bytes
  pub ino : ℕ
  pub mode : ℕ
  pub parent : Ptr
  pub contents : Bytes

-- The nodes under their handles.
abbrev pub FileSystem : Type 0
FileSystem = Ptr → Option Node

-- The root alone.
abbrev pub root_node : Ptr → Node
root_node p = record {
  name = take max_name_len slash;
  ino = root_ino;
  mode = dir_mode;
  parent = p;
  contents = [];
}

abbrev pub new_file_system : Ptr → FileSystem
new_file_system p = update (λ q. none) p (some (root_node p))

-- A call, and for a creation and a write also one for which the allocator is out of memory.
pub data Call : Type 0 where
  create_call : (home : Ptr) (name : Bytes) (mode : ℕ) → Call
  delete_call : (p : Ptr) → Call
  write_call : (p : Ptr) (bytes : Bytes) (offset : ℕ) → Call
  create_without_memory : (home : Ptr) (name : Bytes) (mode : ℕ) → Call
  write_without_memory : (p : Ptr) (bytes : Bytes) (offset : ℕ) → Call
  read_call : (p : Ptr) (len offset : ℕ) → Call
  lookup_call : (home : Ptr) (name : Bytes) → Call

-- A handle, 0 for none, or a number with the bytes of a read.
pub data Reply : Type 0 where
  handle : Ptr → Reply
  result : ℤ → Bytes → Reply

-- The contents after a write: up to the offset what there was, filled up with the gap where that is
-- less, then the bytes, then the rest of what there was.
abbrev pub spliced : (old gap bytes : Bytes) (offset : ℕ) → Bytes
spliced old gap bytes offset =
    take offset old ++ (gap ++ (bytes ++ drop (offset + length bytes) old))

-- No other node than the directory itself is in the directory under the name.
abbrev pub Unnamed : FileSystem → Ptr → Bytes → Type 0
Unnamed fs home name =
    (q : Ptr) (n : Node)
    → fs q ≡ some n
    → n.parent ≡ home
    → (q == home) ≡ false
    → str_eq n.name name ≡ false

-- A node of the directory has the name.
abbrev pub Named : FileSystem → Ptr → Bytes → Type 0
Named fs home name =
    (q : Ptr) × (n : Node) × (fs q ≡ some n) × (n.parent ≡ home) × (str_eq n.name name ≡ true)

-- What a call may answer and leave, refusals included. A creation picks a handle and an inode number,
-- a write past the end picks what the gap holds; everything else is determined.
pub data Does (fs : FileSystem) : Call → Reply → FileSystem → Type 0 where
  creates :
      (home new ino mode : ℕ) (name : Bytes) (dir : Node)
      → fs home ≡ some dir
      → is_dir dir.mode ≡ true
      → Unnamed fs home name
      → (new == 0) ≡ false
      → fs new ≡ none
      → Does fs (create_call home name mode) (handle new) (
          update fs new (
            some (record {
              name = take max_name_len name;
              ino = ino;
              mode = mode;
              parent = home;
              contents = [];
            })))
  deletes :
      (p : Ptr) (n : Node)
      → fs p ≡ some n
      → (p == n.parent) ≡ false
      → ((q : Ptr) (m : Node) → fs q ≡ some m → (m.parent == p) ≡ false)
      → Does fs (delete_call p) (result (pos 0) []) (update fs p none)
  writes :
      (p : Ptr) (n : Node) (gap bytes : Bytes) (offset : ℕ)
      → fs p ≡ some n
      → is_reg n.mode ≡ true
      → offset + length bytes ≤ max_file_size
      → length gap ≡ offset - length n.contents
      → Does fs
          (write_call p bytes offset)
          (result (pos (length bytes)) [])
          (update fs p (some (record n { contents = spliced n.contents gap bytes offset })))
  reads :
      (p : Ptr) (n : Node) (len offset : ℕ)
      → fs p ≡ some n
      → is_reg n.mode ≡ true
      → Does fs
          (read_call p len offset)
          (let bytes = take len (drop offset n.contents) in result (pos (length bytes)) bytes)
          fs
  refuses_create :
      (home mode : ℕ) (name : Bytes) (dir : Node)
      → fs home ≡ some dir
      → (is_dir dir.mode ≡ false) ⊎ Named fs home name
      → Does fs (create_call home name mode) (handle 0) fs
  refuses_root :
      (p : Ptr) (n : Node)
      → fs p ≡ some n
      → n.parent ≡ p
      → Does fs (delete_call p) (result (neg ebusy) []) fs
  refuses_full :
      (p q : Ptr) (n m : Node)
      → fs p ≡ some n
      → (p == n.parent) ≡ false
      → fs q ≡ some m
      → m.parent ≡ p
      → Does fs (delete_call p) (result (neg enotempty) []) fs
  refuses_write :
      (p : Ptr) (n : Node) (bytes : Bytes) (offset : ℕ)
      → fs p ≡ some n
      → is_reg n.mode ≡ false
      → Does fs (write_call p bytes offset) (result (neg einval) []) fs
  refuses_size :
      (p : Ptr) (n : Node) (bytes : Bytes) (offset : ℕ)
      → fs p ≡ some n
      → is_reg n.mode ≡ true
      → max_file_size < offset + length bytes
      → Does fs (write_call p bytes offset) (result (neg efbig) []) fs
  refuses_read :
      (p : Ptr) (n : Node) (len offset : ℕ)
      → fs p ≡ some n
      → is_reg n.mode ≡ false
      → Does fs (read_call p len offset) (result (neg einval) []) fs
  starves_create :
      (home mode : ℕ) (name : Bytes) (dir : Node)
      → fs home ≡ some dir
      → Does fs (create_without_memory home name mode) (handle 0) fs
  starves_write :
      (p : Ptr) (n : Node) (bytes : Bytes) (offset code : ℕ)
      → fs p ≡ some n
      → ((is_reg n.mode ≡ false) × (code ≡ einval))
        ⊎ ((is_reg n.mode ≡ true)
            × (((max_file_size < offset + length bytes) × (code ≡ efbig))
                ⊎ ((offset + length bytes ≤ max_file_size) × (code ≡ enomem))))
      → Does fs (write_without_memory p bytes offset) (result (neg code) []) fs
  finds :
      (home p : Ptr) (name : Bytes) (n : Node)
      → fs p ≡ some n
      → n.parent ≡ home
      → (p == home) ≡ false
      → n.name ≡ name
      → Does fs (lookup_call home name) (handle p) fs
  misses :
      (home : Ptr) (name : Bytes)
      → Unnamed fs home name
      → Does fs (lookup_call home name) (handle 0) fs

-- What a sequence of calls with their replies may leave.
pub data Plays : FileSystem → List (Call × Reply) → FileSystem → Type 0 where
  over : (fs : FileSystem) → Plays fs [] fs
  plays :
      {fs fs' fs'' : FileSystem} {call : Call} {reply : Reply} {rest : List (Call × Reply)}
      → Does fs call reply fs'
      → Plays fs' rest fs''
      → Plays fs ((call, reply) ∷ rest) fs''
