-- ===== src/Storage/Sound/Reached.antt =====
-- The storages that sequences of operations reach.
use vtfs.Base.{
  ℕ, ◌+◌, ◌<◌, ◌^◌, Bool-cases, inl, inr, ◌≡◌, ◌⊎◌, ap, sym, ◌∙◌, Bool, true, false, Option, none,
  some, ◌==◌,
}
use mathlib.Core.Path.{subst}
use vtfs.Base.Lists.{mem, length}
use vtfs.Base.Strings.{Bytes}
use vtfs.Storage.State.{Ptr, Store, Env, is_reg}
use vtfs.Storage.Tree.{at, IsTree}
use vtfs.Storage.Contents.{vtfs_storage_read, vtfs_storage_write}
use vtfs.Storage.Create.{create_entry_internal}
use vtfs.Storage.Create.Init.{fresh}
use vtfs.Storage.Search.{vtfs_storage_lookup}
use vtfs.Storage.Create.Refuse.{refuse_create}
use vtfs.Storage.Sound.Cases.{
  create_cases, delete_cases, delete_root, delete_full, write_cases, write_other, write_too_big,
  read_other, lookup_runs,
}
use vtfs.Storage.Sound.Starved.{create_starved, write_starved}
use vtfs.Storage.Remove.{vtfs_storage_delete_entry}
use vtfs.Storage.Cleanup.{vtfs_storage_cleanup}
use vtfs.Storage.Cleanup.All.{Cleaned, cleanup-Cleaned}
use vtfs.Storage.Sound.{IsSound}
use vtfs.Storage.Sound.Runs.{fresh-IsSound, create-Runs, delete-Runs, write-Runs, read-Runs}

-- One operation on listed entries, none of which makes a hard link, with what the allocator and the
-- kernel see to. The allocator gives a creation an address that no entry has, and a write one at
-- which no block is or that of the file's data, which then grows in place; where a write needs no
-- memory it is not asked. Or it has no memory left, for an entry or for a write behind the capacity.
-- The end of a write is a 64-bit number, since the kernel's offset and length are below 2 ^ 63.
-- Whether the operation is refused is left to the storage.
pub data Op (s : Store) : Type 0 where
  create :
      (env : Env) (home : Ptr) (name : Bytes) (mode : ℕ) (skip_sync : Bool)
      → mem home s.all_entries ≡ true
      → (env.new_entry == 0) ≡ false
      → s.entry env.new_entry ≡ none
      → Op s
  delete : (env : Env) (entry : Ptr) → mem entry s.all_entries ≡ true → Op s
  write :
      (env : Env) (p : Ptr) (bytes : Bytes) (offset : ℕ)
      → mem p s.all_entries ≡ true
      → (env.new_block == 0) ≡ false
      → (s.block env.new_block ≡ none) ⊎ (env.new_block ≡ (at s p).buffer)
      → offset + length bytes < 2 ^ 64
      → Op s
  starved_create :
      (env : Env) (home : Ptr) (name : Bytes) (mode : ℕ) (skip_sync : Bool)
      → mem home s.all_entries ≡ true
      → (env.new_entry == 0) ≡ true
      → Op s
  starved_write :
      (env : Env) (p : Ptr) (bytes : Bytes) (offset : ℕ)
      → mem p s.all_entries ≡ true
      → (env.new_block == 0) ≡ true
      → (at s p).capacity < offset + length bytes
      → offset + length bytes < 2 ^ 64
      → Op s
  read : (env : Env) (p : Ptr) (len offset : ℕ) → mem p s.all_entries ≡ true → Op s
  lookup : (home : Ptr) (name : Bytes) → mem home s.all_entries ≡ true → Op s

abbrev pub state_of : {A : Type 0} → Option (A × Store) → Option Store
state_of none = none
state_of (some (a, s)) = some s

-- The storage after an operation; `none` is a fault.
abbrev pub run : (s : Store) → Op s → Option Store
run s (create env home name mode skip_sync m got unused) =
    state_of (create_entry_internal env home name mode 0 skip_sync s)
run s (delete env entry m) = state_of (vtfs_storage_delete_entry env entry s)
run s (write env p bytes offset m got free fits) =
    state_of (vtfs_storage_write env p bytes offset s)
run s (starved_create env home name mode skip_sync m none_left) =
    state_of (create_entry_internal env home name mode 0 skip_sync s)
run s (starved_write env p bytes offset m none_left short fits) =
    state_of (vtfs_storage_write env p bytes offset s)
run s (read env p len offset m) = state_of (vtfs_storage_read env p len offset s)
run s (lookup home name m) = state_of (vtfs_storage_lookup home name s)

-- What operations reach, from an initialisation with memory for the root on.
pub data Reached : Store → Type 0 where
  start : (env : Env) (s : Store) (got : (env.new_entry == 0) ≡ false) → Reached (fresh env s got)
  next : {s s' : Store} → Reached s → (o : Op s) → run s o ≡ some s' → Reached s'

run-IsSound : (s : Store) → IsSound s → (o : Op s) → (s' : Store) × (run s o ≡ some s') × IsSound s'
run-IsSound s sound (create env home name mode skip_sync m got unused) =
    elim (create_cases s home name m) [
      | inl bad ↦
          (s, ap state_of (refuse_create env s home name mode 0 skip_sync sound.tree m bad), sound)
      | inr (dir, unnamed) ↦
          let (s', runs, done) =
            create-Runs s sound env home name mode skip_sync m dir unnamed got unused in
          (s', ap state_of runs, done)
    ]
run-IsSound s sound (delete env entry m) = elim (delete_cases s sound.tree entry) [
  | inl root ↦ (s, ap state_of (delete_root s sound.tree env entry root), sound)
  | inr (away, inr (q, child)) ↦
      (s, ap state_of (delete_full s sound.tree env entry q m away child), sound)
  | inr (away, inl childless) ↦
      let (s', runs, done) = delete-Runs s sound env entry m away childless in
      (s', ap state_of runs, done)
]
run-IsSound s sound (write env p bytes offset m got free fits) =
    elim (write_cases s p bytes offset) [
      | inl other ↦ (s, ap state_of (write_other s sound p m env bytes offset other), sound)
      | inr (reg, inr big) ↦
          (s, ap state_of (write_too_big s sound p m env bytes offset reg fits big), sound)
      | inr (reg, inl small) ↦
          let (s', runs, done) = write-Runs s sound env p bytes offset m reg got free small in
          (s', ap state_of runs, done)
    ]
run-IsSound s sound (starved_create env home name mode skip_sync m none_left) =
    let (s', runs, done, left) = create_starved s sound env home name mode skip_sync m none_left in
    (s', ap state_of runs, done)
run-IsSound s sound (starved_write env p bytes offset m none_left short fits) =
    let (code, runs, why) = write_starved s sound env p bytes offset m none_left short fits in
    (s, ap state_of runs, sound)
run-IsSound s sound (read env p len offset m) = elim (Bool-cases (is_reg (at s p).mode)) [
  | inl reg ↦
      let (result, (s', runs, done)) = read-Runs s sound env p len offset m reg in
      (s', ap state_of runs, done)
  | inr other ↦ (s, ap state_of (read_other s sound p m env len offset other), sound)
]
run-IsSound s sound (lookup home name m) =
    let (p, runs) = lookup_runs s sound home m name in (s, ap state_of runs, sound)

abbrev or_else : Store → Option Store → Store
or_else s none = s
or_else s (some s') = s'

pub Reached-IsSound : {s : Store} → Reached s → IsSound s
Reached-IsSound (start env s got) = fresh-IsSound env s got
Reached-IsSound (next {s} r o e) =
    let (s2, e2, sound) = run-IsSound s (Reached-IsSound r) o in
    subst IsSound (ap (or_else s) (sym e2 ∙ e)) sound

-- After any sequence of creations under numbers of their own, deletions, writes, reads and lookups on
-- listed entries from an initialisation with memory for the root on, refused or not, with memory or
-- not, without hard links, where the allocator gives addresses that are not in use or grows a file's
-- data in place, and the end of each write is below 2 ^ 64: each further such operation ends without
-- a fault, in a storage that is well-formed again and reached by the sequence.
pub Reached-run :
    {s : Store}
    → Reached s
    → (o : Op s) → (s' : Store) × (run s o ≡ some s') × IsTree s' × Reached s'
Reached-run {s} r o =
    let (s', e, sound) = run-IsSound s (Reached-IsSound r) o in (s', e, sound.tree, next r o e)

-- After any such sequence the cleanup ends without a fault: all that was listed is freed with its data,
-- and nothing else.
pub Reached-Cleaned :
    {s : Store} → Reached s → (s' : Store) × (vtfs_storage_cleanup s ≡ some (tt, s')) × Cleaned s s'
Reached-Cleaned {s} r = let sound = Reached-IsSound r in cleanup-Cleaned s sound.tree sound.owned
