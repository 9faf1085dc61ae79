-- ===== src/Storage/Tree.antt =====
-- The shape that module/storage.c keeps its entries in: what is linked is allocated, the parent
-- pointers and the `children` chains say the same, and a parent is older than its children.
pub mod Shape
pub mod Grow
pub mod Marked
pub mod Shrink
use vtfs.Base.{
  ℕ, ◌≡◌, refl, sym, ◌⊎◌, Bool, true, false, Option, none, some, List, [], ◌∷◌, ◌==◌, arith, ◌||◌,
  inl, inr, Bool-cases, ==→eq,
}
use mathlib.Core.Path.{subst}
use vtfs.Base.Lists.{mem, Distinct, listed_differs}
use vtfs.Storage.State.{Ptr, Entry, Store, is_dir}

-- What stands in place of an entry that is not allocated.
abbrev missing : Entry
missing = record {
  name = [];
  ino = 0;
  mode = 0;
  buffer = 0;
  size = 0;
  capacity = 0;
  nlink = 0;
  atime = 0;
  mtime = 0;
  ctime = 0;
  parent = 0;
  children = [];
}

abbrev pub entry_or_missing : Option Entry → Entry
entry_or_missing none = missing
entry_or_missing (some e) = e

-- The entry at an address.
abbrev pub at : Store → Ptr → Entry
at s p = entry_or_missing (s.entry p)

-- Every address of the chain holds an entry.
abbrev pub Live : Store → List Ptr → Type 0
Live s [] = Unit
Live s (p ∷ ps) = ((p == 0) ≡ false) × (s.entry p ≡ some (at s p)) × Live s ps

-- Every entry but the root stands before its parent.
abbrev pub Older : Store → List Ptr → Type 0
Older s [] = Unit
Older s (p ∷ ps) = (((p == s.root) || mem (at s p).parent ps) ≡ true) × Older s ps

pub record IsTree (s : Store) : Type 0 where
  pub unlocked : s.locked ≡ false
  pub root_listed : mem s.root s.all_entries ≡ true
  pub root_dir : is_dir (at s s.root).mode ≡ true
  pub root_parent : (at s s.root).parent ≡ s.root
  pub live : Live s s.all_entries
  pub distinct : Distinct s.all_entries
  pub older : Older s s.all_entries
  pub parent_dir :
      (p : Ptr) → mem p s.all_entries ≡ true → is_dir (at s (at s p).parent).mode ≡ true
  pub parent_listed :
      (p : Ptr) → mem p s.all_entries ≡ true → mem (at s p).parent s.all_entries ≡ true
  pub child_listed :
      (p q : Ptr)
      → mem p s.all_entries ≡ true
      → mem q (at s p).children ≡ true
      → (mem q s.all_entries ≡ true) × ((at s q).parent ≡ p) × ((q == s.root) ≡ false)
  pub listed_child :
      (q : Ptr)
      → mem q s.all_entries ≡ true
      → (q == s.root) ≡ false
      → mem q (at s (at s q).parent).children ≡ true
  pub children_distinct : (p : Ptr) → mem p s.all_entries ≡ true → Distinct (at s p).children

pub Live-mem :
    (s : Store) (p : Ptr) (ps : List Ptr)
    → Live s ps
    → mem p ps ≡ true
    → ((p == 0) ≡ false) × (s.entry p ≡ some (at s p))
Live-mem s p [] h m = cc
Live-mem s p (q ∷ ps) (q0, eq, h) m = ground (arith, Live-mem s p ps h)

-- A chain of listed entries is live.
pub Live-of_mem :
    (s : Store) (all ps : List Ptr)
    → Live s all
    → ((q : Ptr) → mem q ps ≡ true → mem q all ≡ true)
    → Live s ps
Live-of_mem s all [] h inside = tt
Live-of_mem s all (p ∷ ps) h inside =
    let (p0, ep) = Live-mem s p all h (inside p (ground arith)) in
    (p0, ep, Live-of_mem s all ps h (λ q m. inside q (ground arith)))

-- An entry other than the root is not its own parent.
Older-away :
    (s : Store) (p : Ptr) (ps : List Ptr)
    → Older s ps
    → Distinct ps
    → mem p ps ≡ true
    → (p == s.root) ≡ false
    → (p == (at s p).parent) ≡ false
Older-away s p [] o d m n = cc
Older-away s p (q ∷ ps) (oq, o) (q_once, d) m n = elim (Bool-cases (p == q)) [
  | inl same ↦
      let e : p ≡ q = ==→eq p q same in
      let behind : mem (at s p).parent ps ≡ true =
        subst (λ r. mem (at s r).parent ps ≡ true) (sym e) (ground arith) in
      let once : mem p ps ≡ false = rw e q_once in listed_differs p (at s p).parent ps once behind
  | inr other ↦ Older-away s p ps o d (ground arith) n
]

pub parent_differs :
    (s : Store) (p : Ptr)
    → IsTree s
    → mem p s.all_entries ≡ true
    → (p == s.root) ≡ false
    → (p == (at s p).parent) ≡ false
parent_differs s p t = Older-away s p s.all_entries t.older t.distinct
