-- ===== src/Checks/Small.antt =====
-- A storage of a root and a file `a` that holds five bytes in a block of 64.
use vtfs.Base.{
  ◌≡◌, refl, none, some, true, false, [], ◌∷◌, ◌==◌, ==→eq, arith, sym, if◌then◌else◌, inl, inr,
  Bool-cases,
}
use mathlib.Core.Path.{subst}
use vtfs.Base.Lists.{mem, get_or}
use vtfs.Base.Strings.{Bytes, codes, str_eq}
use vtfs.Storage.State.{Ptr, Entry, Block, Store, Env, dir_mode, file_mode}
use vtfs.Storage.Tree.{at, IsTree}
use vtfs.Storage.Contents.File.{IsFile}

abbrev pub root_entry : Entry
root_entry = record {
  name = codes "/";
  ino = 1000;
  mode = dir_mode;
  buffer = 0;
  size = 0;
  capacity = 0;
  nlink = 2;
  atime = 1;
  mtime = 1;
  ctime = 1;
  parent = 1;
  children = 2 ∷ [];
}

abbrev pub file_entry : Entry
file_entry = record {
  name = codes "a";
  ino = 1001;
  mode = file_mode;
  buffer = 9;
  size = 5;
  capacity = 64;
  nlink = 1;
  atime = 1;
  mtime = 1;
  ctime = 1;
  parent = 1;
  children = [];
}

abbrev pub file_block : Block
file_block = record { len = 64; at = λ i. get_or (codes "hello") i 165 }

abbrev pub small : Store
small = record {
  entry = λ p. if p == 1 then some root_entry else if p == 2 then some file_entry else none;
  block = λ p. if p == 9 then some file_block else none;
  root = 1;
  all_entries = 2 ∷ 1 ∷ [];
  next_ino = 1002;
  locked = false;
  sent = [];
}

-- what the kernel gives: an address for an entry, and one for data
abbrev pub env : Ptr → Ptr → Env
env e b = record {
  new_entry = e;
  new_block = b;
  uninit = λ i. 165;
  now = 7;
  server_url = codes "http://127.0.0.1:8080";
}

pub either : (P : Ptr → Type 0) → P 2 → P 1 → (p : Ptr) → mem p (2 ∷ 1 ∷ []) ≡ true → P p
either P two one p m = elim (Bool-cases (p == 2)) [
  | inl a ↦ subst P (sym (==→eq p 2 a)) two
  | inr b ↦ let c : (p == 1) ≡ true = ground arith in subst P (sym (==→eq p 1 c)) one
]

only_child :
    (q : Ptr)
    → mem q (2 ∷ []) ≡ true
    → (mem q small.all_entries ≡ true) × ((at small q).parent ≡ 1) × ((q == small.root) ≡ false)
only_child q i =
    let e : (q == 2) ≡ true = ground arith in
    subst
      (λ r.
        (mem r small.all_entries ≡ true) × ((at small r).parent ≡ 1) × ((r == small.root) ≡ false))
      (sym (==→eq q 2 e)) (refl, refl, refl)

pub small-IsTree : IsTree small
small-IsTree = record {
  unlocked = refl;
  root_listed = refl;
  root_dir = refl;
  root_parent = refl;
  live = (refl, refl, (refl, refl, tt));
  distinct = (refl, (refl, tt));
  older = (refl, (refl, tt));
  parent_dir = either _ refl refl;
  parent_listed = either _ refl refl;
  child_listed = λ p q m.
      either
        (λ r.
          mem q (at small r).children ≡ true
          → (mem q small.all_entries ≡ true)
            × ((at small q).parent ≡ r)
            × ((q == small.root) ≡ false))
        (λ i. absurd (ground arith)) (only_child q) p m;
  listed_child =
      either (λ q. (q == 1) ≡ false → mem q (at small (at small q).parent).children ≡ true)
        (λ _. refl) (λ n. absurd (ground arith));
  children_distinct = either _ tt (refl, tt);
}

-- no child of the root has the name that is created
abbrev pub Unnamed : Bytes → Type 0
Unnamed name =
    (q : Ptr) → mem q (at small 1).children ≡ true → str_eq (at small q).name name ≡ false

pub Unnamed-but : (name : Bytes) → str_eq (codes "a") name ≡ false → Unnamed name
Unnamed-but name n q i =
    let e : (q == 2) ≡ true = ground arith in
    subst (λ r. str_eq (at small r).name name ≡ false) (sym (==→eq q 2 e)) n

pub small-IsFile : IsFile small 2 file_entry
small-IsFile = record {
  not_null = refl;
  live = refl;
  reg = refl;
  size_le = omega arith;
  capacity_le = omega arith;
  backed = inr (file_block, refl, refl, refl);
}
