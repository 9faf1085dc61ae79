-- ===== src/Storage/Sound.antt =====
-- A storage in which the tree, the files and the memory agree, and what keeps it so.
pub mod Create
pub mod Delete
pub mod Write
pub mod Runs
pub mod Cases
pub mod Starved
pub mod Reached
use vtfs.Base.{
  ℕ, ◌≡◌, refl, ap, sym, ◌∙◌, ◌⊎◌, inl, inr, Bool, true, false, Option, none, some, List, ◌==◌,
  arith, Bool-cases, ==→eq, ==_refl,
}
use mathlib.Core.Path.{subst}
use vtfs.Base.Lists.{mem}
use vtfs.Storage.State.{Ptr, Entry, Block, Store, is_reg}
use vtfs.Storage.Tree.{at, entry_or_missing, IsTree}
use vtfs.Storage.Remove.Discard.{Freeable}
use vtfs.Storage.Contents.File.{IsFile, Backed}
use vtfs.Storage.Cleanup.Shrunk.{Owned}

-- The tree is well-formed, each listed entry has data of its own or none, and each listed regular
-- file has memory that agrees with its capacity.
pub record IsSound (s : Store) : Type 0 where
  pub tree : IsTree s
  pub owned : Owned s
  pub files :
      (p : Ptr) → mem p s.all_entries ≡ true → is_reg (at s p).mode ≡ true → IsFile s p (at s p)

module _ (s s' : Store) (o : Owned s) (p : Ptr) where
  -- Where the data of an entry comes from: it has none, it is what it was, or it is in a block that
  -- was free, for the one entry that may get one.
  abbrev pub Origin : Ptr → Type 0
  Origin q =
      ((at s' q).buffer ≡ 0)
      ⊎ ((mem q s.all_entries ≡ true) × ((at s' q).buffer ≡ (at s q).buffer))
      ⊎ ((q ≡ p) × (s.block (at s' q).buffer ≡ none))

  -- An entry whose block was free had none.
  no_data :
      (q : Ptr) → mem q s.all_entries ≡ true → s.block (at s q).buffer ≡ none → (at s q).buffer ≡ 0
  no_data q m free = elim (o.freeable q m) [
    | inl null ↦ null
    | inr (some_data, (b, eb)) ↦ absurd (cc (eb, free))
  ]

  still_unshared :
      (q r : Ptr)
      → (q == r) ≡ false
      → (at s' q).buffer ≡ (at s' r).buffer
      → Origin q
      → Origin r
      → (at s' q).buffer ≡ 0
  still_unshared q r n same (inl null) y = null
  still_unshared q r n same (inr x) (inl null) = same ∙ null
  still_unshared q r n same (inr (inl (i, a))) (inr (inl (j, b))) =
      a ∙ o.unshared q r i j n (sym a ∙ same ∙ b)
  still_unshared q r n same (inr (inl (i, a))) (inr (inr (e, b))) =
      a ∙ no_data q i (ap s.block (sym a ∙ same) ∙ b)
  still_unshared q r n same (inr (inr (e, a))) (inr (inl (j, b))) =
      same ∙ (b ∙ no_data r j (ap s.block (sym b ∙ sym same) ∙ a))
  still_unshared q r n same (inr (inr (e, a))) (inr (inr (f, b))) =
      let there : q ≡ r = e ∙ sym f in
      let equal : (q == r) ≡ true = rw there (==_refl r) in absurd (cc (equal, n))

  pub Owned-step :
      ((q : Ptr) → mem q s'.all_entries ≡ true → Freeable s' (at s' q).buffer)
      → ((q : Ptr) → mem q s'.all_entries ≡ true → Origin q)
      → Owned s'
  Owned-step freeable origin = record {
    freeable = freeable;
    unshared = λ q r i j n same. still_unshared q r n same (origin q i) (origin r j);
  }

-- An entry whose data, sizes, mode, name and place are as they were, in memory that is as it was.
pub record Alike (s s' : Store) (q : Ptr) : Type 0 where
  pub live : s'.entry q ≡ some (at s' q)
  pub buffer : (at s' q).buffer ≡ (at s q).buffer
  pub size : (at s' q).size ≡ (at s q).size
  pub capacity : (at s' q).capacity ≡ (at s q).capacity
  pub mode : (at s' q).mode ≡ (at s q).mode
  pub name : (at s' q).name ≡ (at s q).name
  pub ino : (at s' q).ino ≡ (at s q).ino
  pub parent : (at s' q).parent ≡ (at s q).parent
  pub block : ((at s q).buffer ≡ 0) ⊎ (s'.block (at s q).buffer ≡ s.block (at s q).buffer)

module _ (s s' : Store) (q : Ptr) (a : Alike s s' q) where
  pub Alike-Freeable : Freeable s (at s q).buffer → Freeable s' (at s' q).buffer
  Alike-Freeable (inl null) = inl (a.buffer ∙ null)
  Alike-Freeable (inr (data0, (b, eb))) = elim a.block [
    | inl null ↦ inl (a.buffer ∙ null)
    | inr same ↦ inr (rw a.buffer data0, (b, rw a.buffer (same ∙ eb)))
  ]

  Backed-still : Backed s (at s q) → Backed s' (at s' q)
  Backed-still (inl (null, zero_capacity)) = inl (a.buffer ∙ null, a.capacity ∙ zero_capacity)
  Backed-still (inr (b, data0, eb, len)) = elim a.block [
    | inl null ↦ let z : ((at s q).buffer == 0) ≡ true = rw null refl in absurd (cc (z, data0))
    | inr same ↦ inr (b, rw a.buffer data0, rw a.buffer (same ∙ eb), len ∙ sym a.capacity)
  ]

  pub Alike-IsFile : IsFile s q (at s q) → IsFile s' q (at s' q)
  Alike-IsFile f = record {
    not_null = f.not_null;
    live = a.live;
    reg = rw a.mode f.reg;
    size_le = rw a.size (rw a.capacity f.size_le);
    capacity_le = rw a.capacity f.capacity_le;
    backed = Backed-still f.backed;
  }

abbrev pub SameData : Entry → Entry → Type 0
SameData e f =
    (e.buffer ≡ f.buffer)
    × (e.size ≡ f.size)
    × (e.capacity ≡ f.capacity)
    × (e.mode ≡ f.mode)
    × (e.name ≡ f.name)
    × (e.ino ≡ f.ino)
    × (e.parent ≡ f.parent)

-- An entry of which only the times, the links and the children may be new.
pub Alike-of :
    (s s' : Store) (q : Ptr) (e : Entry)
    → s'.entry q ≡ some e
    → SameData e (at s q)
    → ((at s q).buffer ≡ 0) ⊎ (s'.block (at s q).buffer ≡ s.block (at s q).buffer)
    → Alike s s' q
Alike-of s s' q e is (b, z, c, k, n, i, h) block =
    let a : at s' q ≡ e = ap entry_or_missing is in
    record {
      live = is ∙ ap some (sym a);
      buffer = ap (λ (x : Entry). x.buffer) a ∙ b;
      size = ap (λ (x : Entry). x.size) a ∙ z;
      capacity = ap (λ (x : Entry). x.capacity) a ∙ c;
      mode = ap (λ (x : Entry). x.mode) a ∙ k;
      name = ap (λ (x : Entry). x.name) a ∙ n;
      ino = ap (λ (x : Entry). x.ino) a ∙ i;
      parent = ap (λ (x : Entry). x.parent) a ∙ h;
      block = block;
    }
