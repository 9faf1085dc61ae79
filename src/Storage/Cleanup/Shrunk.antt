-- ===== src/Storage/Cleanup/Shrunk.antt =====
-- What it means that entries have been freed: which of them are gone, and that nothing else is.
use vtfs.Base.{
  ◌≤◌, ◌≡◌, refl, ◌∙◌, ◌⊎◌, true, false, none, some, [], ◌==◌, Bool-cases, inl, inr, sym,
}
use vtfs.Base.Lists.{length, mem}
use vtfs.Storage.State.{Ptr, Store}
use vtfs.Storage.Tree.{at, IsTree}
use vtfs.Storage.Remove.Discard.{Freeable}
use vtfs.Storage.Cleanup.Elders.{elders}

-- The storage as it is without the lock.
abbrev pub free_lock : Store → Store
free_lock s = record s { locked = false }

-- Each listed entry has data that can be freed, and shares it with no other one.
pub record Owned (s : Store) : Type 0 where
  pub freeable : (p : Ptr) → mem p s.all_entries ≡ true → Freeable s (at s p).buffer
  pub unshared :
      (p q : Ptr)
      → mem p s.all_entries ≡ true
      → mem q s.all_entries ≡ true
      → (p == q) ≡ false
      → (at s p).buffer ≡ (at s q).buffer
      → (at s p).buffer ≡ 0

-- The data is NULL or freed.
abbrev pub IsReleased : Store → Ptr → Type 0
IsReleased s b = (b ≡ 0) ⊎ (s.block b ≡ none)

-- From one storage to another some listed entries have been freed with their data.
pub record Shrunk (s s' : Store) : Type 0 where
  pub root : s'.root ≡ s.root
  pub locked : s'.locked ≡ s.locked
  pub sub : (q : Ptr) → mem q s'.all_entries ≡ true → mem q s.all_entries ≡ true
  pub buffer : (q : Ptr) → mem q s'.all_entries ≡ true → (at s' q).buffer ≡ (at s q).buffer
  pub gone :
      (q : Ptr)
      → mem q s.all_entries ≡ true
      → mem q s'.all_entries ≡ false
      → (s'.entry q ≡ none) × IsReleased s' (at s q).buffer
  pub unlisted : (q : Ptr) → mem q s.all_entries ≡ false → s'.entry q ≡ s.entry q
  pub blocks : (b : Ptr) → (s'.block b ≡ none) ⊎ (s'.block b ≡ s.block b)
  pub foreign :
      (b : Ptr)
      → ((q : Ptr) → mem q s.all_entries ≡ true → ((at s q).buffer == b) ≡ false)
      → s'.block b ≡ s.block b

pub Shrunk-refl : (s : Store) → Shrunk s s
Shrunk-refl s = record {
  root = refl;
  locked = refl;
  sub = λ q m. m;
  buffer = λ q m. refl;
  gone = λ q m n. absurd (cc (m, n));
  unlisted = λ q n. refl;
  blocks = λ b. inr refl;
  foreign = λ b h. refl;
}

module _ (s t u : Store) (x : Shrunk s t) (y : Shrunk t u) where
  not_listed : (q : Ptr) → mem q s.all_entries ≡ false → mem q t.all_entries ≡ false
  not_listed q n = elim (Bool-cases (mem q t.all_entries)) [
    | inl m ↦ let m' = x.sub q m in absurd (cc (m', n))
    | inr out ↦ out
  ]

  released : (b : Ptr) → IsReleased t b → IsReleased u b
  released b (inl null) = inl null
  released b (inr gone) = elim (y.blocks b) [ inl freed ↦ inr freed | inr same ↦ inr (same ∙ gone) ]

  both_gone :
      (q : Ptr)
      → mem q s.all_entries ≡ true
      → mem q u.all_entries ≡ false
      → (u.entry q ≡ none) × IsReleased u (at s q).buffer
  both_gone q m n = elim (Bool-cases (mem q t.all_entries)) [
    | inl listed ↦ let (e, r) = y.gone q listed n in (e, rw (sym (x.buffer q listed)) r)
    | inr out ↦ let (e, r) = x.gone q m out in (y.unlisted q out ∙ e, released (at s q).buffer r)
  ]

  pub Shrunk-trans : Shrunk s u
  Shrunk-trans = record {
    root = y.root ∙ x.root;
    locked = y.locked ∙ x.locked;
    sub = λ q m. x.sub q (y.sub q m);
    buffer = λ q m. y.buffer q m ∙ x.buffer q (y.sub q m);
    gone = both_gone;
    unlisted = λ q n. y.unlisted q (not_listed q n) ∙ x.unlisted q n;
    blocks = λ b. elim (y.blocks b) [
      | inl freed ↦ inl freed
      | inr same ↦ elim (x.blocks b) [
        | inl freed ↦ inl (same ∙ freed)
        | inr kept ↦ inr (same ∙ kept)
      ]
    ];
    foreign = λ b h. y.foreign b (λ q m. rw (x.buffer q m) (h q (x.sub q m))) ∙ x.foreign b h;
  }

-- What stands below a directory has been freed.
pub record Freed (s : Store) (dir : Ptr) (s' : Store) : Type 0 where
  pub shrunk : Shrunk s s'
  pub tree : IsTree (free_lock s')
  pub owned : Owned s'
  pub dir_entry : s'.entry dir ≡ some (record (at s dir) { children = [] })
  pub dir_listed : mem dir s'.all_entries ≡ true
  pub older : elders dir s'.all_entries ≡ elders dir s.all_entries
  pub same : (q : Ptr) → mem q s'.all_entries ≡ true → (q == dir) ≡ false → s'.entry q ≡ s.entry q
  pub shorter : length s'.all_entries ≤ length s.all_entries
