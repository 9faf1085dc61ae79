-- ===== src/Storage/Cleanup/Step.antt =====
-- One round of the loop of `free_entries_recursive`, after what is below the child is gone.
use vtfs.Base.{
  ◌≡◌, refl, ap, ◌∙◌, ◌⊎◌, true, false, none, some, [], ◌==◌, arith, if◌then◌else◌, Bool-cases,
  ==→eq, ==_refl, inl, inr, sym,
}
use mathlib.Core.Path.{subst}
use vtfs.Base.Lists.{mem, list_del, mem-list_del_self, mem-list_del_ne, listed_differs}
use vtfs.Storage.State.{
  Ptr, Entry, Store, load, change_lem, update, put_entry, free_entry_at, kfree,
}
use vtfs.Storage.Tree.{at, entry_or_missing, Live-mem, IsTree}
use vtfs.Storage.Tree.Shrink.{Removes, IsTree-Removes}
use vtfs.Storage.Remove.Discard.{Freeable}
use vtfs.Storage.Cleanup.{free_entry, remove_child}
use vtfs.Storage.Cleanup.Shrunk.{free_lock, Owned, IsReleased, Shrunk}

-- What `free_entry` leaves.
abbrev pub freed : Ptr → Entry → Store → Store
freed p e s = record s {
  entry = update s.entry p none;
  block = if e.buffer == 0 then s.block else update s.block e.buffer none;
}

pub free_entry_lem :
    (p : Ptr) (e : Entry) (s : Store)
    → (p == 0) ≡ false
    → s.entry p ≡ some e
    → Freeable s e.buffer
    → free_entry p s ≡ some (tt, freed p e s)
unfolding free_entry free_entry_at load kfree
free_entry_lem p e s p0 live (inl null) = ground arith
free_entry_lem p e s p0 live (inr (n, (b, eb))) = ground arith

module _ (s : Store) (dir c : Ptr) (t : IsTree (free_lock s)) (o : Owned s)
    (m : mem c s.all_entries ≡ true) (not_root : (c == s.root) ≡ false)
    (below : (at s c).parent ≡ dir) (childless : (at s c).children ≡ []) where
  live_c : ((c == 0) ≡ false) × (s.entry c ≡ some (at s c))
  live_c = Live-mem (free_lock s) c s.all_entries t.live m

  live_dir : ((dir == 0) ≡ false) × (s.entry dir ≡ some (at s dir))
  live_dir =
      Live-mem (free_lock s) dir s.all_entries t.live
        (subst (λ (p : Ptr). mem p s.all_entries ≡ true) below (t.parent_listed c m))

  abbrev less : Entry
  less = record (at s dir) { children = list_del c (at s dir).children }

  abbrev pub removed : Store
  removed = record s {
    entry = update (update s.entry dir (some less)) c none;
    block = if (at s c).buffer == 0 then s.block else update s.block (at s c).buffer none;
    all_entries = list_del c s.all_entries;
  }

  apart : (c == dir) ≡ false
  apart = elim (Bool-cases (c == dir)) [
    | inl same ↦
        let e : (at s c).parent ≡ c = below ∙ sym (==→eq c dir same) in
        let i : mem c (at s c).children ≡ true =
          subst (λ (p : Ptr). mem c (at s p).children ≡ true) e (t.listed_child c m not_root) in
        let z : mem c [] ≡ true = rw childless at i in absurd (cc z)
    | inr other ↦ other
  ]

  pub step_run : remove_child dir c s ≡ some (tt, removed)
  unfolding remove_child
  step_run =
      let out = record (put_entry dir (some less) s) { all_entries = list_del c s.all_entries } in
      let still : out.entry c ≡ some (at s c) = rw apart live_c.1 in
      rw
        (change_lem dir (λ e. record e { children = list_del c e.children }) s (at s dir) live_dir.0
          live_dir.1)
        (free_entry_lem c (at s c) out live_c.0 still (o.freeable c m))

  pub stays :
      (q : Ptr)
      → mem q removed.all_entries ≡ true
      → (mem q s.all_entries ≡ true) × ((q == c) ≡ false)
  stays q i = elim (Bool-cases (q == c)) [
    | inl same ↦
        let e : q ≡ c = ==→eq q c same in
        absurd (cc (i, e, mem-list_del_self c s.all_entries t.distinct))
    | inr other ↦ (rw (mem-list_del_ne c q s.all_entries other) at i, other)
  ]

  abbrev after : Ptr → Entry
  after q = if q == dir then less else at s q

  kept :
      (q : Ptr) → mem q s.all_entries ≡ true → (q == c) ≡ false → removed.entry q ≡ some (after q)
  kept q i other = elim (Bool-cases (q == dir)) [
    | inl same ↦ rw other (rw same refl)
    | inr away ↦ rw other (rw away (Live-mem (free_lock s) q s.all_entries t.live i).1)
  ]

  at_kept : (q : Ptr) → mem q s.all_entries ≡ true → (q == c) ≡ false → at removed q ≡ after q
  at_kept q i other = ap entry_or_missing (kept q i other)

  after_same :
      (q : Ptr)
      → ((after q).mode ≡ (at s q).mode)
        × ((after q).parent ≡ (at s q).parent)
        × ((after q).buffer ≡ (at s q).buffer)
  after_same q = elim (Bool-cases (q == dir)) [
    | inl same ↦ let e : q ≡ dir = ==→eq q dir same in rw same (rw e (refl, refl, refl))
    | inr away ↦ rw away (refl, refl, refl)
  ]

  after_children :
      (q : Ptr)
      → (after q).children
        ≡ (if q == (at s c).parent then list_del c (at s q).children else (at s q).children)
  after_children q = rw below (elim (Bool-cases (q == dir)) [
    | inl same ↦ let e : q ≡ dir = ==→eq q dir same in rw same (rw e refl)
    | inr away ↦ rw away refl
  ])

  removed-Removes : Removes (free_lock s) (free_lock removed) c
  removed-Removes = record {
    listed = m;
    not_root = not_root;
    childless = childless;
    unlocked = refl;
    root = refl;
    all_entries = refl;
    live = λ q i n. kept q i n ∙ ap some (sym (at_kept q i n));
    mode = λ q i n. ap (λ (e : Entry). e.mode) (at_kept q i n) ∙ (after_same q).0;
    parent = λ q i n. ap (λ (e : Entry). e.parent) (at_kept q i n) ∙ (after_same q).1;
    children = λ q i n. ap (λ (e : Entry). e.children) (at_kept q i n) ∙ after_children q;
  }

  pub removed-IsTree : IsTree (free_lock removed)
  removed-IsTree = IsTree-Removes (free_lock s) (free_lock removed) c t removed-Removes

  same_buffer :
      (q : Ptr) → mem q removed.all_entries ≡ true → (at removed q).buffer ≡ (at s q).buffer
  same_buffer q i =
      let (i', n) = stays q i in ap (λ (e : Entry). e.buffer) (at_kept q i' n) ∙ (after_same q).2

  -- Only the data of the child is freed.
  other_block : (b : Ptr) → ((at s c).buffer == b) ≡ false → removed.block b ≡ s.block b
  other_block b other = ground arith

  released : IsReleased removed (at s c).buffer
  released = elim (Bool-cases ((at s c).buffer == 0)) [
    | inl null ↦ inl (==→eq (at s c).buffer 0 null)
    | inr other ↦ inr (rw other (rw (==_refl (at s c).buffer) refl))
  ]

  removed-blocks : (b : Ptr) → (removed.block b ≡ none) ⊎ (removed.block b ≡ s.block b)
  removed-blocks b = elim (Bool-cases ((at s c).buffer == b)) [
    | inl same ↦
        let e : (at s c).buffer ≡ b = ==→eq (at s c).buffer b same in
        elim released [
          | inl null ↦ inr (rw null refl)
          | inr gone ↦ inl (subst (λ (a : Ptr). removed.block a ≡ none) e gone)
        ]
    | inr other ↦ inr (other_block b other)
  ]

  only_child : (q : Ptr) → mem q s.all_entries ≡ true → mem q removed.all_entries ≡ false → q ≡ c
  only_child q i n = elim (Bool-cases (q == c)) [
    | inl same ↦ ==→eq q c same
    | inr other ↦ let there = mem-list_del_ne c q s.all_entries other in absurd (cc (i, n, there))
  ]

  child_gone : (removed.entry c ≡ none) × IsReleased removed (at s c).buffer
  child_gone = (rw (==_refl c) refl, released)

  untouched : (q : Ptr) → mem q s.all_entries ≡ false → removed.entry q ≡ s.entry q
  untouched q n =
      let dir_listed : mem dir s.all_entries ≡ true =
        subst (λ (p : Ptr). mem p s.all_entries ≡ true) below (t.parent_listed c m) in
      rw (listed_differs q c s.all_entries n m)
        (rw (listed_differs q dir s.all_entries n dir_listed) refl)

  pub removed-Shrunk : Shrunk s removed
  removed-Shrunk = record {
    root = refl;
    locked = refl;
    sub = λ q i. (stays q i).0;
    buffer = same_buffer;
    gone = λ q i n.
        subst (λ (p : Ptr). (removed.entry p ≡ none) × IsReleased removed (at s p).buffer)
          (sym (only_child q i n)) child_gone;
    unlisted = untouched;
    blocks = removed-blocks;
    foreign = λ b h. other_block b (h c m);
  }

  kept-Freeable : (q : Ptr) → mem q removed.all_entries ≡ true → Freeable removed (at s q).buffer
  kept-Freeable q i =
      let (i', n) = stays q i in
      elim (o.freeable q i') [
        | inl null ↦ inl null
        | inr (some_data, (b, eb)) ↦ elim (Bool-cases ((at s c).buffer == (at s q).buffer)) [
          | inl same ↦
              inl (o.unshared q c i' m n (sym (==→eq (at s c).buffer (at s q).buffer same)))
          | inr other ↦ inr (some_data, (b, other_block (at s q).buffer other ∙ eb))
        ]
      ]

  pub removed-Owned : Owned removed
  removed-Owned = record {
    freeable = λ q i. rw (same_buffer q i) (kept-Freeable q i);
    unshared = λ p q i j n same.
        same_buffer p i
        ∙ o.unshared p q (stays p i).0 (stays q j).0 n
            (sym (same_buffer p i) ∙ same ∙ same_buffer q j);
  }
