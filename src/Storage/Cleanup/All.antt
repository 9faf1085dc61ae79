-- ===== src/Storage/Cleanup/All.antt =====
-- What `vtfs_storage_cleanup` frees.
use mathlib.Core.Path.{subst}
use vtfs.Base.{
  ◌≡◌, refl, ap, ◌∙◌, Bool, true, false, none, some, List, [], ◌∷◌, ◌==◌, arith, Bool-cases, ==→eq,
  ==_refl, inl, inr, sym,
}
use vtfs.Base.Lists.{length, mem, list_del, mem-list_del_self, mem-list_del_ne, listed_differs}
use vtfs.Storage.State.{Ptr, Entry, Store, load_lem, spin_lock}
use vtfs.Storage.Tree.{at, entry_or_missing, Live-mem, Older, IsTree}
use vtfs.Storage.Cleanup.{free_children, free_entries_recursive, free_root, vtfs_storage_cleanup}
use vtfs.Storage.Cleanup.Shrunk.{free_lock, Owned, IsReleased, Freed}
use vtfs.Storage.Cleanup.Step.{freed, free_entry_lem}
use vtfs.Storage.Cleanup.Freed.{free_children-Freed}

-- What the cleanup leaves.
pub record Cleaned (s s' : Store) : Type 0 where
  pub root : s'.root ≡ 0
  pub unlocked : s'.locked ≡ false
  pub all_entries : s'.all_entries ≡ []
  pub gone :
      (q : Ptr) → mem q s.all_entries ≡ true → (s'.entry q ≡ none) × IsReleased s' (at s q).buffer
  pub unlisted : (q : Ptr) → mem q s.all_entries ≡ false → s'.entry q ≡ s.entry q
  pub foreign :
      (b : Ptr)
      → ((q : Ptr) → mem q s.all_entries ≡ true → ((at s q).buffer == b) ≡ false)
      → s'.block b ≡ s.block b

-- Where the root has no children, no other entry is listed.
root_alone :
    (s : Store) (ps : List Ptr)
    → IsTree s
    → (at s s.root).children ≡ []
    → Older s ps
    → ((q : Ptr) → mem q ps ≡ true → mem q s.all_entries ≡ true)
    → (q : Ptr) → mem q ps ≡ true
    → q ≡ s.root
root_alone s [] t none_left o inside q m = absurd (cc m)
root_alone s (p ∷ ps) t none_left (op, o) inside q m =
    let rest = root_alone s ps t none_left o (λ r i. inside r (ground arith)) in
    let first : p ≡ s.root = elim (Bool-cases (p == s.root)) [
      | inl top ↦ ==→eq p s.root top
      | inr below ↦
          let up : mem (at s p).parent ps ≡ true = ground (arith, op, below) in
          let i : mem p (at s s.root).children ≡ true =
            subst (λ (r : Ptr). mem p (at s r).children ≡ true) (rest (at s p).parent up)
              (t.listed_child p (inside p (ground arith)) below) in
          let z : mem p [] ≡ true = rw none_left at i in absurd (cc z)
    ] in
    elim (Bool-cases (q == p)) [
      | inl same ↦ ==→eq q p same ∙ first
      | inr other ↦ let later : mem q ps ≡ true = ground (arith, m, other) in rest q later
    ]

nothing_left : (l : List Ptr) → ((q : Ptr) → mem q l ≡ false) → l ≡ []
nothing_left [] h = refl
nothing_left (x ∷ l) h = let n = h x in absurd (ground arith)

module _ (s : Store) (t : IsTree s) (o : Owned s) where
  abbrev held : Store
  held = record s { locked = true }

  module _ (s1 : Store) (f : Freed held s.root s1) where
    root_same : s1.root ≡ s.root
    root_same = f.shrunk.root

    at_root : at s1 s.root ≡ record (at s s.root) { children = [] }
    at_root = ap entry_or_missing f.dir_entry

    only_root : (q : Ptr) → mem q s1.all_entries ≡ true → q ≡ s.root
    only_root q m =
        let empty : (at s1 s1.root).children ≡ [] =
          ap (λ (p : Ptr). (at s1 p).children) root_same ∙ ap (λ (e : Entry). e.children) at_root in
        root_alone (free_lock s1) s1.all_entries f.tree empty f.tree.older (λ r i. i) q m
        ∙ root_same

    unlisted_but : (q : Ptr) → (q == s.root) ≡ false → mem q s1.all_entries ≡ false
    unlisted_but q other = elim (Bool-cases (mem q s1.all_entries)) [
      | inl m ↦ let e = only_root q m in absurd (ground arith)
      | inr out ↦ out
    ]

    all_gone : list_del s.root s1.all_entries ≡ []
    all_gone = nothing_left (list_del s.root s1.all_entries) (λ q. elim (Bool-cases (q == s.root)) [
      | inl same ↦
          rw (==→eq q s.root same) (mem-list_del_self s.root s1.all_entries f.tree.distinct)
      | inr other ↦ mem-list_del_ne s.root q s1.all_entries other ∙ unlisted_but q other
    ])

    root_live : ((s.root == 0) ≡ false) × (s1.entry s.root ≡ some (at s1 s.root))
    root_live = Live-mem (free_lock s1) s.root s1.all_entries f.tree.live f.dir_listed

    -- the storage at the end
    abbrev end : Store
    end =
        record (freed s.root (at s1 s.root)
          (record s1 { all_entries = list_del s.root s1.all_entries })) { root = 0; locked = false }

    same_data : (at s1 s.root).buffer ≡ (at s s.root).buffer
    same_data = ap (λ (e : Entry). e.buffer) at_root

    still_free : (b : Ptr) → s1.block b ≡ none → end.block b ≡ none
    still_free b e = ground arith

    root_released : IsReleased end (at s s.root).buffer
    root_released = elim (Bool-cases ((at s1 s.root).buffer == 0)) [
      | inl null ↦ inl (sym same_data ∙ ==→eq (at s1 s.root).buffer 0 null)
      | inr other ↦ inr (
          subst (λ (b : Ptr). end.block b ≡ none) same_data
            (rw other (rw (==_refl (at s1 s.root).buffer) refl)))
    ]

    entry_gone :
        (q : Ptr)
        → mem q s.all_entries ≡ true
        → (end.entry q ≡ none) × IsReleased end (at s q).buffer
    entry_gone q m = elim (Bool-cases (q == s.root)) [
      | inl same ↦
          let e : q ≡ s.root = ==→eq q s.root same in
          (rw same refl, subst (λ (p : Ptr). IsReleased end (at s p).buffer) (sym e) root_released)
      | inr other ↦
          let out : mem q s1.all_entries ≡ false = unlisted_but q other in
          let (e, r) = f.shrunk.gone q m out in
          (
            rw other e,
            elim r [ inl null ↦ inl null | inr free ↦ inr (still_free (at s q).buffer free) ],
          )
    ]

    other_data :
        (b : Ptr)
        → ((q : Ptr) → mem q s.all_entries ≡ true → ((at s q).buffer == b) ≡ false)
        → end.block b ≡ s.block b
    other_data b h =
        let mine : ((at s1 s.root).buffer == b) ≡ false = rw same_data (h s.root t.root_listed) in
        let kept : end.block b ≡ s1.block b = ground arith in kept ∙ f.shrunk.foreign b h

    end-Cleaned : Cleaned s end
    end-Cleaned = record {
      root = refl;
      unlocked = refl;
      all_entries = all_gone;
      gone = entry_gone;
      unlisted =
          λ q n. rw (listed_differs q s.root s.all_entries n t.root_listed) (f.shrunk.unlisted q n);
      foreign = other_data;
    }

    run :
        free_children (length s.all_entries) s.root (at s s.root).children held ≡ some (tt, s1)
        → vtfs_storage_cleanup s ≡ some (tt, end)
    unfolding vtfs_storage_cleanup spin_lock free_root free_entries_recursive
    run below =
        let (root0, live) = Live-mem s s.root s.all_entries t.live t.root_listed in
        let last =
          free_entry_lem s.root (at s1 s.root)
            (record s1 { all_entries = list_del s.root s1.all_entries }) root0 root_live.1
            (f.owned.freeable s.root f.dir_listed) in
        rw t.unlocked
          (rw root0 (rw (load_lem s.root held (at s s.root) root0 live) (rw below (rw last refl))))

  -- The cleanup of a well-formed storage, in which the data of each entry is NULL or a block of its
  -- own, ends without a fault: no entry is listed any more, each that was listed is freed, its
  -- data too, and nothing else is.
  pub cleanup-Cleaned : (s' : Store) × (vtfs_storage_cleanup s ≡ some (tt, s')) × Cleaned s s'
  cleanup-Cleaned =
      let (s1, run1, f) =
        free_children-Freed (length s.all_entries) held s.root (at s s.root).children
          (subst IsTree (ap (λ (b : Bool). record s { locked = b }) t.unlocked) t)
          (record { freeable = o.freeable; unshared = o.unshared }) t.root_listed refl
          (omega arith) in
      (end s1 f, run s1 f run1, end-Cleaned s1 f)
