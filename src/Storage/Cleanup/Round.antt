-- ===== src/Storage/Cleanup/Round.antt =====
-- What one round of the loop over the children of a directory does.
use mathlib.Core.Path.{subst}
use vtfs.Base.{
  ℕ, suc, ◌+◌, ◌≤◌, ◌<◌, ◌≡◌, refl, ap, ◌∙◌, true, false, some, List, [], ◌∷◌, ◌==◌, arith,
  if◌then◌else◌, ==_refl, sym,
}
use vtfs.Base.Lists.{length, mem, list_del, mem-list_del_ne}
use vtfs.Storage.State.{Ptr, Entry, Store, pure, load_lem, is_dir}
use vtfs.Storage.Tree.{at, entry_or_missing, Live-mem, IsTree}
use vtfs.Storage.Cleanup.{free_children}
use vtfs.Storage.Cleanup.Elders.{
  elders, mem-elders, length-elders, elders-elders, elders-list_del, length-list_del, parent-elder,
  elder-apart,
}
use vtfs.Storage.Cleanup.Shrunk.{free_lock, Shrunk-trans, Freed}
use vtfs.Storage.Cleanup.Step.{removed, stays, step_run, removed-Shrunk}

-- Only directories have children.
pub no_children :
    (s : Store) (c : Ptr) (cs : List Ptr)
    → IsTree (free_lock s)
    → mem c s.all_entries ≡ true
    → is_dir (at s c).mode ≡ false
    → (at s c).children ≡ cs
    → cs ≡ []
no_children s c [] t m file e = refl
no_children s c (q ∷ qs) t m file e =
    let child : mem q (at s c).children ≡ true = rw e (ground arith) in
    let (i, up, top) = t.child_listed c q m child in
    let dir : is_dir (at s c).mode ≡ true =
      subst (λ (p : Ptr). is_dir (at s p).mode ≡ true) up (t.parent_dir q i) in
    absurd (cc (dir, file))

module _ (s : Store) (dir c : Ptr) (rest : List Ptr) (t : IsTree (free_lock s))
    (m : mem dir s.all_entries ≡ true) (chain : (at s dir).children ≡ c ∷ rest) where
  pub child_facts : (mem c s.all_entries ≡ true) × ((at s c).parent ≡ dir) × ((c == s.root) ≡ false)
  child_facts = t.child_listed dir c m (rw chain (ground arith))

  dir_elder : mem dir (elders c s.all_entries) ≡ true
  dir_elder =
      let (i, up, top) = child_facts in
      subst (λ (p : Ptr). mem p (elders c s.all_entries) ≡ true) up
        (parent-elder (free_lock s) c s.all_entries t.older i top)

  -- The fuel that is left is enough for the child.
  pub deeper :
      (fuel : ℕ)
      → length s.all_entries ≤ suc fuel + length (elders dir s.all_entries)
      → length s.all_entries ≤ fuel + length (elders c s.all_entries)
  deeper fuel le =
      let nested = elders-elders c dir s.all_entries t.distinct dir_elder in
      let shorter : length (elders dir s.all_entries) < length (elders c s.all_entries) =
        rw nested (length-elders dir (elders c s.all_entries) dir_elder) in
      omega (arith, le, shorter)

  module _ (s0 : Store) (f : Freed s c s0) where
    dir_apart : (dir == c) ≡ false
    dir_apart = elder-apart c dir s.all_entries t.distinct dir_elder

    dir_stays : mem dir s0.all_entries ≡ true
    dir_stays = mem-elders c dir s0.all_entries (rw f.older dir_elder)

    at_dir : at s0 dir ≡ at s dir
    at_dir = ap entry_or_missing (f.same dir dir_stays dir_apart)

    at_c : at s0 c ≡ record (at s c) { children = [] }
    at_c = ap entry_or_missing f.dir_entry

    pub below : (at s0 c).parent ≡ dir
    below = ap (λ (e : Entry). e.parent) at_c ∙ child_facts.1

    pub childless : (at s0 c).children ≡ []
    childless = ap (λ (e : Entry). e.children) at_c

    pub not_root : (c == s0.root) ≡ false
    not_root = rw f.shrunk.root child_facts.2

    -- the storage without the child
    abbrev pub s1 : Store
    s1 = removed s0 dir c f.tree f.owned f.dir_listed not_root below childless

    dir_after :
        s1.entry dir ≡ some (record (at s dir) { children = list_del c (at s dir).children })
    dir_after = rw dir_apart (
        rw (==_refl dir)
          (ap (λ (e : Entry). some (record e { children = list_del c e.children })) at_dir))

    at_dir_after : at s1 dir ≡ record (at s dir) { children = list_del c (at s dir).children }
    at_dir_after = ap entry_or_missing dir_after

    pub children_after : (at s1 dir).children ≡ rest
    children_after =
        ap (λ (e : Entry). e.children) at_dir_after ∙ ap (list_del c) chain ∙ rw (==_refl c) refl

    pub still_listed : mem dir s1.all_entries ≡ true
    still_listed = mem-list_del_ne c dir s0.all_entries dir_apart ∙ dir_stays

    same_elders : elders dir s1.all_entries ≡ elders dir s.all_entries
    same_elders =
        let there : mem dir (elders c s0.all_entries) ≡ true = rw f.older dir_elder in
        elders-list_del c dir s0.all_entries f.tree.distinct there
        ∙ elders-elders c dir s0.all_entries f.tree.distinct there
        ∙ ap (elders dir) f.older
        ∙ sym (elders-elders c dir s.all_entries t.distinct dir_elder)

    one_less : length s1.all_entries + 1 ≤ length s.all_entries
    one_less = omega (arith, f.shorter, length-list_del c s0.all_entries f.dir_listed)

    pub enough :
        (fuel : ℕ)
        → length s.all_entries ≤ suc fuel + length (elders dir s.all_entries)
        → length s1.all_entries ≤ fuel + length (elders dir s1.all_entries)
    enough fuel le = rw same_elders (omega (arith, le, one_less))

    -- What the loop frees of the other children is added.
    pub and_rest : (s' : Store) → Freed s1 dir s' → Freed s dir s'
    and_rest s' g =
        let step = removed-Shrunk s0 dir c f.tree f.owned f.dir_listed not_root below childless in
        record {
          shrunk = Shrunk-trans s s1 s' (Shrunk-trans s s0 s1 f.shrunk step) g.shrunk;
          tree = g.tree;
          owned = g.owned;
          dir_entry =
              g.dir_entry ∙ ap (λ (e : Entry). some (record e { children = [] })) at_dir_after;
          dir_listed = g.dir_listed;
          older = g.older ∙ same_elders;
          same = λ q i n.
              let i1 = g.shrunk.sub q i in
              let i0 = step.sub q i1 in
              let other : (q == c) ≡ false =
                (stays s0 dir c f.tree f.owned f.dir_listed not_root below childless q i1).1 in
              g.same q i n ∙ (rw other (rw n refl) ∙ f.same q i0 other);
          shorter = omega (arith, g.shorter, one_less);
        }

-- One round, given what the recursion has freed below the child.
pub round :
    (s s0 : Store) (fuel : ℕ) (dir c : Ptr) (rest : List Ptr) (t : IsTree (free_lock s))
    (m : mem dir s.all_entries ≡ true) (chain : (at s dir).children ≡ c ∷ rest) (f : Freed s c s0)
    → (if is_dir (at s c).mode then free_children fuel c (at s c).children else pure tt) s
      ≡ some (tt, s0)
    → free_children (suc fuel) dir (c ∷ rest) s
      ≡ free_children fuel dir rest (s1 s dir c rest t m chain s0 f)
unfolding free_children
round s s0 fuel dir c rest t m chain f run =
    let (i, up, top) = child_facts s dir c rest t m chain in
    let (c0, live) = Live-mem (free_lock s) c s.all_entries t.live i in
    rw (load_lem c s (at s c) c0 live) (
      rw run (
        rw
          (step_run s0 dir c f.tree f.owned f.dir_listed (not_root s dir c rest t m chain s0 f)
            (below s dir c rest t m chain s0 f) (childless s dir c rest t m chain s0 f))
          refl))
