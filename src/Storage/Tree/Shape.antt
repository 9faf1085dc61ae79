-- ===== src/Storage/Tree/Shape.antt =====
-- A change of sizes, times, link counts and data leaves the tree as it is.
use vtfs.Base.{
  ◌≡◌, true, false, some, List, [], ◌∷◌, ◌==◌, arith, sym, ap, ◌∙◌, inl, inr, Bool-cases, ==→eq,
}
use vtfs.Base.Lists.{mem}
use mathlib.Core.Path.{subst}
use vtfs.Storage.State.{Ptr, Entry, Store}
use vtfs.Storage.Tree.{entry_or_missing, at, Live, Live-mem, Older, IsTree}

-- The listed entries are where they were, with the same mode, parent and children.
pub record SameShape (s s' : Store) : Type 0 where
  pub unlocked : s'.locked ≡ false
  pub root : s'.root ≡ s.root
  pub all_entries : s'.all_entries ≡ s.all_entries
  pub live : (q : Ptr) → mem q s.all_entries ≡ true → s'.entry q ≡ some (at s' q)
  pub mode : (q : Ptr) → mem q s.all_entries ≡ true → (at s' q).mode ≡ (at s q).mode
  pub parent : (q : Ptr) → mem q s.all_entries ≡ true → (at s' q).parent ≡ (at s q).parent
  pub children : (q : Ptr) → mem q s.all_entries ≡ true → (at s' q).children ≡ (at s q).children

pub Live-build :
    (s : Store) (ps : List Ptr)
    → ((q : Ptr) → mem q ps ≡ true → ((q == 0) ≡ false) × (s.entry q ≡ some (at s q)))
    → Live s ps
Live-build s [] h = tt
Live-build s (p ∷ ps) h =
    let (p0, e) = h p (ground arith) in (p0, e, Live-build s ps (λ q m. h q (ground arith)))

pub Older-same :
    (s s' : Store) (ps : List Ptr)
    → s'.root ≡ s.root
    → ((q : Ptr) → mem q ps ≡ true → (at s' q).parent ≡ (at s q).parent)
    → Older s ps
    → Older s' ps
Older-same s s' [] r h o = tt
Older-same s s' (p ∷ ps) r h (op, o) =
    let pp : (at s' p).parent ≡ (at s p).parent = h p (ground arith) in
    (rw (r, pp) op, Older-same s s' ps r (λ q m. h q (ground arith)) o)

pub IsTree-SameShape : (s s' : Store) → IsTree s → SameShape s s' → IsTree s'
IsTree-SameShape s s' t c = record {
  unlocked = c.unlocked;
  root_listed = rw (c.all_entries, c.root) t.root_listed;
  root_dir = rw c.root (rw (c.mode s.root t.root_listed) t.root_dir);
  root_parent = rw c.root (rw (c.parent s.root t.root_listed) t.root_parent);
  live =
      rw c.all_entries (
        Live-build s' s.all_entries (λ q m. ((Live-mem s q s.all_entries t.live m).0, c.live q m)));
  distinct = rw c.all_entries t.distinct;
  older = rw c.all_entries (Older-same s s' s.all_entries c.root c.parent t.older);
  parent_dir = λ p m.
      let m' = listed p m in
      rw (c.parent p m') (rw (c.mode (at s p).parent (t.parent_listed p m')) (t.parent_dir p m'));
  parent_listed =
      λ p m. let m' = listed p m in rw (c.all_entries, c.parent p m') (t.parent_listed p m');
  child_listed = λ p q m i.
      let m' = listed p m in
      let i' : mem q (at s p).children ≡ true = rw (c.children p m') at i in
      let (mq, pq, rq) = t.child_listed p q m' i' in
      (rw c.all_entries mq, c.parent q mq ∙ pq, rw c.root rq);
  listed_child = λ q m n.
      let m' = listed q m in
      let n' : (q == s.root) ≡ false = rw c.root at n in
      rw (c.parent q m')
        (rw (c.children (at s q).parent (t.parent_listed q m')) (t.listed_child q m' n'));
  children_distinct = λ p m. let m' = listed p m in rw (c.children p m') (t.children_distinct p m');
}
  where
    listed : (p : Ptr) → mem p s'.all_entries ≡ true → mem p s.all_entries ≡ true
    listed p m = rw c.all_entries at m

-- The usual case: of the entries, only the one at `p` is written, and its mode, parent and children
-- stay.
module _ (s s' : Store) (p : Ptr) (e e' : Entry) (t : IsTree s) (before : s.entry p ≡ some e)
    (after : s'.entry p ≡ some e') (others : (q : Ptr) → (q == p) ≡ false → s'.entry q ≡ s.entry q)
    (meta : (e'.mode ≡ e.mode) × (e'.parent ≡ e.parent) × (e'.children ≡ e.children)) where
  at_after : at s' p ≡ e'
  at_after = ap entry_or_missing after

  at_before : at s p ≡ e
  at_before = ap entry_or_missing before

  abbrev Kept : Ptr → Type 0
  Kept q =
      (s'.entry q ≡ some (at s' q))
      × ((at s' q).mode ≡ (at s q).mode)
      × ((at s' q).parent ≡ (at s q).parent)
      × ((at s' q).children ≡ (at s q).children)

  kept : (q : Ptr) → mem q s.all_entries ≡ true → Kept q
  kept q m = elim (Bool-cases (q == p)) [
    | inl same ↦ subst Kept (sym (==→eq q p same)) (
      after ∙ ap some (sym at_after),
      rw (at_after, at_before) meta.0,
      rw (at_after, at_before) meta.1,
      rw (at_after, at_before) meta.2,
    )
    | inr other ↦
        let o : s'.entry q ≡ s.entry q = others q other in
        let a : at s' q ≡ at s q = ap entry_or_missing o in
        (
          o ∙ (Live-mem s q s.all_entries t.live m).1 ∙ ap some (sym a),
          ap (λ (x : Entry). x.mode) a,
          ap (λ (x : Entry). x.parent) a,
          ap (λ (x : Entry). x.children) a,
        )
  ]

  pub SameShape-of_one :
      s'.locked ≡ false → s'.root ≡ s.root → s'.all_entries ≡ s.all_entries → SameShape s s'
  SameShape-of_one u r a = record {
    unlocked = u;
    root = r;
    all_entries = a;
    live = λ q m. (kept q m).0;
    mode = λ q m. (kept q m).1;
    parent = λ q m. (kept q m).2;
    children = λ q m. (kept q m).3;
  }
