-- ===== src/Storage/Tree/Shrink.antt =====
-- An entry without children that leaves its parent's chain and that of all entries leaves a tree.
use vtfs.Base.{
  ◌≡◌, true, false, some, List, [], ◌∷◌, ◌==◌, arith, ◌∙◌, inl, inr, Bool-cases, ==→eq,
  if◌then◌else◌,
}
use vtfs.Base.Lists.{mem, list_del, Distinct, mem-list_del_self, mem-list_del_ne, list_del-Distinct}
use mathlib.Core.Path.{subst}
use vtfs.Storage.State.{Ptr, Store}
use vtfs.Storage.Tree.{at, Live-mem, Older, IsTree}
use vtfs.Storage.Tree.Shape.{Live-build, Older-same}

pub record Removes (s s' : Store) (gone : Ptr) : Type 0 where
  pub listed : mem gone s.all_entries ≡ true
  pub not_root : (gone == s.root) ≡ false
  pub childless : (at s gone).children ≡ []
  pub unlocked : s'.locked ≡ false
  pub root : s'.root ≡ s.root
  pub all_entries : s'.all_entries ≡ list_del gone s.all_entries
  pub live :
      (q : Ptr) → mem q s.all_entries ≡ true → (q == gone) ≡ false → s'.entry q ≡ some (at s' q)
  pub mode :
      (q : Ptr) → mem q s.all_entries ≡ true → (q == gone) ≡ false → (at s' q).mode ≡ (at s q).mode
  pub parent :
      (q : Ptr)
      → mem q s.all_entries ≡ true
      → (q == gone) ≡ false
      → (at s' q).parent ≡ (at s q).parent
  pub children :
      (q : Ptr)
      → mem q s.all_entries ≡ true
      → (q == gone) ≡ false
      → (at s' q).children
        ≡ (if q == (at s gone).parent then list_del gone (at s q).children else (at s q).children)

-- The order by age survives when no one's parent goes.
Older-list_del :
    (s : Store) (gone : Ptr) (ps : List Ptr)
    → ((p : Ptr) → mem p ps ≡ true → (p == s.root) ≡ false → ((at s p).parent == gone) ≡ false)
    → Older s ps
    → Older s (list_del gone ps)
Older-list_del s gone [] h o = tt
Older-list_del s gone (p ∷ ps) h (op, o) = elim (Bool-cases (gone == p)) [
  | inl same ↦ rw same o
  | inr other ↦ rw other (
    ground (arith, h p (ground arith), mem-list_del_ne gone (at s p).parent ps),
    Older-list_del s gone ps (λ q m. h q (ground arith)) o,
  )
]

module _ (s s' : Store) (gone : Ptr) (t : IsTree s) (r : Removes s s' gone) where
  kept :
      (q : Ptr) → mem q s'.all_entries ≡ true → (mem q s.all_entries ≡ true) × ((q == gone) ≡ false)
  kept q m =
      let m' : mem q (list_del gone s.all_entries) ≡ true = rw r.all_entries at m in
      elim (Bool-cases (q == gone)) [
        | inl same ↦
            let e : q ≡ gone = ==→eq q gone same in
            absurd (cc (m', e, mem-list_del_self gone s.all_entries t.distinct))
        | inr other ↦ (rw (mem-list_del_ne gone q s.all_entries other) at m', other)
      ]

  stays : (q : Ptr) → mem q s.all_entries ≡ true → (q == gone) ≡ false → mem q s'.all_entries ≡ true
  stays q m n = rw r.all_entries (rw (mem-list_del_ne gone q s.all_entries n) m)

  -- The parent of an entry that stays, stays.
  parent_stays :
      (q : Ptr)
      → mem q s.all_entries ≡ true
      → (q == s.root) ≡ false
      → ((at s q).parent == gone) ≡ false
  parent_stays q m n = elim (Bool-cases ((at s q).parent == gone)) [
    | inl same ↦
        let e : (at s q).parent ≡ gone = ==→eq (at s q).parent gone same in
        let c : mem q (at s gone).children ≡ true =
          subst (λ x. mem q (at s x).children ≡ true) e (t.listed_child q m n) in
        let z : mem q [] ≡ true = rw r.childless at c in absurd (cc z)
    | inr other ↦ other
  ]

  root_kept : (s.root == gone) ≡ false
  root_kept = ground (arith, r.not_root)

  home_stays : (q : Ptr) → mem q s.all_entries ≡ true → ((at s q).parent == gone) ≡ false
  home_stays q m = elim (Bool-cases (q == s.root)) [
    | inl top ↦ rw (==→eq q s.root top) (rw t.root_parent root_kept)
    | inr below ↦ parent_stays q m below
  ]

  -- The parent of a listed entry, as the smaller storage sees it.
  parent_listed' :
      (q : Ptr) → mem q s'.all_entries ≡ true → mem (at s' q).parent s'.all_entries ≡ true
  parent_listed' q m =
      let (m', n) = kept q m in
      rw (r.parent q m' n) (stays (at s q).parent (t.parent_listed q m') (home_stays q m'))

  child_kept :
      (p q : Ptr)
      → mem p s.all_entries ≡ true
      → (p == gone) ≡ false
      → mem q (at s' p).children ≡ true
      → (mem q (at s p).children ≡ true) × ((q == gone) ≡ false)
  child_kept p q m n i = elim (Bool-cases (p == (at s gone).parent)) [
    | inl home ↦
        let i' : mem q (list_del gone (at s p).children) ≡ true =
          ground (arith, r.children p m n) in
        elim (Bool-cases (q == gone)) [
          | inl same ↦
              let e : q ≡ gone = ==→eq q gone same in
              absurd
                (cc (i', e, mem-list_del_self gone (at s p).children (t.children_distinct p m)))
          | inr other ↦ (rw (mem-list_del_ne gone q (at s p).children other) at i', other)
        ]
    | inr away ↦
        let i' : mem q (at s p).children ≡ true = ground (arith, r.children p m n) in
        elim (Bool-cases (q == gone)) [
          | inl same ↦
              let e : q ≡ gone = ==→eq q gone same in
              let up : (at s gone).parent ≡ p =
                subst (λ x. (at s x).parent ≡ p) e (t.child_listed p q m i').1 in
              absurd (ground (arith, up, away))
          | inr other ↦ (i', other)
        ]
  ]

  sibling_kept :
      (q : Ptr)
      → mem q s.all_entries ≡ true
      → (q == gone) ≡ false
      → (q == s.root) ≡ false
      → mem q (at s' (at s q).parent).children ≡ true
  sibling_kept q m n top = ground (
    arith,
    r.children (at s q).parent (t.parent_listed q m) (home_stays q m),
    t.listed_child q m top,
    mem-list_del_ne gone q (at s (at s q).parent).children n,
  )

  Distinct-kept :
      (p : Ptr) → mem p s.all_entries ≡ true → (p == gone) ≡ false → Distinct (at s' p).children
  Distinct-kept p m n = rw (r.children p m n) (elim (Bool-cases (p == (at s gone).parent)) [
    | inl home ↦ rw home (list_del-Distinct gone (at s p).children (t.children_distinct p m))
    | inr away ↦ rw away (t.children_distinct p m)
  ])

  pub IsTree-Removes : IsTree s'
  IsTree-Removes = record {
    unlocked = r.unlocked;
    root_listed = rw r.root (stays s.root t.root_listed root_kept);
    root_dir = rw r.root (rw (r.mode s.root t.root_listed root_kept) t.root_dir);
    root_parent = rw r.root (r.parent s.root t.root_listed root_kept ∙ t.root_parent);
    live = Live-build s' s'.all_entries (λ q m.
        let (m', n) = kept q m in ((Live-mem s q s.all_entries t.live m').0, r.live q m' n));
    distinct = rw r.all_entries (list_del-Distinct gone s.all_entries t.distinct);
    older = rw r.all_entries (
        Older-same s s' (list_del gone s.all_entries) r.root
          (λ q m. let (m', n) = kept q (rw r.all_entries m) in r.parent q m' n)
          (Older-list_del s gone s.all_entries parent_stays t.older));
    parent_dir = λ p m.
        let (m', n) = kept p m in
        rw (r.parent p m' n) (
          rw (r.mode (at s p).parent (t.parent_listed p m') (home_stays p m')) (t.parent_dir p m'));
    parent_listed = parent_listed';
    child_listed = λ p q m i.
        let (m', n) = kept p m in
        let (i', k) = child_kept p q m' n i in
        let (mq, pq, rq) = t.child_listed p q m' i' in
        (stays q mq k, r.parent q mq k ∙ pq, rw r.root rq);
    listed_child = λ q m top.
        let (m', n) = kept q m in rw (r.parent q m' n) (sibling_kept q m' n (rw r.root at top));
    children_distinct = λ p m. let (m', n) = kept p m in Distinct-kept p m' n;
  }
