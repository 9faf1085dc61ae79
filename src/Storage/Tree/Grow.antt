-- ===== src/Storage/Tree/Grow.antt =====
-- A new entry that is linked in front of its parent's children and of all entries keeps the tree.
use vtfs.Base.{
  ◌≡◌, true, false, none, some, [], ◌∷◌, ◌==◌, arith, sym, ◌∙◌, inl, inr, Bool-cases, ==→eq,
  if◌then◌else◌,
}
use vtfs.Base.Lists.{mem, Distinct}
use mathlib.Core.Path.{subst}
use vtfs.Storage.State.{Ptr, Store, is_dir}
use vtfs.Storage.Tree.{at, Live-mem, IsTree}
use vtfs.Storage.Tree.Shape.{Live-build, Older-same}

pub record Adds (s s' : Store) (fresh home : Ptr) : Type 0 where
  pub fresh0 : (fresh == 0) ≡ false
  pub absent : s.entry fresh ≡ none
  pub home_listed : mem home s.all_entries ≡ true
  pub home_dir : is_dir (at s home).mode ≡ true
  pub unlocked : s'.locked ≡ false
  pub root : s'.root ≡ s.root
  pub all_entries : s'.all_entries ≡ fresh ∷ s.all_entries
  pub live_new : s'.entry fresh ≡ some (at s' fresh)
  pub parent_new : (at s' fresh).parent ≡ home
  pub children_new : (at s' fresh).children ≡ []
  pub live : (q : Ptr) → mem q s.all_entries ≡ true → s'.entry q ≡ some (at s' q)
  pub mode : (q : Ptr) → mem q s.all_entries ≡ true → (at s' q).mode ≡ (at s q).mode
  pub parent : (q : Ptr) → mem q s.all_entries ≡ true → (at s' q).parent ≡ (at s q).parent
  pub children :
      (q : Ptr)
      → mem q s.all_entries ≡ true
      → (at s' q).children ≡ (if q == home then fresh ∷ (at s q).children else (at s q).children)

module _ (s s' : Store) (fresh home : Ptr) (t : IsTree s) (a : Adds s s' fresh home) where
  not_listed : mem fresh s.all_entries ≡ false
  not_listed = elim (Bool-cases (mem fresh s.all_entries)) [
    | inl m ↦ absurd (cc (a.absent, (Live-mem s fresh s.all_entries t.live m).1))
    | inr n ↦ n
  ]

  -- A listed entry is the new one or an old one.
  by_entry :
      (P : Ptr → Type 0)
      → P fresh
      → ((q : Ptr) → mem q s.all_entries ≡ true → P q)
      → (q : Ptr) → mem q s'.all_entries ≡ true
      → P q
  by_entry P new old q m = elim (Bool-cases (q == fresh)) [
    | inl same ↦ subst P (sym (==→eq q fresh same)) new
    | inr other ↦
        let m' : mem q (fresh ∷ s.all_entries) ≡ true = rw a.all_entries at m in
        old q (ground arith)
  ]

  listed : (q : Ptr) → mem q s.all_entries ≡ true → mem q s'.all_entries ≡ true
  listed q m = rw a.all_entries (ground arith)

  new_listed : mem fresh s'.all_entries ≡ true
  new_listed = rw a.all_entries (ground arith)

  not_root : (fresh == s.root) ≡ false
  not_root = elim (Bool-cases (fresh == s.root)) [
    | inl same ↦
        let e : fresh ≡ s.root = ==→eq fresh s.root same in cc (not_listed, e, t.root_listed)
    | inr other ↦ other
  ]

  new_child :
      (p q : Ptr)
      → mem p s.all_entries ≡ true
      → mem q (at s' p).children ≡ true
      → (mem q s'.all_entries ≡ true) × ((at s' q).parent ≡ p) × ((q == s.root) ≡ false)
  new_child p q m i = elim (Bool-cases (p == home)) [
    | inl at_home ↦ elim (Bool-cases (q == fresh)) [
      | inl same ↦
          subst
            (λ r. (mem r s'.all_entries ≡ true) × ((at s' r).parent ≡ p) × ((r == s.root) ≡ false))
            (sym (==→eq q fresh same))
            (new_listed, a.parent_new ∙ sym (==→eq p home at_home), not_root)
      | inr other ↦
          let i' : mem q (at s p).children ≡ true = ground (arith, a.children p m) in
          let (mq, pq, rq) = t.child_listed p q m i' in (listed q mq, a.parent q mq ∙ pq, rq)
    ]
    | inr away ↦
        let i' : mem q (at s p).children ≡ true = ground (arith, a.children p m) in
        let (mq, pq, rq) = t.child_listed p q m i' in (listed q mq, a.parent q mq ∙ pq, rq)
  ]

  kept_child :
      (q : Ptr)
      → mem q s.all_entries ≡ true
      → (q == s.root) ≡ false
      → mem q (at s' (at s q).parent).children ≡ true
  kept_child q m n =
      ground (arith, a.children (at s q).parent (t.parent_listed q m), t.listed_child q m n)

  not_child : (p : Ptr) → mem p s.all_entries ≡ true → mem fresh (at s p).children ≡ false
  not_child p m = elim (Bool-cases (mem fresh (at s p).children)) [
    | inl i ↦ cc (not_listed, (t.child_listed p fresh m i).0)
    | inr n ↦ n
  ]

  Distinct-children : (p : Ptr) → mem p s.all_entries ≡ true → Distinct (at s' p).children
  Distinct-children p m = rw (a.children p m) (elim (Bool-cases (p == home)) [
    | inl at_home ↦ rw at_home (not_child p m, t.children_distinct p m)
    | inr away ↦ rw away (t.children_distinct p m)
  ])

  pub IsTree-Adds : IsTree s'
  IsTree-Adds = record {
    unlocked = a.unlocked;
    root_listed = rw a.root (listed s.root t.root_listed);
    root_dir = rw a.root (rw (a.mode s.root t.root_listed) t.root_dir);
    root_parent = rw a.root (a.parent s.root t.root_listed ∙ t.root_parent);
    live = Live-build s' s'.all_entries (
        by_entry _ (a.fresh0, a.live_new)
          (λ q m. ((Live-mem s q s.all_entries t.live m).0, a.live q m)));
    distinct = rw a.all_entries (not_listed, t.distinct);
    older = rw a.all_entries (
      ground (arith, a.parent_new, a.home_listed),
      Older-same s s' s.all_entries a.root a.parent t.older,
    );
    parent_dir = by_entry _ (rw a.parent_new (rw (a.mode home a.home_listed) a.home_dir)) (λ q m.
        rw (a.parent q m) (rw (a.mode (at s q).parent (t.parent_listed q m)) (t.parent_dir q m)));
    parent_listed =
        by_entry _ (rw a.parent_new (listed home a.home_listed))
          (λ q m. rw (a.parent q m) (listed (at s q).parent (t.parent_listed q m)));
    child_listed = λ p q m i. rw a.root (
        by_entry
          (λ r.
            mem q (at s' r).children ≡ true
            → (mem q s'.all_entries ≡ true) × ((at s' q).parent ≡ r) × ((q == s.root) ≡ false))
          (λ i'. absurd (let z : mem q [] ≡ true = rw a.children_new at i' in cc))
          (λ r m' i'. new_child r q m' i') p m i);
    listed_child = λ q m n.
        by_entry (λ r. (r == s.root) ≡ false → mem r (at s' (at s' r).parent).children ≡ true)
          (λ n'. rw a.parent_new (rw (a.children home a.home_listed) (ground arith)))
          (λ r m' n'. rw (a.parent r m') (kept_child r m' n')) q m (rw a.root at n);
    children_distinct = by_entry _ (rw a.children_new tt) Distinct-children;
  }
