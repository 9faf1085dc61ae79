-- ===== src/Storage/Cleanup/Elders.antt =====
-- Which entries of the chain of all entries stand behind one: those that are older than it.
use vtfs.Base.{
  ◌+◌, ◌<◌, ◌≡◌, refl, true, false, List, [], ◌∷◌, ◌==◌, arith, if◌then◌else◌, Bool-cases, ==→eq,
  ==_refl, inl, inr,
}
use vtfs.Base.Lists.{length, mem, list_del, Distinct, listed_differs}
use mathlib.Core.Path.{subst}
use vtfs.Storage.State.{Ptr, Store}
use vtfs.Storage.Tree.{at, Older}

unfoldable pub elders : Ptr → List Ptr → List Ptr
elders q [] = []
elders q (p ∷ ps) = if p == q then ps else elders q ps

pub mem-elders : (q r : Ptr) (ps : List Ptr) → mem r (elders q ps) ≡ true → mem r ps ≡ true
unfolding elders
mem-elders q r [] m = m
mem-elders q r (p ∷ ps) m = elim (Bool-cases (p == q)) [
  | inl same ↦ let m' : mem r ps ≡ true = rw same at m in ground arith
  | inr other ↦
      let m' : mem r (elders q ps) ≡ true = rw other at m in ground (arith, mem-elders q r ps m')
]

pub length-elders : (q : Ptr) (ps : List Ptr) → mem q ps ≡ true → length (elders q ps) < length ps
unfolding elders
length-elders q [] m = absurd (cc m)
length-elders q (p ∷ ps) m = elim (Bool-cases (p == q)) [
  | inl same ↦ rw same (omega arith)
  | inr other ↦
      let m' : mem q ps ≡ true = ground arith in rw other (omega (arith, length-elders q ps m'))
]

mem-elders_later :
    (c dir p : Ptr) (ps : List Ptr) → mem dir (elders c (p ∷ ps)) ≡ true → mem dir ps ≡ true
unfolding elders
mem-elders_later c dir p ps m = elim (Bool-cases (p == c)) [
  | inl same ↦ rw same at m
  | inr other ↦ mem-elders c dir ps (rw other at m)
]

-- In a chain that lists each entry once, what is older than an elder of `c` is older than it.
pub elders-elders :
    (c dir : Ptr) (ps : List Ptr)
    → Distinct ps
    → mem dir (elders c ps) ≡ true
    → elders dir ps ≡ elders dir (elders c ps)
unfolding elders
elders-elders c dir [] d m = refl
elders-elders c dir (p ∷ ps) (out, d) m =
    let other = listed_differs p dir ps out (mem-elders_later c dir p ps m) in
    elim (Bool-cases (p == c)) [
      | inl same ↦ rw other (rw same refl)
      | inr differs ↦ rw other (rw differs (elders-elders c dir ps d (rw differs at m)))
    ]

pub elders-list_del :
    (c dir : Ptr) (ps : List Ptr)
    → Distinct ps
    → mem dir (elders c ps) ≡ true
    → elders dir (list_del c ps) ≡ elders dir ps
unfolding elders
elders-list_del c dir [] d m = refl
elders-list_del c dir (p ∷ ps) (out, d) m =
    let other = listed_differs p dir ps out (mem-elders_later c dir p ps m) in
    elim (Bool-cases (p == c)) [
      | inl same ↦
          let e : p ≡ c = ==→eq p c same in
          let here : (c == p) ≡ true = rw e (==_refl c) in rw here (rw other refl)
      | inr differs ↦
          let there : (c == p) ≡ false = ground arith in
          rw there (rw other (elders-list_del c dir ps d (rw differs at m)))
    ]

pub length-list_del :
    (c : Ptr) (ps : List Ptr) → mem c ps ≡ true → length (list_del c ps) + 1 ≡ length ps
length-list_del c [] m = absurd (cc m)
length-list_del c (p ∷ ps) m = elim (Bool-cases (c == p)) [
  | inl same ↦ rw same (omega arith)
  | inr other ↦
      let m' : mem c ps ≡ true = rw other at m in rw other (omega (arith, length-list_del c ps m'))
]

-- A parent is older than its children.
pub parent-elder :
    (s : Store) (c : Ptr) (ps : List Ptr)
    → Older s ps
    → mem c ps ≡ true
    → (c == s.root) ≡ false
    → mem (at s c).parent (elders c ps) ≡ true
unfolding elders
parent-elder s c [] o m n = cc m
parent-elder s c (p ∷ ps) (op, o) m n = elim (Bool-cases (p == c)) [
  | inl same ↦
      let e : p ≡ c = ==→eq p c same in
      let up : mem (at s p).parent ps ≡ true = ground (arith, n, op, e) in
      rw same (subst (λ r. mem (at s r).parent ps ≡ true) e up)
  | inr differs ↦
      let m' : mem c ps ≡ true = ground (arith, m, differs) in
      rw differs (parent-elder s c ps o m' n)
]

pub elder-apart :
    (c dir : Ptr) (ps : List Ptr) → Distinct ps → mem dir (elders c ps) ≡ true → (dir == c) ≡ false
unfolding elders
elder-apart c dir [] d m = absurd (cc m)
elder-apart c dir (p ∷ ps) (out, d) m = elim (Bool-cases (p == c)) [
  | inl same ↦
      let other = listed_differs p dir ps out (rw same at m) in
      let e : p ≡ c = ==→eq p c same in ground arith
  | inr differs ↦ elder-apart c dir ps d (rw differs at m)
]
