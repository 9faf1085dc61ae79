-- ===== src/Storage/Tree/Marked.antt =====
-- The entries of a chain with an inode number are written, the others stay.
use vtfs.Base.{
  ◌≡◌, true, false, ◌&&◌, some, List, ◌∷◌, ◌==◌, arith, inl, inr, Bool-cases, ==→eq, if◌then◌else◌,
  sym, ap, ◌∙◌, ℕ,
}
use mathlib.Core.Path.{subst}
use vtfs.Base.Lists.{mem}
use vtfs.Storage.State.{Ptr, Entry, Store, put_entry}
use vtfs.Storage.Tree.{entry_or_missing, at, Live, Live-mem}
use vtfs.Storage.Tree.Shape.{Live-build}

pub record Marked (f : Entry → Entry) (ino : ℕ) (ps : List Ptr) (s s' : Store) : Type 0 where
  pub entry :
      (q : Ptr)
      → s'.entry q ≡ (if mem q ps && ((at s q).ino == ino) then some (f (at s q)) else s.entry q)
  pub rest : s' ≡ record s { entry = s'.entry }

module _ (f : Entry → Entry) (ino : ℕ) where
  -- one entry of the chain is written
  module _ (s : Store) (p : Ptr) (ps : List Ptr) (live : Live s ps) (out : mem p ps ≡ false)
      (ep : s.entry p ≡ some (at s p)) (hit : ((at s p).ino == ino) ≡ true) where
    abbrev pub stepped : Store
    stepped = put_entry p (some (f (at s p))) s

    stepped_other : (q : Ptr) → (q == p) ≡ false → stepped.entry q ≡ s.entry q
    stepped_other q n = rw n

    not_p : (q : Ptr) → mem q ps ≡ true → (q == p) ≡ false
    not_p q m = elim (Bool-cases (q == p)) [
      | inl same ↦ let e : q ≡ p = ==→eq q p same in absurd (cc (m, e, out))
      | inr other ↦ other
    ]

    pub stepped-Live : Live stepped ps
    stepped-Live = Live-build stepped ps (λ q m.
        let o = stepped_other q (not_p q m) in
        let (q0, eq) = Live-mem s q ps live m in
        (q0, o ∙ eq ∙ ap some (sym (ap entry_or_missing o))))

    pub stepped-Marked : (s' : Store) → Marked f ino ps stepped s' → Marked f ino (p ∷ ps) s s'
    stepped-Marked s' d = record {
      entry = λ q. elim (Bool-cases (q == p)) [
        | inl same ↦ subst Want (sym (==→eq q p same)) (ground (arith, d.entry p))
        | inr other ↦
            ground
              (arith, d.entry q, stepped_other q other, ap entry_or_missing (stepped_other q other))
      ];
      rest = d.rest;
    }
      where
        Want : Ptr → Type 0
        Want q =
            s'.entry q
            ≡ (if mem q (p ∷ ps) && ((at s q).ino == ino) then some (f (at s q)) else s.entry q)

    pub stepped-ino : (q : Ptr) → mem q ps ≡ true → (at stepped q).ino ≡ (at s q).ino
    stepped-ino q m = ap (λ (e : Entry). e.ino) (ap entry_or_missing (stepped_other q (not_p q m)))
