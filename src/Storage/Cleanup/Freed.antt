-- ===== src/Storage/Cleanup/Freed.antt =====
-- What `free_entries_recursive` frees.
use vtfs.Base.{
  ℕ, zero, suc, ◌+◌, ◌≤◌, ◌≡◌, refl, ap, ◌∙◌, true, some, List, [], ◌∷◌, arith, if◌then◌else◌,
  Bool-cases, inl, inr,
}
use vtfs.Base.Lists.{length, mem}
use vtfs.Storage.State.{Ptr, Store, pure, is_dir}
use vtfs.Storage.Tree.{at, Live-mem, IsTree}
use vtfs.Storage.Cleanup.{free_children}
use vtfs.Storage.Cleanup.Elders.{elders, length-elders}
use vtfs.Storage.Cleanup.Shrunk.{free_lock, Owned, Shrunk-refl, Freed}
use vtfs.Storage.Cleanup.Step.{removed-IsTree, removed-Owned}
use vtfs.Storage.Cleanup.Round.{
  no_children, child_facts, deeper, still_listed, children_after, enough, and_rest, not_root, below,
  childless, round, s1,
}

-- A directory without children is as it is to be.
Freed-refl :
    (s : Store) (dir : Ptr)
    → IsTree (free_lock s)
    → Owned s
    → mem dir s.all_entries ≡ true
    → (at s dir).children ≡ []
    → Freed s dir s
Freed-refl s dir t o m childless = record {
  shrunk = Shrunk-refl s;
  tree = t;
  owned = o;
  dir_entry =
      (Live-mem (free_lock s) dir s.all_entries t.live m).1
      ∙ ap (λ (l : List Ptr). some (record (at s dir) { children = l })) childless;
  dir_listed = m;
  older = refl;
  same = λ q i n. refl;
  shorter = omega arith;
}

abbrev Frees : (fuel : ℕ) → (dir : Ptr) → List Ptr → Store → Type 0
Frees fuel dir cs s = (s' : Store) × (free_children fuel dir cs s ≡ some (tt, s')) × Freed s dir s'

no_more : (fuel : ℕ) (dir : Ptr) (s : Store) → free_children fuel dir [] s ≡ some (tt, s)
unfolding free_children
no_more zero dir s = refl
no_more (suc fuel) dir s = refl

-- The loop over the children of a listed directory ends on fuel for the entries that are not older
-- than the directory, and frees what is below it.
pub free_children-Freed :
    (fuel : ℕ) (s : Store) (dir : Ptr) (cs : List Ptr)
    → IsTree (free_lock s)
    → Owned s
    → mem dir s.all_entries ≡ true
    → (at s dir).children ≡ cs
    → length s.all_entries ≤ fuel + length (elders dir s.all_entries)
    → Frees fuel dir cs s
free_children-Freed fuel s dir [] t o m chain le =
    (s, no_more fuel dir s, Freed-refl s dir t o m chain)
free_children-Freed zero s dir (c ∷ rest) t o m chain le =
    absurd (omega (arith, length-elders dir s.all_entries m))
free_children-Freed (suc fuel) s dir (c ∷ rest) t o m chain le =
    let (i, up, top) = child_facts s dir c rest t m chain in
    let first : (s0 : Store) × ((if is_dir (at s c).mode
              then free_children fuel c (at s c).children
              else pure tt)
            s
          ≡ some (tt, s0))
        × Freed s c s0 =
      elim (Bool-cases (is_dir (at s c).mode)) [
        | inl folder ↦
            let (s0, run, f) =
              free_children-Freed fuel s c (at s c).children t o i refl
                (deeper s dir c rest t m chain fuel le) in
            (s0, rw folder run, f)
        | inr file ↦ (
          s,
          rw file refl,
          Freed-refl s c t o i (no_children s c (at s c).children t i file refl),
        )
      ] in
    let (s0, run, f) = first in
    let top0 = not_root s dir c rest t m chain s0 f in
    let up0 = below s dir c rest t m chain s0 f in
    let empty0 = childless s dir c rest t m chain s0 f in
    let (s', run', g) =
      free_children-Freed fuel (s1 s dir c rest t m chain s0 f) dir rest
        (removed-IsTree s0 dir c f.tree f.owned f.dir_listed top0 up0 empty0)
        (removed-Owned s0 dir c f.tree f.owned f.dir_listed top0 up0 empty0)
        (still_listed s dir c rest t m chain s0 f) (children_after s dir c rest t m chain s0 f)
        (enough s dir c rest t m chain s0 f fuel le) in
    (
      s',
      round s s0 fuel dir c rest t m chain f run ∙ run',
      and_rest s dir c rest t m chain s0 f s' g,
    )
