-- ===== src/Storage/Spec/Home.antt =====
-- What the specification sees of a directory and its children.
use vtfs.Base.{
  ◌≡◌, refl, ap, sym, ◌∙◌, inl, inr, true, false, none, some, [], ◌==◌, Bool-cases, ==→eq, ==_refl,
}
use mathlib.Core.Path.{subst}
use vtfs.Base.Lists.{mem}
use vtfs.Base.Strings.{Bytes, str_eq}
use vtfs.Storage.State.{Ptr, Store, is_dir}
use vtfs.Storage.Tree.{at, Live-mem}
use vtfs.Storage.Sound.{IsSound}
use vtfs.Storage.Spec.{Node, Unnamed}
use vtfs.Storage.Sound.Cases.{child-dir}
use vtfs.Storage.Spec.View.{node_of, view, view_listed, view-some}

module _ (s : Store) (sound : IsSound s) where
  -- Where no child of a directory has a name, no node in it has.
  pub children-Unnamed :
      (home : Ptr) (name : Bytes)
      → mem home s.all_entries ≡ true
      → ((q : Ptr) → mem q (at s home).children ≡ true → str_eq (at s q).name name ≡ false)
      → Unnamed (view s) home name
  children-Unnamed home name m unnamed q n shown inside away =
      let (listed, is) = view-some s q n shown in
      let there : (at s q).parent ≡ home = ap (λ (x : Node). x.parent) is ∙ inside in
      let not_root : (q == s.root) ≡ false = elim (Bool-cases (q == s.root)) [
        | inl same ↦
            let e : q ≡ s.root = ==→eq q s.root same in
            let here : q ≡ home =
              e ∙ (sym sound.tree.root_parent ∙ (ap (λ r. (at s r).parent) (sym e) ∙ there)) in
            let equal : (q == home) ≡ true = rw here (==_refl home) in absurd (cc (equal, away))
        | inr other ↦ other
      ] in
      let child : mem q (at s home).children ≡ true =
        subst (λ r. mem q (at s r).children ≡ true) there
          (sound.tree.listed_child q listed not_root) in
      ap (λ (x : Node). str_eq x.name name) (sym is) ∙ unnamed q child

  -- An address without an entry shows nothing.
  pub unused-view : (p : Ptr) → s.entry p ≡ none → view s p ≡ none
  unused-view p unused = elim (Bool-cases (mem p s.all_entries)) [
    | inl listed ↦ absurd (cc (unused, (Live-mem s p s.all_entries sound.tree.live listed).1))
    | inr other ↦ rw other refl
  ]

  -- A child is a node in the directory.
  pub child-shown :
      (home q : Ptr)
      → mem home s.all_entries ≡ true
      → mem q (at s home).children ≡ true
      → (view s q ≡ some (node_of s (at s q))) × ((at s q).parent ≡ home)
  child-shown home q m child =
      let (listed, there, not_root) = sound.tree.child_listed home q m child in
      (view_listed s q listed, there)

  -- What is no directory has no children.
  pub no_child :
      (p q : Ptr)
      → mem p s.all_entries ≡ true
      → is_dir (at s p).mode ≡ false
      → mem q (at s p).children ≡ false
  no_child p q m other = elim (Bool-cases (mem q (at s p).children)) [
    | inl child ↦ absurd (cc (child-dir s sound.tree p q m child, other))
    | inr none_there ↦ none_there
  ]

  -- An entry other than the root without children is the directory of no node.
  pub childless-Unused :
      (p : Ptr)
      → mem p s.all_entries ≡ true
      → (p == s.root) ≡ false
      → (at s p).children ≡ []
      → (q : Ptr) (n : Node) → view s q ≡ some n
      → (n.parent == p) ≡ false
  childless-Unused p m not_root childless q n shown =
      let (listed, is) = view-some s q n shown in
      let there : (at s q).parent ≡ n.parent = ap (λ (x : Node). x.parent) is in
      elim (Bool-cases (n.parent == p)) [
        | inr other ↦ other
        | inl same ↦
            let home : (at s q).parent ≡ p = there ∙ ==→eq n.parent p same in
            elim (Bool-cases (q == s.root)) [
              | inl root ↦
                  let e : q ≡ s.root = ==→eq q s.root root in
                  let own : s.root ≡ p =
                    sym sound.tree.root_parent ∙ (ap (λ r. (at s r).parent) (sym e) ∙ home) in
                  let equal : (p == s.root) ≡ true = rw own (==_refl p) in
                  absurd (cc (equal, not_root))
              | inr away ↦
                  let child : mem q (at s p).children ≡ true =
                    subst (λ r. mem q (at s r).children ≡ true) home
                      (sound.tree.listed_child q listed away) in
                  let no_child : mem q (at s p).children ≡ false = rw childless refl in
                  absurd (cc (child, no_child))
            ]
      ]
