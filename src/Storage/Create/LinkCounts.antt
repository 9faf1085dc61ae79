-- ===== src/Storage/Create/LinkCounts.antt =====
-- The link counts of files, as a creation leaves them.
use vtfs.Base.{
  ℕ, ◌+◌, ◌%◌, ◌^◌, ◌<◌, ◌≡◌, refl, sym, ap, ◌∙◌, Bool, true, false, none, some, List, [], ◌∷◌,
  ◌==◌, ==→eq, ==_refl, arith, if◌then◌else◌, Bool-cases, inl, inr,
}
use mathlib.Core.Path.{subst}
use vtfs.Base.Lists.{mem}
use vtfs.Base.Strings.{Bytes, str_eq}
use vtfs.Storage.State.{Ptr, Entry, Store, Env, is_dir}
use vtfs.Storage.Tree.{entry_or_missing, at, IsTree, Live-mem}
use vtfs.Storage.Create.{blank, create_entry_internal}
use vtfs.Storage.Create.Link.{with_child}
use vtfs.Storage.Create.Made.{Made, create-Made}
use vtfs.Storage.Remove.Links.{links, links-same}
use vtfs.Storage.Remove.LinkCounts.{CountsLinks, IsNumbered}

-- A number above all that are in use has no links.
links_none :
    (s : Store) (ino : ℕ) (ps : List Ptr)
    → ((q : Ptr) → mem q ps ≡ true → (at s q).ino < ino)
    → links s ino ps ≡ 0
links_none s ino [] below = refl
links_none s ino (p ∷ ps) below =
    let lower : (at s p).ino < ino = below p (rw (==_refl p) refl) in
    let other : ((at s p).ino == ino) ≡ false = ground arith in
    rw other (let rest = links_none s ino ps (λ q i. below q (ground arith)) in omega (arith, rest))

module _ (env : Env) (s : Store) (home : Ptr) (name : Bytes) (mode : ℕ) (skip_sync : Bool)
    (t : IsTree s) (m : mem home s.all_entries ≡ true) (dir : is_dir (at s home).mode ≡ true)
    (none_named : (q : Ptr) → mem q (at s home).children ≡ true → str_eq (at s q).name name ≡ false)
    (got : (env.new_entry == 0) ≡ false) (unused : s.entry env.new_entry ≡ none) (c : CountsLinks s)
    (b : IsNumbered s) (more : s.next_ino + 1 < 2 ^ 64) where
  abbrev new : Ptr
  new = env.new_entry

  abbrev made : Entry
  made = record (blank name mode s.next_ino env.now) { parent = home }

  abbrev kept : Ptr → Entry
  kept q = if q == home then with_child new mode (at s q) else at s q

  kept_ino : (q : Ptr) → (kept q).ino ≡ (at s q).ino
  kept_ino q = ground arith

  kept_mode : (q : Ptr) → (kept q).mode ≡ (at s q).mode
  kept_mode q = ground arith

  -- A file is not the new entry's directory.
  kept_nlink : (q : Ptr) → is_dir (at s q).mode ≡ false → (kept q).nlink ≡ (at s q).nlink
  kept_nlink q file = elim (Bool-cases (q == home)) [
    | inl same ↦
        let a_dir : is_dir (at s q).mode ≡ true = rw (==→eq q home same) dir in
        absurd (cc (file, a_dir))
    | inr other ↦ rw other refl
  ]

  not_new : (q : Ptr) → mem q s.all_entries ≡ true → (q == new) ≡ false
  not_new q i = elim (Bool-cases (q == new)) [
    | inl same ↦
        let e : s.entry q ≡ none = ap s.entry (==→eq q new same) ∙ unused in
        absurd (cc (e, (Live-mem s q s.all_entries t.live i).1))
    | inr other ↦ other
  ]

  module _ (s' : Store) (d : Made env s home name mode 0 skip_sync s') where
    at_new : at s' new ≡ made
    at_new = ap entry_or_missing d.new_entry

    now : (q : Ptr) → mem q s.all_entries ≡ true → at s' q ≡ kept q
    now q i = elim (Bool-cases (q == home)) [
      | inl same ↦ rw same (
          subst (λ r. at s' r ≡ with_child new mode (at s r)) (sym (==→eq q home same))
            (ap entry_or_missing d.home_entry))
      | inr other ↦ rw other (ap entry_or_missing (d.others q other (not_new q i)))
    ]

    was_listed :
        (q : Ptr) → (q == new) ≡ false → mem q s'.all_entries ≡ true → mem q s.all_entries ≡ true
    was_listed q other i =
        let listed : mem q (new ∷ s.all_entries) ≡ true = rw d.all_entries at i in
        ground (arith, listed, other)

    links_now :
        (k : ℕ)
        → links s' k s'.all_entries ≡ (if s.next_ino == k then 1 else 0) + links s k s.all_entries
    links_now k =
        let rest : links s' k s.all_entries ≡ links s k s.all_entries =
          links-same k s s' s.all_entries
            (λ q i. ap (λ (e : Entry). e.ino) (now q i) ∙ kept_ino q) in
        let number : (at s' new).ino ≡ s.next_ino = ap (λ (e : Entry). e.ino) at_new in
        ap (links s' k) d.all_entries ∙ rw number (rw rest refl)

    links_new : links s' s.next_ino s'.all_entries ≡ 1
    links_new =
        let unused_number = links_none s s.next_ino s.all_entries b in
        links_now s.next_ino ∙ rw (==_refl s.next_ino) (rw unused_number refl)

    links_old :
        (q : Ptr)
        → mem q s.all_entries ≡ true
        → links s' (at s q).ino s'.all_entries ≡ links s (at s q).ino s.all_entries
    links_old q i =
        let below = b q i in
        let other : (s.next_ino == (at s q).ino) ≡ false = ground (arith, below) in
        let zero_more : 0 + links s (at s q).ino s.all_entries
            ≡ links s (at s q).ino s.all_entries =
          omega arith in
        links_now (at s q).ino ∙ rw other zero_more

    Made-CountsLinks : CountsLinks s'
    Made-CountsLinks q i file = elim (Bool-cases (q == new)) [
      | inl same ↦
          subst (λ r. (at s' r).nlink ≡ links s' (at s' r).ino s'.all_entries % 2 ^ 32)
            (sym (==→eq q new same))
            (ap (λ (x : Entry). x.nlink) at_new
              ∙ ap (λ (k : ℕ). k % 2 ^ 32) (sym links_new)
              ∙ ap (λ (x : Entry). links s' x.ino s'.all_entries % 2 ^ 32) (sym at_new))
      | inr other ↦
          let i' = was_listed q other i in
          let e = now q i' in
          let file' : is_dir (at s q).mode ≡ false =
            ap is_dir (sym (kept_mode q)) ∙ ap (λ (x : Entry). is_dir x.mode) (sym e) ∙ file in
          let ino' : (at s' q).ino ≡ (at s q).ino = ap (λ (x : Entry). x.ino) e ∙ kept_ino q in
          ap (λ (x : Entry). x.nlink) e
          ∙ kept_nlink q file'
          ∙ c q i' file'
          ∙ ap (λ (k : ℕ). k % 2 ^ 32) (sym (links_old q i'))
          ∙ ap (λ (k : ℕ). links s' k s'.all_entries % 2 ^ 32) (sym ino')
    ]

    Made-IsNumbered : IsNumbered s'
    Made-IsNumbered q i =
        let next : s'.next_ino ≡ s.next_ino + 1 = d.next_ino ∙ omega (arith, more) in
        elim (Bool-cases (q == new)) [
          | inl same ↦
              let number : (at s' q).ino ≡ s.next_ino =
                ap (λ r. (at s' r).ino) (==→eq q new same) ∙ ap (λ (x : Entry). x.ino) at_new in
              omega arith
          | inr other ↦
              let i' = was_listed q other i in
              let number : (at s' q).ino ≡ (at s q).ino =
                ap (λ (x : Entry). x.ino) (now q i') ∙ kept_ino q in
              let below = b q i' in omega arith
        ]

  -- In a well-formed storage where every file counts its links and the inode numbers are below the
  -- next one, which is not the last, for a listed directory without a child of the name, and an
  -- address that no entry has: the creation of an entry with a number of its own returns it without
  -- a fault, and again every file counts its links, and the inode numbers are below the next one.
  pub create-CountsLinks :
      (s' : Store) × (create_entry_internal env home name mode 0 skip_sync s ≡ some (new, s'))
      × IsTree s'
      × CountsLinks s'
      × IsNumbered s'
  create-CountsLinks =
      let (s', run, d) =
        create-Made env s home name mode 0 skip_sync t m dir none_named got unused in
      (s', run, d.tree, Made-CountsLinks s' d, Made-IsNumbered s' d)
