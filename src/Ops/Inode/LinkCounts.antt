-- ===== src/Ops/Inode/LinkCounts.antt =====
-- The link counts of files, as `vtfs_link` leaves them.
use vtfs.Base.{
  ℕ, ◌+◌, ◌%◌, ◌^◌, ◌≡◌, refl, sym, ap, ◌∙◌, true, false, none, some, [], ◌∷◌, ◌==◌, ==→eq, ==_refl,
  arith, if◌then◌else◌, Bool-cases, inl, inr,
}
use mathlib.Core.Path.{subst}
use vtfs.Base.Int.{pos}
use vtfs.Base.Lists.{mem}
use vtfs.Base.Strings.{Bytes, str_eq}
use vtfs.Storage.State.{Ptr, Entry, Store, Env, is_dir}
use vtfs.Storage.Tree.{entry_or_missing, at, IsTree}
use vtfs.Storage.Search.First.{first, has_ino}
use vtfs.Storage.Remove.Links.{links, links-same}
use vtfs.Storage.Remove.LinkCounts.{CountsLinks, IsNumbered}
use vtfs.Ops.Inode.{inc_nlink, ihold, touch, d_instantiate, vtfs_link}
use vtfs.Ops.Inode.Link.{link, kept, recount, Linked, vtfs_link-Linked}

module _ (env : Env) (s : Store) (target home : Ptr) (ino parent_ino : ℕ) (name : Bytes)
    (t : IsTree s) (mt : mem target s.all_entries ≡ true)
    (no_dir : is_dir (at s target).mode ≡ false) (numbered : ((at s target).ino == 0) ≡ false)
    (target_found : first (has_ino s ino) s.all_entries ≡ target)
    (m : mem home s.all_entries ≡ true) (dir : is_dir (at s home).mode ≡ true)
    (home_found : first (has_ino s parent_ino) s.all_entries ≡ home)
    (none_named : (q : Ptr) → mem q (at s home).children ≡ true → str_eq (at s q).name name ≡ false)
    (got : (env.new_entry == 0) ≡ false) (unused : s.entry env.new_entry ≡ none) (c : CountsLinks s)
    (b : IsNumbered s) where
  abbrev old : Entry
  old = at s target

  abbrev new : Ptr
  new = env.new_entry

  abbrev AfterLink : Store → Type 0
  AfterLink s' =
      Linked env s target home ino parent_ino name t mt no_dir numbered target_found m dir
        home_found none_named got unused s'

  abbrev with_link : Ptr → Entry
  with_link q =
      kept env s target home ino parent_ino name t mt no_dir numbered target_found m dir home_found
        none_named got unused q

  abbrev raised : Entry → Entry
  raised e =
      recount env s target home ino parent_ino name t mt no_dir numbered target_found m dir
        home_found none_named got unused e old

  raised_ino : (q : Ptr) → (raised (with_link q)).ino ≡ (at s q).ino
  raised_ino q = ground arith

  raised_mode : (q : Ptr) → (raised (with_link q)).mode ≡ (at s q).mode
  raised_mode q = ground arith

  raised_nlink :
      (q : Ptr)
      → (raised (with_link q)).nlink
        ≡ (if (at s q).ino == old.ino then (old.nlink + 1) % 2 ^ 32 else (at s q).nlink)
  raised_nlink q = ground (arith, no_dir)

  one_more : (n : ℕ) → (n % 2 ^ 32 + 1) % 2 ^ 32 ≡ (1 + n) % 2 ^ 32
  one_more n = omega arith

  module _ (s' : Store) (l : AfterLink s') where
    at_new :
        at s' new
        ≡ record (link env s target home ino parent_ino name t mt no_dir numbered target_found m dir
            home_found none_named got unused) { nlink = (old.nlink + 1) % 2 ^ 32 }
    at_new = ap entry_or_missing l.entry

    now : (q : Ptr) → mem q s.all_entries ≡ true → at s' q ≡ raised (with_link q)
    now q i = ap entry_or_missing (l.listed q i)

    -- the links to an inode when the link has been made
    links_now :
        (k : ℕ)
        → links s' k s'.all_entries ≡ (if old.ino == k then 1 else 0) + links s k s.all_entries
    links_now k =
        let rest : links s' k s.all_entries ≡ links s k s.all_entries =
          links-same k s s' s.all_entries
            (λ q i. ap (λ (e : Entry). e.ino) (now q i) ∙ raised_ino q) in
        let number : (at s' new).ino ≡ old.ino = ap (λ (e : Entry). e.ino) at_new in
        ap (links s' k) l.all_entries ∙ rw number (rw rest refl)

    of_inode :
        (k : ℕ)
        → (old.ino == k) ≡ true
        → (old.nlink + 1) % 2 ^ 32 ≡ links s' k s'.all_entries % 2 ^ 32
    of_inode k hit =
        let e : old.ino ≡ k = ==→eq old.ino k hit in
        let total : links s' k s'.all_entries ≡ 1 + links s k s.all_entries =
          links_now k ∙ rw hit refl in
        let before : old.nlink ≡ links s k s.all_entries % 2 ^ 32 =
          c target mt no_dir ∙ ap (λ (k : ℕ). links s k s.all_entries % 2 ^ 32) e in
        ap (λ (n : ℕ). (n + 1) % 2 ^ 32) before
        ∙ one_more (links s k s.all_entries)
        ∙ ap (λ (n : ℕ). n % 2 ^ 32) (sym total)

    -- a file that was there
    of_listed :
        (q : Ptr)
        → mem q s.all_entries ≡ true
        → is_dir (at s q).mode ≡ false
        → (if (at s q).ino == old.ino then (old.nlink + 1) % 2 ^ 32 else (at s q).nlink)
          ≡ links s' (at s q).ino s'.all_entries % 2 ^ 32
    of_listed q i file = elim (Bool-cases ((at s q).ino == old.ino)) [
      | inl hit ↦ rw hit (of_inode (at s q).ino (ground (arith, hit)))
      | inr miss ↦
          let apart : (old.ino == (at s q).ino) ≡ false = ground (arith, miss) in
          let n = links s (at s q).ino s.all_entries in
          let total : links s' (at s q).ino s'.all_entries ≡ 0 + n =
            links_now (at s q).ino ∙ rw apart refl in
          let alone : 0 + n ≡ n = omega arith in
          rw miss (c q i file ∙ ap (λ (k : ℕ). k % 2 ^ 32) (sym (total ∙ alone)))
    ]

    Linked-CountsLinks : CountsLinks s'
    Linked-CountsLinks q i file = elim (Bool-cases (q == new)) [
      | inl same ↦
          let e : q ≡ new = ==→eq q new same in
          subst (λ r. (at s' r).nlink ≡ links s' (at s' r).ino s'.all_entries % 2 ^ 32) (sym e)
            (ap (λ (x : Entry). x.nlink) at_new
              ∙ of_inode old.ino (==_refl old.ino)
              ∙ ap (λ (x : Entry). links s' x.ino s'.all_entries % 2 ^ 32) (sym at_new))
      | inr other ↦
          let listed : mem q (new ∷ s.all_entries) ≡ true = rw l.all_entries at i in
          let i' : mem q s.all_entries ≡ true = ground (arith, listed, other) in
          let e = now q i' in
          let file' : is_dir (at s q).mode ≡ false =
            ap is_dir (sym (raised_mode q)) ∙ ap (λ (x : Entry). is_dir x.mode) (sym e) ∙ file in
          let ino' : (at s' q).ino ≡ (at s q).ino = ap (λ (x : Entry). x.ino) e ∙ raised_ino q in
          ap (λ (x : Entry). x.nlink) e
          ∙ raised_nlink q
          ∙ of_listed q i' file'
          ∙ ap (λ (k : ℕ). links s' k s'.all_entries % 2 ^ 32) (sym ino')
    ]

    Linked-IsNumbered : IsNumbered s'
    Linked-IsNumbered q i =
        let same = l.next_ino in
        elim (Bool-cases (q == new)) [
          | inl hit ↦
              let e : q ≡ new = ==→eq q new hit in
              let number : (at s' q).ino ≡ old.ino =
                ap (λ r. (at s' r).ino) e ∙ ap (λ (x : Entry). x.ino) at_new in
              let below = b target mt in omega arith
          | inr other ↦
              let listed : mem q (new ∷ s.all_entries) ≡ true = rw l.all_entries at i in
              let i' : mem q s.all_entries ≡ true = ground (arith, listed, other) in
              let number : (at s' q).ino ≡ (at s q).ino =
                ap (λ (x : Entry). x.ino) (now q i') ∙ raised_ino q in
              let below = b q i' in omega arith
        ]

  -- In a well-formed storage where every file counts its links and the inode numbers are below the
  -- next one, for the first entry with an inode number, which is not 0, that is no directory, a listed
  -- directory without a child of the name, and an address that no entry has: `vtfs_link` returns 0
  -- without a fault, every file, old and new, counts its links in the storage then, and the inode
  -- numbers are still below the next one.
  pub vtfs_link-CountsLinks :
      (s' : Store) × (vtfs_link env ino parent_ino name s
        ≡ some ((pos 0, inc_nlink ino ∷ touch ino ∷ ihold ino ∷ d_instantiate name ino ∷ []), s'))
      × IsTree s'
      × CountsLinks s'
      × IsNumbered s'
  vtfs_link-CountsLinks =
      let (s', run, l) =
        vtfs_link-Linked env s target home ino parent_ino name t mt no_dir numbered target_found m
          dir home_found none_named got unused in
      (s', run, l.tree, Linked-CountsLinks s' l, Linked-IsNumbered s' l)
