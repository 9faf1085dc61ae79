-- ===== src/Storage/Remove/LinkCounts.antt =====
-- The link counts of files, as deletions leave them.
use vtfs.Base.{
  ℕ, ◌+◌, ◌%◌, ◌^◌, ◌<◌, ◌≡◌, sym, ap, ◌∙◌, true, false, List, [], ◌∷◌, ◌==◌, ==→eq, some, arith,
  if◌then◌else◌, Bool-cases, inl, inr,
}
use vtfs.Base.Int.{pos}
use vtfs.Base.Lists.{mem, list_del, Distinct, mem-list_del_self, mem-list_del_ne}
use vtfs.Storage.State.{Ptr, Entry, Store, Env, is_dir}
use vtfs.Storage.Tree.{entry_or_missing, at, IsTree}
use vtfs.Storage.Remove.{dec_nlink, vtfs_storage_delete_entry}
use vtfs.Storage.Remove.Links.{links, links-same}
use vtfs.Storage.Remove.Discard.{Freeable}
use vtfs.Storage.Remove.Gone.{Gone, delete-Gone, after_delete}

-- Every file counts the entries with its inode number, as an int of 32 bits.
abbrev pub CountsLinks : Store → Type 0
CountsLinks s =
    (q : Ptr)
    → mem q s.all_entries ≡ true
    → is_dir (at s q).mode ≡ false
    → (at s q).nlink ≡ links s (at s q).ino s.all_entries % 2 ^ 32

-- The numbers that are in use are below the next one.
abbrev pub IsNumbered : Store → Type 0
IsNumbered s = (q : Ptr) → mem q s.all_entries ≡ true → (at s q).ino < s.next_ino

-- The links without one entry.
links-list_del :
    (s : Store) (ino : ℕ) (p : Ptr) (ps : List Ptr)
    → Distinct ps
    → mem p ps ≡ true
    → links s ino ps ≡ (if (at s p).ino == ino then 1 else 0) + links s ino (list_del p ps)
links-list_del s ino p [] distinct m = absurd (cc m)
links-list_del s ino p (q ∷ ps) (out, distinct) m = elim (Bool-cases (p == q)) [
  | inl same ↦
      rw same
        (ap (λ x. (if (at s x).ino == ino then 1 else 0) + links s ino ps) (sym (==→eq p q same)))
  | inr other ↦
      let later : mem p ps ≡ true = ground arith in
      let rest = links-list_del s ino p ps distinct later in rw other (omega (arith, rest))
]

one_back : (n : ℕ) → dec_nlink ((1 + n) % 2 ^ 32) ≡ n % 2 ^ 32
one_back n = omega arith

module _ (env : Env) (s : Store) (entry : Ptr) (t : IsTree s) (m : mem entry s.all_entries ≡ true)
    (c : CountsLinks s) (b : IsNumbered s) (s' : Store) (g : Gone env s entry s') where
  left :
      (q : Ptr)
      → mem q s'.all_entries ≡ true
      → (mem q s.all_entries ≡ true) × ((q == entry) ≡ false)
  left q i =
      let kept : mem q (list_del entry s.all_entries) ≡ true = rw g.all_entries at i in
      elim (Bool-cases (q == entry)) [
        | inl same ↦
            let e : q ≡ entry = ==→eq q entry same in
            absurd (cc (kept, e, mem-list_del_self entry s.all_entries t.distinct))
        | inr other ↦ (rw (mem-list_del_ne entry q s.all_entries other) at kept, other)
      ]

  now : (q : Ptr) → mem q s'.all_entries ≡ true → at s' q ≡ after_delete s entry q
  now q i = let (i', n) = left q i in ap entry_or_missing (g.listed q i' n)

  same_ino : (q : Ptr) → (after_delete s entry q).ino ≡ (at s q).ino
  same_ino q = ground arith

  same_mode : (q : Ptr) → (after_delete s entry q).mode ≡ (at s q).mode
  same_mode q = ground arith

  -- A file is not the deleted entry's directory.
  of_file :
      (q : Ptr)
      → is_dir (at s q).mode ≡ false
      → (after_delete s entry q).nlink
        ≡ (if (at s q).ino == (at s entry).ino then dec_nlink (at s q).nlink else (at s q).nlink)
  of_file q file = elim (Bool-cases (q == (at s entry).parent)) [
    | inl same ↦
        let e : q ≡ (at s entry).parent = ==→eq q (at s entry).parent same in
        let a_dir : is_dir (at s q).mode ≡ true = rw e (t.parent_dir entry m) in
        absurd (cc (file, a_dir))
    | inr other ↦ ground (arith, other)
  ]

  links_now : (ino : ℕ) → links s' ino s'.all_entries ≡ links s ino (list_del entry s.all_entries)
  links_now ino =
      links-same ino s s' s'.all_entries (λ q i. ap (λ (e : Entry). e.ino) (now q i) ∙ same_ino q)
      ∙ ap (links s ino) g.all_entries

  recounted :
      (q : Ptr)
      → (at s q).nlink ≡ links s (at s q).ino s.all_entries % 2 ^ 32
      → links s (at s q).ino s.all_entries
        ≡ (if (at s entry).ino == (at s q).ino then 1 else 0)
          + links s (at s q).ino (list_del entry s.all_entries)
      → (if (at s q).ino == (at s entry).ino then dec_nlink (at s q).nlink else (at s q).nlink)
        ≡ links s (at s q).ino (list_del entry s.all_entries) % 2 ^ 32
  recounted q before total = elim (Bool-cases ((at s q).ino == (at s entry).ino)) [
    | inl hit ↦
        let swapped : ((at s entry).ino == (at s q).ino) ≡ true = ground (arith, hit) in
        let n = links s (at s q).ino (list_del entry s.all_entries) in
        let all : links s (at s q).ino s.all_entries ≡ 1 + n = rw swapped at total in
        rw hit (ap dec_nlink (before ∙ ap (λ (k : ℕ). k % 2 ^ 32) all) ∙ one_back n)
    | inr miss ↦
        let swapped : ((at s entry).ino == (at s q).ino) ≡ false = ground (arith, miss) in
        let n = links s (at s q).ino (list_del entry s.all_entries) in
        let all : links s (at s q).ino s.all_entries ≡ 0 + n = rw swapped at total in
        let alone : 0 + n ≡ n = omega arith in
        rw miss (before ∙ ap (λ (k : ℕ). k % 2 ^ 32) (all ∙ alone))
  ]

  pub Gone-CountsLinks : CountsLinks s'
  Gone-CountsLinks q i file =
      let (i', n) = left q i in
      let e = now q i in
      let file' : is_dir (at s q).mode ≡ false =
        ap is_dir (sym (same_mode q)) ∙ ap (λ (x : Entry). is_dir x.mode) (sym e) ∙ file in
      let ino' : (at s' q).ino ≡ (at s q).ino = ap (λ (x : Entry). x.ino) e ∙ same_ino q in
      let before = c q i' file' in
      let total = links-list_del s (at s q).ino entry s.all_entries t.distinct m in
      let after : links s' (at s' q).ino s'.all_entries
          ≡ links s (at s q).ino (list_del entry s.all_entries) =
        ap (λ (k : ℕ). links s' k s'.all_entries) ino' ∙ links_now (at s q).ino in
      ap (λ (x : Entry). x.nlink) e
      ∙ of_file q file'
      ∙ recounted q before total
      ∙ ap (λ (k : ℕ). k % 2 ^ 32) (sym after)

  pub Gone-IsNumbered : IsNumbered s'
  Gone-IsNumbered q i =
      let (i', n) = left q i in
      let ino' : (at s' q).ino ≡ (at s q).ino = ap (λ (x : Entry). x.ino) (now q i) ∙ same_ino q in
      let below = b q i' in let same = g.next_ino in omega arith

-- In a well-formed storage where every file counts its links and the inode numbers are below the
-- next one, any listed entry but the root that has no children, with a data pointer that is NULL or points to a block, can be deleted: the call
-- returns 0 without a fault, every file that is left counts its links in the storage then, and the
-- inode numbers are still below the next one.
pub delete-CountsLinks :
    (env : Env) (s : Store) (entry : Ptr)
    → IsTree s
    → CountsLinks s
    → IsNumbered s
    → mem entry s.all_entries ≡ true
    → (entry == s.root) ≡ false
    → (at s entry).children ≡ []
    → Freeable s (at s entry).buffer
    → (s' : Store) × (vtfs_storage_delete_entry env entry s ≡ some (pos 0, s'))
      × IsTree s'
      × CountsLinks s'
      × IsNumbered s'
delete-CountsLinks env s entry t c b m not_root childless f =
    let (s', run, g) = delete-Gone env s entry t m not_root childless f in
    (
      s',
      run,
      g.tree,
      Gone-CountsLinks env s entry t m c b s' g,
      Gone-IsNumbered env s entry t m c b s' g,
    )
