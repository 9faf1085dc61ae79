-- ===== src/Ops/Inode/Undo.antt =====
-- A link that is made and deleted again.
use vtfs.Base.{
  ℕ, ◌+◌, ◌%◌, ◌^◌, ◌<◌, ◌≡◌, refl, sym, ap, ◌∙◌, true, false, none, some, List, [], ◌∷◌, ◌==◌,
  ==→eq, ==_refl, arith, if◌then◌else◌, Bool-cases, inl, inr,
}
use vtfs.Base.Int.{pos}
use vtfs.Base.Lists.{mem, list_del}
use vtfs.Base.Strings.{Bytes, str_eq}
use vtfs.Storage.State.{Ptr, Entry, Store, Env, is_dir}
use vtfs.Storage.Tree.{entry_or_missing, at, IsTree, Live-mem}
use vtfs.Storage.Search.First.{first, has_ino}
use vtfs.Storage.Create.Link.{with_child}
use vtfs.Storage.Create.Count.{counted}
use vtfs.Storage.Remove.{dec_nlink, vtfs_storage_delete_entry}
use vtfs.Storage.Remove.Unlink.{without_child}
use vtfs.Storage.Remove.Links.{one_less, links}
use vtfs.Storage.Remove.Discard.{Freeable}
use vtfs.Storage.Remove.Gone.{other_links, Gone, delete-Gone, after_delete}
use vtfs.Ops.Inode.Create.{Restored}
use vtfs.Ops.Inode.{inc_nlink, touch, ihold, d_instantiate, vtfs_link}
use vtfs.Ops.Inode.Link.{link, Linked, vtfs_link-Linked}

-- A listed entry is a link to its inode.
links_pos : (s : Store) (p : Ptr) (ps : List Ptr) → mem p ps ≡ true → 0 < links s (at s p).ino ps
links_pos s p [] m = absurd (cc m)
links_pos s p (q ∷ ps) m = elim (Bool-cases (p == q)) [
  | inl same ↦
      let e : p ≡ q = ==→eq p q same in
      let hit : ((at s q).ino == (at s p).ino) ≡ true = rw e (==_refl (at s q).ino) in
      rw hit (omega arith)
  | inr other ↦ let later : mem p ps ≡ true = ground arith in omega (arith, links_pos s p ps later)
]

module _ (env : Env) (s : Store) (target home : Ptr) (ino parent_ino : ℕ) (name : Bytes)
    (t : IsTree s) (mt : mem target s.all_entries ≡ true)
    (no_dir : is_dir (at s target).mode ≡ false) (numbered : ((at s target).ino == 0) ≡ false)
    (target_found : first (has_ino s ino) s.all_entries ≡ target)
    (m : mem home s.all_entries ≡ true) (dir : is_dir (at s home).mode ≡ true)
    (home_found : first (has_ino s parent_ino) s.all_entries ≡ home)
    (none_named : (q : Ptr) → mem q (at s home).children ≡ true → str_eq (at s q).name name ≡ false)
    (got : (env.new_entry == 0) ≡ false) (unused : s.entry env.new_entry ≡ none)
    (same_count : (q : Ptr)
      → mem q s.all_entries ≡ true
      → ((at s q).ino == (at s target).ino) ≡ true
      → (at s q).nlink ≡ (at s target).nlink)
    (narrow : (at s target).nlink < 2 ^ 32) where
  abbrev old : Entry
  old = at s target

  abbrev new : Ptr
  new = env.new_entry

  abbrev AfterLink : Store → Type 0
  AfterLink s' =
      Linked env s target home ino parent_ino name t mt no_dir numbered target_found m dir
        home_found none_named got unused s'

  -- the entries when the link has been made
  abbrev made_link : Entry
  made_link = counted ((old.nlink + 1) % 2 ^ 32) (
      link env s target home ino parent_ino name t mt no_dir numbered target_found m dir home_found
        none_named got unused)

  abbrev with_link : Ptr → Entry
  with_link q = if q == home then with_child new old.mode (at s q) else at s q

  abbrev recounted : Entry → Entry
  recounted e = if e.ino == old.ino then counted ((old.nlink + 1) % 2 ^ 32) e else e

  -- What the deletion of an entry makes of another.
  abbrev unlinked : Ptr → (gone e : Entry) → Entry
  unlinked q gone e = if q == gone.parent then without_child new gone.mode e else e

  abbrev dropped : (gone e : Entry) → Entry
  dropped gone e = if e.ino == gone.ino then one_less e else e

  not_new : (q : Ptr) → mem q s.all_entries ≡ true → (q == new) ≡ false
  not_new q i = elim (Bool-cases (q == new)) [
    | inl same ↦
        let e : s.entry q ≡ none = ap s.entry (==→eq q new same) ∙ unused in
        absurd (cc (e, (Live-mem s q s.all_entries t.live i).1))
    | inr other ↦ other
  ]

  back_count : dec_nlink ((old.nlink + 1) % 2 ^ 32) ≡ old.nlink
  back_count = omega arith

  counts_back :
      (q : Ptr)
      → mem q s.all_entries ≡ true
      → ((at s q).ino == old.ino) ≡ true
      → record (at s q) { nlink = dec_nlink ((old.nlink + 1) % 2 ^ 32) } ≡ at s q
  counts_back q i hit =
      ap (λ n. record (at s q) { nlink = n }) (back_count ∙ sym (same_count q i hit))

  -- The count goes up and down again, and the directory's child comes and goes.
  there_and_back :
      (q : Ptr)
      → mem q s.all_entries ≡ true
      → dropped made_link (unlinked q made_link (recounted (with_link q))) ≡ at s q
  there_and_back q i = elim (Bool-cases (q == home)) [
    | inl same ↦ rw same (elim (Bool-cases ((at s q).ino == old.ino)) [
      | inl hit ↦ rw hit (rw no_dir (rw (==_refl new) (rw hit (counts_back q i hit))))
      | inr miss ↦ rw miss (rw no_dir (rw (==_refl new) (rw miss refl)))
    ])
    | inr other ↦ rw other (elim (Bool-cases ((at s q).ino == old.ino)) [
      | inl hit ↦ rw hit (rw hit (counts_back q i hit))
      | inr miss ↦ rw miss (rw miss refl)
    ])
  ]

  module _ (s' : Store) (l : AfterLink s') (later : Env) where
    at_new : at s' new ≡ made_link
    at_new = ap entry_or_missing l.entry

    back : (q : Ptr) → mem q s.all_entries ≡ true → after_delete s' new q ≡ at s q
    back q i =
        ap (λ x. dropped (at s' new) (unlinked q (at s' new) x))
          (ap entry_or_missing (l.listed q i))
        ∙ ap (λ x. dropped x (unlinked q x (recounted (with_link q)))) at_new
        ∙ there_and_back q i

    still : (q : Ptr) → mem q s.all_entries ≡ true → mem q s'.all_entries ≡ true
    still q i = rw l.all_entries (ground arith)

    restored : (s2 : Store) → Gone later s' new s2 → Restored s new s2
    restored s2 g =
        let listed : list_del new (new ∷ s.all_entries) ≡ s.all_entries = rw (==_refl new) refl in
        record {
          tree = g.tree;
          all_entries = g.all_entries ∙ ap (list_del new) l.all_entries ∙ listed;
          entries = λ q i.
              g.listed q (still q i) (not_new q i)
              ∙ ap some (back q i)
              ∙ sym (Live-mem s q s.all_entries t.live i).1;
          gone = g.gone;
          root = g.root ∙ l.root;
        }

    freeable : Freeable s old.buffer → Freeable s' (at s' new).buffer
    freeable (inl null) = inl (ap (λ (e : Entry). e.buffer) at_new ∙ null)
    freeable (inr (some_data, (b, eb))) =
        let data_of : (at s' new).buffer ≡ old.buffer = ap (λ (e : Entry). e.buffer) at_new in
        inr (rw data_of some_data, (b, rw data_of (ap (λ memory. memory old.buffer) l.blocks ∙ eb)))

    -- The target and its other links are left.
    shared : (other_links s' new == 0) ≡ false
    shared =
        let number : links s' old.ino (new ∷ s.all_entries) ≡ 1 + links s old.ino s.all_entries =
          rw l.all_entries at l.number in
        let ino_of : (at s' new).ino ≡ old.ino = ap (λ (e : Entry). e.ino) at_new in
        let hit : ((at s' new).ino == old.ino) ≡ true = rw ino_of (==_refl old.ino) in
        let counted_once : 1 + links s' old.ino s.all_entries ≡ 1 + links s old.ino s.all_entries =
          rw hit at number in
        let listed : list_del new s'.all_entries ≡ s.all_entries =
          rw l.all_entries (rw (==_refl new) refl) in
        let some_left = links_pos s target s.all_entries mt in
        rw listed (rw ino_of (ground (arith, counted_once, some_left)))

    deleted :
        Freeable s old.buffer
        → (s2 : Store) × (vtfs_storage_delete_entry later new s' ≡ some (pos 0, s2))
          × Restored s new s2
          × ((b : Ptr) → s2.block b ≡ s.block b)
    deleted f =
        let listed : mem new s'.all_entries ≡ true = rw l.all_entries (rw (==_refl new) refl) in
        let below : (new == s'.root) ≡ false =
          ground (arith, not_new s.root t.root_listed, l.root) in
        let (s2, run, g) =
          delete-Gone later s' new l.tree listed below (ap (λ (e : Entry). e.children) at_new)
            (freeable f) in
        (s2, run, restored s2 g, λ b. g.blocks b ∙ (rw shared (ap (λ memory. memory b) l.blocks)))

  -- In a well-formed storage, for the first entry with an inode number, which is not 0, that is no
  -- directory, whose links all have one count of 32 bits, and whose data pointer is NULL or points
  -- to a block, a listed directory without a child of the name, and an address that no entry has:
  -- `vtfs_link` returns 0 and makes the link, and whenever it is deleted next, the deletion returns
  -- 0 without a fault and leaves a well-formed storage of the entries before the link, each as it was
  -- with its count, and with all data.
  pub delete-vtfs_link :
      (later : Env)
      → Freeable s old.buffer
      → (s' : Store) × (vtfs_link env ino parent_ino name s
          ≡ some ((pos 0, inc_nlink ino ∷ touch ino ∷ ihold ino ∷ d_instantiate name ino ∷ []), s'))
        × (s2 : Store) × (vtfs_storage_delete_entry later new s' ≡ some (pos 0, s2))
        × Restored s new s2
        × ((b : Ptr) → s2.block b ≡ s.block b)
  delete-vtfs_link later f =
      let (s', run, l) =
        vtfs_link-Linked env s target home ino parent_ino name t mt no_dir numbered target_found m
          dir home_found none_named got unused in
      let (s2, run2, r, blocks) = deleted s' l later f in (s', run, s2, run2, r, blocks)
