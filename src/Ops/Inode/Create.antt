-- ===== src/Ops/Inode/Create.antt =====
-- What `vtfs_create` leaves, with an inode and without.
use vtfs.Base.{
  ℕ, ◌≡◌, refl, sym, ap, ◌∙◌, true, false, none, some, List, [], ◌∷◌, ◌==◌, ==→eq, ==_refl, arith,
  if◌then◌else◌, Bool-cases, inl, inr,
}
use vtfs.Base.Int.{pos, neg, enomem}
use vtfs.Base.Lists.{mem, list_del}
use vtfs.Base.Strings.{Bytes, str_eq}
use vtfs.Storage.State.{Ptr, Entry, Store, Env, load, load_lem, is_dir, file_mode}
use vtfs.Storage.Tree.{entry_or_missing, at, IsTree, Live-mem}
use vtfs.Storage.Search.{vtfs_storage_get_by_ino}
use vtfs.Storage.Search.First.{first, has_ino, get_by_ino-first}
use vtfs.Storage.Create.{blank, vtfs_storage_create_entry}
use vtfs.Storage.Create.Link.{with_child}
use vtfs.Storage.Create.Made.{Made, create-Made}
use vtfs.Storage.Remove.{vtfs_storage_delete_entry}
use vtfs.Storage.Remove.Unlink.{without_child}
use vtfs.Storage.Remove.Links.{one_less}
use vtfs.Storage.Remove.Gone.{Gone, delete-Gone, after_unlink, after_delete}
use vtfs.Ops.Inode.{get_inode, d_instantiate, touch, vtfs_create}

-- The storage that is as it was before an entry was made, but for the next inode number and what was
-- sent.
pub record Restored (s : Store) (fresh : Ptr) (s' : Store) : Type 0 where
  pub tree : IsTree s'
  pub all_entries : s'.all_entries ≡ s.all_entries
  pub entries : (q : Ptr) → mem q s.all_entries ≡ true → s'.entry q ≡ s.entry q
  pub gone : s'.entry fresh ≡ none
  pub root : s'.root ≡ s.root

module _ (env : Env) (s : Store) (home : Ptr) (parent_ino : ℕ) (name : Bytes) (t : IsTree s)
    (m : mem home s.all_entries ≡ true) (dir : is_dir (at s home).mode ≡ true)
    (home_found : first (has_ino s parent_ino) s.all_entries ≡ home)
    (none_named : (q : Ptr) → mem q (at s home).children ≡ true → str_eq (at s q).name name ≡ false)
    (got : (env.new_entry == 0) ≡ false) (unused : s.entry env.new_entry ≡ none) where
  abbrev fresh : Ptr
  fresh = env.new_entry

  abbrev MadeFile : Store → Type 0
  MadeFile s' = Made env s home name file_mode 0 false s'

  run_home : vtfs_storage_get_by_ino parent_ino s ≡ some (home, s)
  run_home = get_by_ino-first s parent_ino t ∙ ap (λ (r : Ptr). some (r, s)) home_found

  home_live : ((home == 0) ≡ false) × (s.entry home ≡ some (at s home))
  home_live = Live-mem s home s.all_entries t.live m

  made :
      (s' : Store) × (vtfs_storage_create_entry env home name file_mode 0 s ≡ some (fresh, s'))
      × MadeFile s'
  unfolding vtfs_storage_create_entry
  made = create-Made env s home name file_mode 0 false t m dir none_named got unused

  abbrev new : Entry
  new = record (blank name file_mode s.next_ino env.now) { parent = home }

  new_at : (s' : Store) → MadeFile s' → at s' fresh ≡ new
  new_at s' d = ap entry_or_missing d.new_entry

  run_load : (s' : Store) → MadeFile s' → load fresh s' ≡ some (new, s')
  run_load s' d = load_lem fresh s' new got d.new_entry

  -- In a well-formed storage, for a listed directory that is the first entry with its inode number
  -- and has no child of that name, an address that no entry has, and memory for the inode:
  -- `vtfs_create` returns 0, the file is made as `Made` describes, with the next inode number, and
  -- the kernel is given an inode with that number for the name.
  pub vtfs_create-Made :
      (s' : Store) × (vtfs_create env true parent_ino name s
        ≡ some (
          (
            pos 0,
            get_inode file_mode s.next_ino ∷ d_instantiate name s.next_ino ∷ touch parent_ino ∷ [],
          ),
          s',
        ))
      × MadeFile s'
  unfolding vtfs_create
  vtfs_create-Made =
      let (s', run, d) = made in
      (s', rw run_home (rw home_live.0 (rw run (rw got (rw (run_load s' d))))), d)

  not_fresh : (q : Ptr) → mem q s.all_entries ≡ true → (q == fresh) ≡ false
  not_fresh q i = elim (Bool-cases (q == fresh)) [
    | inl same ↦
        let e : s.entry q ≡ none = ap s.entry (==→eq q fresh same) ∙ unused in
        absurd (cc (e, (Live-mem s q s.all_entries t.live i).1))
    | inr other ↦ other
  ]

  home_at : (s1 : Store) → MadeFile s1 → at s1 home ≡ with_child fresh file_mode (at s home)
  home_at s1 d = ap entry_or_missing d.home_entry

  -- The entry taken out of the chain that it was put into.
  abbrev unlinked : Entry → Ptr → Entry → Entry
  unlinked e q f = if q == e.parent then without_child fresh e.mode f else f

  without-with : (e : Entry) → without_child fresh file_mode (with_child fresh file_mode e) ≡ e
  without-with e = rw (==_refl fresh) refl

  unlink_back :
      (s1 : Store)
      → MadeFile s1
      → (q : Ptr) → mem q s.all_entries ≡ true
      → after_unlink s1 fresh q ≡ at s q
  unlink_back s1 d q i =
      ap (λ (e : Entry). unlinked e q (at s1 q)) (new_at s1 d) ∙ elim (Bool-cases (q == home)) [
        | inl same ↦ rw (==→eq q home same) (
            rw (==_refl home)
              (ap (without_child fresh file_mode) (home_at s1 d) ∙ without-with (at s home)))
        | inr away ↦ rw away (ap entry_or_missing (d.others q away (not_fresh q i)))
      ]

  module _
      (new_number : (q : Ptr)
        → mem q s.all_entries ≡ true
        → ((at s q).ino == s.next_ino) ≡ false) where
    -- A link to the inode of the deleted entry is counted down, another entry is not.
    abbrev counted : Entry → ℕ → Entry
    counted e ino = if e.ino == ino then one_less e else e

    back :
        (s1 : Store)
        → MadeFile s1
        → (q : Ptr) → mem q s.all_entries ≡ true
        → after_delete s1 fresh q ≡ at s q
    back s1 d q i =
        ap (λ (e : Entry). counted e (at s1 fresh).ino) (unlink_back s1 d q i)
        ∙ ap (λ (e : Entry). counted (at s q) e.ino) (new_at s1 d)
        ∙ rw (new_number q i) refl

    rolled_back : (s1 s2 : Store) → MadeFile s1 → Gone env s1 fresh s2 → Restored s fresh s2
    rolled_back s1 s2 d g =
        let listed : list_del fresh (fresh ∷ s.all_entries) ≡ s.all_entries =
          rw (==_refl fresh) refl in
        record {
          tree = g.tree;
          all_entries =
              g.all_entries ∙ ap (λ (l : List Ptr). list_del fresh l) d.all_entries ∙ listed;
          entries = λ q i.
              g.listed q (rw d.all_entries (still q i)) (not_fresh q i)
              ∙ ap some (back s1 d q i)
              ∙ sym (Live-mem s q s.all_entries t.live i).1;
          gone = g.gone;
          root = g.root ∙ d.root;
        }
      where
        still : (q : Ptr) → mem q s.all_entries ≡ true → mem q (fresh ∷ s.all_entries) ≡ true
        still q i = ground arith

    undo :
        (s1 : Store)
        → MadeFile s1
        → (s2 : Store) × (vtfs_storage_delete_entry env fresh s1 ≡ some (pos 0, s2))
          × Gone env s1 fresh s2
    undo s1 d =
        let listed : mem fresh s1.all_entries ≡ true = rw d.all_entries (ground arith) in
        let below : (fresh == s1.root) ≡ false =
          ground (arith, not_fresh s.root t.root_listed, d.root) in
        delete-Gone env s1 fresh d.tree listed below (ap (λ (e : Entry). e.children) (new_at s1 d))
          (inl (ap (λ (e : Entry). e.buffer) (new_at s1 d)))

    -- Under the conditions of `vtfs_create-Made`, if no entry has the next inode number and there is
    -- no memory for the inode: `vtfs_create` returns -ENOMEM and the storage is well-formed again
    -- with the entries that it had, each as it was.
    pub vtfs_create-Restored :
        (s' : Store) × (vtfs_create env false parent_ino name s
          ≡ some ((neg enomem, get_inode file_mode s.next_ino ∷ []), s'))
        × Restored s fresh s'
    unfolding vtfs_create
    vtfs_create-Restored =
        let (s1, run, d) = made in
        let (s2, run2, g) = undo s1 d in
        (
          s2,
          rw run_home (rw home_live.0 (rw run (rw got (rw (run_load s1 d) (rw run2))))),
          rolled_back s1 s2 d g,
        )
