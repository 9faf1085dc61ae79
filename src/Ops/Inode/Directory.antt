-- ===== src/Ops/Inode/Directory.antt =====
-- What `vtfs_mkdir` leaves.
use vtfs.Base.{ℕ, ◌≡◌, refl, ap, ◌∙◌, true, false, none, some, [], ◌∷◌, ◌==◌, ==_refl}
use vtfs.Base.Int.{pos}
use vtfs.Base.Lists.{mem}
use vtfs.Base.Strings.{Bytes, str_eq}
use vtfs.Storage.State.{Ptr, Entry, Store, Env, put_entry, load_lem, change_lem, is_dir, dir_mode}
use vtfs.Storage.Tree.{at, IsTree, Live-mem}
use vtfs.Storage.Tree.Shape.{IsTree-SameShape, SameShape-of_one}
use vtfs.Storage.Search.{vtfs_storage_get_by_ino}
use vtfs.Storage.Search.First.{first, has_ino, get_by_ino-first}
use vtfs.Storage.Create.{blank, vtfs_storage_create_entry}
use vtfs.Storage.Create.Made.{Made, create-Made}
use vtfs.Ops.Inode.{get_inode, inc_nlink, d_instantiate, touch, vtfs_mkdir}

module _ (env : Env) (s : Store) (home : Ptr) (parent_ino : ℕ) (name : Bytes) (t : IsTree s)
    (m : mem home s.all_entries ≡ true) (dir : is_dir (at s home).mode ≡ true)
    (home_found : first (has_ino s parent_ino) s.all_entries ≡ home)
    (none_named : (q : Ptr) → mem q (at s home).children ≡ true → str_eq (at s q).name name ≡ false)
    (got : (env.new_entry == 0) ≡ false) (unused : s.entry env.new_entry ≡ none) where
  abbrev pub fresh : Ptr
  fresh = env.new_entry

  abbrev MadeDir : Store → Type 0
  MadeDir s1 = Made env s home name dir_mode 0 false s1

  run_home : vtfs_storage_get_by_ino parent_ino s ≡ some (home, s)
  run_home = get_by_ino-first s parent_ino t ∙ ap (λ (r : Ptr). some (r, s)) home_found

  made :
      (s1 : Store) × (vtfs_storage_create_entry env home name dir_mode 0 s ≡ some (fresh, s1))
      × MadeDir s1
  unfolding vtfs_storage_create_entry
  made = create-Made env s home name dir_mode 0 false t m dir none_named got unused

  abbrev bare : Entry
  bare = record (blank name dir_mode s.next_ino env.now) { parent = home }

  -- the new directory, which counts its own two names
  abbrev pub directory : Entry
  directory = record bare { nlink = 2 }

  abbrev pub finished : Store → Store
  finished s1 = put_entry fresh (some directory) s1

  mkdir_run :
      (s1 : Store)
      → MadeDir s1
      → vtfs_storage_create_entry env home name dir_mode 0 s ≡ some (fresh, s1)
      → vtfs_mkdir env true parent_ino name s
        ≡ some (
          (
            pos 0,
            get_inode dir_mode s.next_ino
                ∷ inc_nlink parent_ino
                ∷ d_instantiate name s.next_ino
                ∷ touch parent_ino
                ∷ [],
          ),
          finished s1,
        )
  unfolding vtfs_mkdir
  mkdir_run s1 d run =
      let home0 = (Live-mem s home s.all_entries t.live m).0 in
      let two = change_lem fresh (λ e. record e { nlink = 2 }) s1 bare got d.new_entry in
      let held = load_lem fresh (finished s1) directory got (rw (==_refl fresh) refl) in
      rw run_home (rw home0 (rw run (rw got (rw two (rw held refl)))))

  -- In a well-formed storage, for a listed directory that is the first entry with its inode number
  -- and has no child of that name, an address that no entry has, and memory for the inode:
  -- `vtfs_mkdir` returns 0 without a fault, the directory is made as `Made` describes but with two
  -- links, the storage is well-formed, and the kernel is given an inode with the next number for the
  -- name and told to count a link of the parent.
  pub vtfs_mkdir-Made :
      (s1 : Store) × (vtfs_mkdir env true parent_ino name s
        ≡ some (
          (
            pos 0,
            get_inode dir_mode s.next_ino
                ∷ inc_nlink parent_ino
                ∷ d_instantiate name s.next_ino
                ∷ touch parent_ino
                ∷ [],
          ),
          finished s1,
        ))
      × Made env s home name dir_mode 0 false s1
      × IsTree (finished s1)
  vtfs_mkdir-Made =
      let (s1, run, d) = made in
      let shape =
        SameShape-of_one s1 (finished s1) fresh bare directory d.tree d.new_entry
          (rw (==_refl fresh) refl) (λ q n. rw n refl) (refl, refl, refl) d.tree.unlocked refl
          refl in
      (s1, mkdir_run s1 d run, d, IsTree-SameShape s1 (finished s1) d.tree shape)
