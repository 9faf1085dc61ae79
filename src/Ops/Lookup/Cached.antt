-- ===== src/Ops/Lookup/Cached.antt =====
-- What `vtfs_lookup` does with a name that is in the directory, or that no server is asked for.
use vtfs.Base.{
  ℕ, ◌≡◌, refl, ap, ◌∙◌, ◌⊎◌, inl, inr, Bool, true, false, none, some, [], ◌∷◌, ◌==◌, Bool-cases,
  arith,
}
use vtfs.Base.Int.{pos, neg, enomem}
use vtfs.Base.Lists.{mem}
use vtfs.Base.Strings.{Bytes}
use vtfs.Storage.State.{Ptr, Store, Env, load, load_lem, is_dir, use_remote_server}
use vtfs.Storage.Tree.{at, IsTree, Live-mem}
use vtfs.Storage.Search.{vtfs_storage_lookup, vtfs_storage_get_by_ino}
use vtfs.Storage.Search.First.{first, first-Finds, named, has_ino, lookup-first, get_by_ino-first}
use vtfs.Ops.Lookup.{Remote, get_inode, set_nlink, set_size, d_add, fetch_from_remote, vtfs_lookup}

-- A directory by its inode number, and the child that its chain has first under a name, or NULL.
module _ (env : Env) (remote : Remote) (got_inode : Bool) (s : Store) (home : Ptr) (parent_ino : ℕ)
    (name : Bytes) (t : IsTree s) (m : mem home s.all_entries ≡ true)
    (dir : is_dir (at s home).mode ≡ true)
    (home_found : first (has_ino s parent_ino) s.all_entries ≡ home) where
  abbrev entry_of_name : Ptr
  entry_of_name = first (named s name) (at s home).children

  run_home : vtfs_storage_get_by_ino parent_ino s ≡ some (home, s)
  run_home = get_by_ino-first s parent_ino t ∙ ap (λ (r : Ptr). some (r, s)) home_found

  run_child : vtfs_storage_lookup home name s ≡ some (entry_of_name, s)
  run_child = lookup-first s home name t m dir

  home0 : (home == 0) ≡ false
  home0 = (Live-mem s home s.all_entries t.live m).0

  -- No entry of that name: the dentry is a negative one. An entry: its inode, with the link count and
  -- the size of the entry, or -ENOMEM without memory for it. The storage is as it was.
  pub data Lookup : Type 0 where
    absent :
        (entry_of_name == 0) ≡ true
        → ((q : Ptr) → mem q (at s home).children ≡ true → named s name q ≡ false)
        → vtfs_lookup env remote got_inode parent_ino name s
          ≡ some ((pos 0, d_add name none ∷ []), s)
        → Lookup
    no_memory :
        (entry_of_name == 0) ≡ false
        → got_inode ≡ false
        → vtfs_lookup env remote got_inode parent_ino name s
          ≡ some
              ((neg enomem, get_inode (at s entry_of_name).mode (at s entry_of_name).ino ∷ []), s)
        → Lookup
    found :
        (entry_of_name == 0) ≡ false
        → got_inode ≡ true
        → vtfs_lookup env remote got_inode parent_ino name s
          ≡ some (
            (
              pos 0,
              get_inode (at s entry_of_name).mode (at s entry_of_name).ino
                  ∷ set_nlink (at s entry_of_name).ino (at s entry_of_name).nlink
                  ∷ set_size (at s entry_of_name).ino (at s entry_of_name).size
                  ∷ d_add name (some (at s entry_of_name).ino)
                  ∷ [],
            ),
            s,
          )
        → Lookup

  none_named :
      (entry_of_name == 0) ≡ true
      → (q : Ptr) → mem q (at s home).children ≡ true
      → named s name q ≡ false
  none_named null = elim (first-Finds (named s name) (at s home).children) [
    | inl (i, hit) ↦
        let live =
          Live-mem s entry_of_name s.all_entries t.live (t.child_listed home entry_of_name m i).0 in
        absurd (cc (null, live.0))
    | inr (zero, none_fit) ↦ none_fit
  ]

  run_load : (entry_of_name == 0) ≡ false → load entry_of_name s ≡ some (at s entry_of_name, s)
  run_load some_child = elim (first-Finds (named s name) (at s home).children) [
    | inl (i, hit) ↦
        let live =
          Live-mem s entry_of_name s.all_entries t.live (t.child_listed home entry_of_name m i).0 in
        load_lem entry_of_name s (at s entry_of_name) live.0 live.1
    | inr (zero, none_fit) ↦ absurd (ground arith)
  ]

  not_asked : use_remote_server env ≡ false → fetch_from_remote env remote home name s ≡ some (0, s)
  unfolding fetch_from_remote
  not_asked off = rw off refl

  run_absent :
      (entry_of_name == 0) ≡ true
      → use_remote_server env ≡ false
      → vtfs_lookup env remote got_inode parent_ino name s ≡ some ((pos 0, d_add name none ∷ []), s)
  unfolding vtfs_lookup
  run_absent null off = rw run_home (rw home0 (rw run_child (rw null (rw (not_asked off) refl))))

  by_inode : (entry_of_name == 0) ≡ false → Lookup
  unfolding vtfs_lookup
  by_inode some_child = elim (Bool-cases got_inode) [
    | inl got ↦ found some_child got (
        rw run_home (
          rw home0 (
            rw run_child (rw some_child (rw some_child (rw (run_load some_child) (rw got refl)))))))
    | inr full ↦ no_memory some_child full (
        rw run_home (
          rw home0 (
            rw run_child
              (rw some_child (rw some_child (rw (run_load some_child) (rw full refl)))))))
  ]

  -- In a well-formed storage, for a listed directory that is the first entry with its inode number,
  -- and a name that is in it or for which there is no server to ask: `vtfs_lookup` ends without a
  -- fault, as `Lookup` says.
  pub vtfs_lookup-Lookup : (use_remote_server env ≡ false) ⊎ ((entry_of_name == 0) ≡ false) → Lookup
  vtfs_lookup-Lookup h = elim (Bool-cases (entry_of_name == 0)) [
    | inr some_child ↦ by_inode some_child
    | inl null ↦ elim h [
      | inl off ↦ absent null (none_named null) (run_absent null off)
      | inr some_child ↦ absurd (cc (null, some_child))
    ]
  ]
