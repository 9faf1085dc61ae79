-- ===== src/Ops/Lookup/Fetched.antt =====
-- What `vtfs_lookup` does with a name that is not in the directory while there is a server.
use vtfs.Base.{
  ℕ, suc, ◌≤◌, ◌≡◌, refl, ap, ◌∙◌, inl, Bool, true, false, Option, none, some, List, [], ◌∷◌, ◌==◌,
  arith, ==_refl,
}
use vtfs.Base.Int.{ℤ, pos, is_zero}
use vtfs.Base.Lists.{mem, length, take, take_all}
use vtfs.Base.Strings.{Bytes, str_eq}
use vtfs.Storage.State.{
  Ptr, Entry, Store, Env, load_lem, is_dir, is_reg, use_remote_server, max_file_size,
}
use vtfs.Storage.Tree.{at, IsTree, Live-mem}
use vtfs.Storage.Path.{build_path}
use vtfs.Storage.Search.{vtfs_storage_lookup, vtfs_storage_get_by_ino}
use vtfs.Storage.Search.First.{first, first_none, named, has_ino, lookup-first, get_by_ino-first}
use vtfs.Storage.Create.{blank, vtfs_storage_create_entry_no_sync}
use vtfs.Storage.Create.Made.{Made, create-Made}
use vtfs.Storage.Contents.{vtfs_storage_write}
use vtfs.Storage.Contents.File.{IsFile}
use vtfs.Storage.Contents.Write.{Written, write-Written}
use vtfs.Http.Remote.{vtfs_http_stat, vtfs_http_read}
use vtfs.Ops.Lookup.{
  Remote, LookupCall, full_path, get_inode, set_nlink, set_size, d_add, of_stat, fetch_from_remote,
  vtfs_lookup,
}

module _ (env : Env) (remote : Remote) (s : Store) (home : Ptr) (parent_ino : ℕ)
    (name parent_path : Bytes) (t : IsTree s) (m : mem home s.all_entries ≡ true)
    (dir : is_dir (at s home).mode ≡ true)
    (home_found : first (has_ino s parent_ino) s.all_entries ≡ home)
    (none_named : (q : Ptr) → mem q (at s home).children ≡ true → str_eq (at s q).name name ≡ false)
    (asked : use_remote_server env ≡ true)
    (home_path : build_path home 512 s ≡ some (parent_path, s)) where
  abbrev pub path : Bytes
  path = full_path parent_path name

  run_home : vtfs_storage_get_by_ino parent_ino s ≡ some (home, s)
  run_home = get_by_ino-first s parent_ino t ∙ ap (λ (r : Ptr). some (r, s)) home_found

  run_child : vtfs_storage_lookup home name s ≡ some (0, s)
  run_child =
      lookup-first s home name t m dir
      ∙ ap (λ (r : Ptr). some (r, s)) (first_none (named s name) (at s home).children none_named)

  home0 : (home == 0) ≡ false
  home0 = (Live-mem s home s.all_entries t.live m).0

  -- What the server says of the path decides.
  run_fetch :
      fetch_from_remote env remote home name s
      ≡ of_stat env remote home name path
          (vtfs_http_stat remote.server remote.stat_net remote.token path)
          s
  unfolding fetch_from_remote
  run_fetch = rw asked (rw home_path refl)

  -- A name that is not in the listed directory, and for which the server has no answer: the dentry is
  -- a negative one, and the storage is as it was.
  pub fetch_absent :
      (got_inode : Bool) (ret : ℤ) (stat : Option (ℕ × ℤ))
      → is_zero ret ≡ false
      → vtfs_http_stat remote.server remote.stat_net remote.token path ≡ some (ret, stat)
      → vtfs_lookup env remote got_inode parent_ino name s ≡ some ((pos 0, d_add name none ∷ []), s)
  unfolding vtfs_lookup
  fetch_absent got_inode ret none bad said =
      rw run_home (rw home0 (rw run_child (rw run_fetch (rw said (rw bad refl)))))
  fetch_absent got_inode ret (some (mode, size)) bad said =
      rw run_home (rw home0 (rw run_child (rw run_fetch (rw said (rw bad refl)))))

  module _ (got : (env.new_entry == 0) ≡ false) (unused : s.entry env.new_entry ≡ none)
      (mode n c : ℕ) (cs : Bytes)
      (said : vtfs_http_stat remote.server remote.stat_net remote.token path
        ≡ some (pos 0, some (mode, pos (suc n))))
      (reg : is_reg mode ≡ true) (buffer : remote.has_buffer ≡ true)
      (sent : vtfs_http_read remote.server remote.read_net remote.token path (suc n) (pos 0)
        ≡ some (pos (length (c ∷ cs)), c ∷ cs))
      (data_free : s.block env.new_block ≡ none) (data_got : (env.new_block == 0) ≡ false)
      (small : length (c ∷ cs) ≤ max_file_size) where
    abbrev bytes : Bytes
    bytes = c ∷ cs

    abbrev fresh : Ptr
    fresh = env.new_entry

    abbrev MadeFile : Store → Type 0
    MadeFile s1 = Made env s home name mode 0 true s1

    made :
        (s1 : Store) × (vtfs_storage_create_entry_no_sync env home name mode 0 s ≡ some (fresh, s1))
        × MadeFile s1
    unfolding vtfs_storage_create_entry_no_sync
    made = create-Made env s home name mode 0 true t m dir none_named got unused

    abbrev new : Entry
    new = record (blank name mode s.next_ino env.now) { parent = home }

    new-IsFile : (s1 : Store) → MadeFile s1 → IsFile s1 fresh new
    new-IsFile s1 d = record {
      not_null = got;
      live = d.new_entry;
      reg = reg;
      size_le = omega arith;
      capacity_le = omega arith;
      backed = inl (refl, refl);
    }

    -- What the kernel is told.
    abbrev pub answer : ℤ × List LookupCall
    answer = (
      pos 0,
      get_inode mode s.next_ino
          ∷ set_nlink s.next_ino 1
          ∷ set_size s.next_ino (length bytes)
          ∷ d_add name (some s.next_ino)
          ∷ [],
    )

    -- What the lookup makes of a file on the server: an entry that is made as by `vtfs_create`, and
    -- then written the bytes that the server has sent.
    pub record Fetched (s' : Store) : Type 0 where
      pub between : Store
      pub file : Entry
      pub created : MadeFile between
      pub filled : Written env between fresh new bytes 0 s' file
      pub run : vtfs_lookup env remote true parent_ino name s ≡ some (answer, s')

    run_steps :
        (s1 s2 : Store) (e2 : Entry)
        → vtfs_storage_create_entry_no_sync env home name mode 0 s ≡ some (fresh, s1)
        → vtfs_storage_write env fresh bytes 0 s1 ≡ some (pos (length bytes), s2)
        → Written env s1 fresh new bytes 0 s2 e2
        → vtfs_lookup env remote true parent_ino name s ≡ some (answer, s2)
    unfolding vtfs_lookup
    run_steps s1 s2 e2 run1 run2 w =
        let all_taken : take (length cs) cs ≡ cs = take_all (length cs) cs (omega arith) in
        let size : e2.size ≡ length bytes = w.size ∙ omega arith in
        let last = load_lem fresh s2 e2 got w.file.live in
        rw run_home (
          rw home0 (
            rw run_child (
              rw run_fetch (
                rw said (
                  rw run1 (
                    rw got (
                      rw reg (
                        rw buffer (
                          rw sent (
                            rw all_taken (
                              rw run2 (
                                rw got (
                                  rw last (
                                    rw w.ino (rw w.nlink (rw w.kept.0 (rw size refl)))))))))))))))))

    -- With the name not in the listed directory, which is the first entry with its inode number, and
    -- a server that says of its path that it is a regular file that is not empty and answers the read
    -- with some bytes: with memory for the entry, the inode, the buffer and the data, `vtfs_lookup`
    -- returns 0 and leaves what `Fetched` says.
    pub vtfs_lookup-Fetched : (s' : Store) × Fetched s'
    vtfs_lookup-Fetched =
        let (s1, run1, d) = made in
        let listed : mem fresh s1.all_entries ≡ true = rw d.all_entries (rw (==_refl fresh) refl) in
        let free : s1.block env.new_block ≡ none = ap (λ b. b env.new_block) d.blocks ∙ data_free in
        let (s2, e2, run2, w, told) =
          write-Written env s1 fresh new bytes 0 d.tree listed (new-IsFile s1 d)
            (record { got = data_got; unused = inl free }) (omega arith) in
        (
          s2,
          record {
            between = s1;
            file = e2;
            created = d;
            filled = w;
            run = run_steps s1 s2 e2 run1 run2 w;
          },
        )
