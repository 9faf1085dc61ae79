-- ===== src/Ops/Inode/Remove.antt =====
-- What `vtfs_unlink` and `vtfs_rmdir` do with a name that is in the directory.
use vtfs.Base.{
  ℕ, ◌≡◌, ◌≢◌, refl, ap, ◌∙◌, inl, inr, true, false, some, List, [], ◌∷◌, ◌==◌, Bool-cases,
}
use vtfs.Base.Int.{pos, neg, enotdir, enotempty}
use vtfs.Base.Lists.{mem}
use vtfs.Storage.State.{Ptr, Store, Env, load, load_lem, is_dir}
use vtfs.Storage.Tree.{at, IsTree, Live-mem}
use vtfs.Storage.Search.{vtfs_storage_lookup, vtfs_storage_get_by_ino}
use vtfs.Storage.Search.First.{first, named, has_ino, lookup-first, get_by_ino-first}
use vtfs.Storage.Remove.Discard.{Freeable}
use vtfs.Storage.Remove.Gone.{Gone, delete-Gone}
use vtfs.Ops.Inode.{Dentry, drop_nlink, clear_nlink, touch, vtfs_unlink, vtfs_rmdir}

-- A directory by its inode number, and the child that its chain has first under a name.
module _ (env : Env) (s : Store) (home child : Ptr) (parent_ino : ℕ) (dentry : Dentry)
    (t : IsTree s) (m : mem home s.all_entries ≡ true) (dir : is_dir (at s home).mode ≡ true)
    (home_found : first (has_ino s parent_ino) s.all_entries ≡ home)
    (listed : mem child (at s home).children ≡ true)
    (child_found : first (named s dentry.name) (at s home).children ≡ child) where
  run_home : vtfs_storage_get_by_ino parent_ino s ≡ some (home, s)
  run_home = get_by_ino-first s parent_ino t ∙ ap (λ (r : Ptr). some (r, s)) home_found

  run_child : vtfs_storage_lookup home dentry.name s ≡ some (child, s)
  run_child = lookup-first s home dentry.name t m dir ∙ ap (λ (r : Ptr). some (r, s)) child_found

  home_live : ((home == 0) ≡ false) × (s.entry home ≡ some (at s home))
  home_live = Live-mem s home s.all_entries t.live m

  child_mem : mem child s.all_entries ≡ true
  child_mem = (t.child_listed home child m listed).0

  child_live : ((child == 0) ≡ false) × (s.entry child ≡ some (at s child))
  child_live = Live-mem s child s.all_entries t.live child_mem

  run_load : load child s ≡ some (at s child, s)
  run_load = load_lem child s (at s child) child_live.0 child_live.1

  -- In a well-formed storage, for a listed directory that is the first entry with its inode number
  -- and its first child of that name, which has no children and whose data pointer is NULL or points
  -- to a block: `vtfs_unlink` returns 0 without a fault, the child is deleted as `Gone` describes,
  -- and the kernel is told to drop a link of the dentry's inode and to touch the directory's.
  pub unlink-Gone :
      (at s child).children ≡ []
      → Freeable s (at s child).buffer
      → (s' : Store) × (vtfs_unlink env parent_ino dentry s
          ≡ some ((pos 0, drop_nlink dentry.ino ∷ touch parent_ino ∷ []), s'))
        × Gone env s child s'
  unfolding vtfs_unlink
  unlink-Gone childless f =
      let (s', run, gone) =
        delete-Gone env s child t child_mem (t.child_listed home child m listed).2 childless f in
      (s', rw run_home (rw home_live.0 (rw run_child (rw child_live.0 (rw run)))), gone)

  -- What `vtfs_rmdir` does with the child: no directory is refused with -ENOTDIR, one that has
  -- children with -ENOTEMPTY, and one that has none is deleted.
  pub data Rmdir : Type 0 where
    no_dir :
        is_dir (at s child).mode ≡ false
        → vtfs_rmdir env parent_ino dentry s ≡ some ((neg enotdir, []), s)
        → Rmdir
    not_empty :
        is_dir (at s child).mode ≡ true
        → (at s child).children ≢ []
        → vtfs_rmdir env parent_ino dentry s ≡ some ((neg enotempty, []), s)
        → Rmdir
    removed :
        is_dir (at s child).mode ≡ true
        → (at s child).children ≡ []
        → (s' : Store)
        → vtfs_rmdir env parent_ino dentry s
          ≡ some
              ((pos 0, clear_nlink dentry.ino ∷ drop_nlink parent_ino ∷ touch parent_ino ∷ []), s')
        → Gone env s child s'
        → Rmdir

  run_not_dir :
      is_dir (at s child).mode ≡ false
      → vtfs_rmdir env parent_ino dentry s ≡ some ((neg enotdir, []), s)
  unfolding vtfs_rmdir
  run_not_dir other =
      rw run_home (rw home_live.0 (rw run_child (rw child_live.0 (rw run_load (rw other)))))

  by_children :
      (cs : List Ptr)
      → (at s child).children ≡ cs
      → is_dir (at s child).mode ≡ true
      → Freeable s (at s child).buffer
      → Rmdir
  unfolding vtfs_rmdir
  by_children [] e d f =
      let (s', run, gone) =
        delete-Gone env s child t child_mem (t.child_listed home child m listed).2 e f in
      removed d e s'
        (rw run_home
          (rw home_live.0 (rw run_child (rw child_live.0 (rw run_load (rw d (rw e (rw run))))))))
        gone
  by_children (c ∷ cs) e d f =
      not_empty d (λ n. cc (e, n))
        (rw run_home (rw home_live.0 (rw run_child (rw child_live.0 (rw run_load (rw d (rw e)))))))

  -- In a well-formed storage, for a listed directory that is the first entry with its inode number
  -- and its first child of that name, whose data pointer is NULL or points to a block: `vtfs_rmdir`
  -- ends without a fault, as `Rmdir` says.
  pub rmdir-Rmdir : Freeable s (at s child).buffer → Rmdir
  rmdir-Rmdir f = elim (Bool-cases (is_dir (at s child).mode)) [
    | inl d ↦ by_children (at s child).children refl d f
    | inr other ↦ no_dir other (run_not_dir other)
  ]
