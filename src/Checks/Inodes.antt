-- ===== src/Checks/Inodes.antt =====
-- `vtfs_link` and `vtfs_mkdir` at the small storage.
use vtfs.Base.{◌≡◌, refl, true, false, some, [], ◌∷◌, ◌==◌, arith, inr}
use vtfs.Base.Int.{pos}
use vtfs.Base.Lists.{mem}
use vtfs.Base.Strings.{codes, str_eq}
use vtfs.Storage.State.{Ptr, Store, dir_mode}
use vtfs.Storage.Tree.{at, IsTree}
use vtfs.Storage.Create.Made.{Made}
use vtfs.Ops.Inode.{get_inode, d_instantiate, inc_nlink, ihold, touch, vtfs_link, vtfs_mkdir}
use vtfs.Storage.Remove.{vtfs_storage_delete_entry}
use vtfs.Ops.Inode.Create.{Restored}
use vtfs.Ops.Inode.Undo.{delete-vtfs_link}
use vtfs.Ops.Inode.Link.{Linked, vtfs_link-Linked}
use vtfs.Ops.Inode.Directory.{finished, vtfs_mkdir-Made}
use vtfs.Checks.Small.{small, file_block, either, env, small-IsTree, Unnamed-but}

unnamed :
    (q : Ptr) → mem q (at small 1).children ≡ true → str_eq (at small q).name (codes "b") ≡ false
unfolding str_eq
unnamed = Unnamed-but (codes "b") refl

same_count :
    (q : Ptr)
    → mem q small.all_entries ≡ true
    → ((at small q).ino == 1001) ≡ true
    → (at small q).nlink ≡ 1
same_count =
    either (λ q. ((at small q).ino == 1001) ≡ true → (at small q).nlink ≡ 1) (λ _. refl)
      (λ wrong. absurd (cc wrong))

vtfs_link-Linked_example :
    (s' : Store) × (vtfs_link (env 3 0) 1001 1000 (codes "b") small
      ≡ some (
        (pos 0, inc_nlink 1001 ∷ touch 1001 ∷ ihold 1001 ∷ d_instantiate (codes "b") 1001 ∷ []),
        s',
      ))
    × Linked
        (env 3 0)
        small
        2
        1
        1001
        1000
        (codes "b")
        small-IsTree
        refl
        refl
        refl
        refl
        refl
        refl
        refl
        unnamed
        refl
        refl
        s'
vtfs_link-Linked_example =
    vtfs_link-Linked (env 3 0) small 2 1 1001 1000 (codes "b") small-IsTree refl refl refl refl refl
      refl refl unnamed refl refl

vtfs_mkdir-Made_example :
    (s1 : Store) × (vtfs_mkdir (env 3 0) true 1000 (codes "b") small
      ≡ some (
        (
          pos 0,
          get_inode dir_mode 1002
              ∷ inc_nlink 1000
              ∷ d_instantiate (codes "b") 1002
              ∷ touch 1000
              ∷ [],
        ),
        finished
            (env 3 0)
            small
            1
            1000
            (codes "b")
            small-IsTree
            refl
            refl
            refl
            unnamed
            refl
            refl
            s1,
      ))
    × Made (env 3 0) small 1 (codes "b") dir_mode 0 false s1
    × IsTree (
        finished
          (env 3 0)
          small
          1
          1000
          (codes "b")
          small-IsTree
          refl
          refl
          refl
          unnamed
          refl
          refl
          s1)
vtfs_mkdir-Made_example =
    vtfs_mkdir-Made (env 3 0) small 1 1000 (codes "b") small-IsTree refl refl refl unnamed refl refl

delete-vtfs_link_example :
    (s' : Store) × (vtfs_link (env 3 0) 1001 1000 (codes "b") small
      ≡ some (
        (pos 0, inc_nlink 1001 ∷ touch 1001 ∷ ihold 1001 ∷ d_instantiate (codes "b") 1001 ∷ []),
        s',
      ))
    × (s2 : Store) × (vtfs_storage_delete_entry (env 4 8) 3 s' ≡ some (pos 0, s2))
    × Restored small 3 s2
    × ((b : Ptr) → s2.block b ≡ small.block b)
delete-vtfs_link_example =
    delete-vtfs_link (env 3 0) small 2 1 1001 1000 (codes "b") small-IsTree refl refl refl refl refl
      refl refl unnamed refl refl same_count (omega arith) (env 4 8)
      (inr (refl, (file_block, refl)))
