-- ===== src/Checks/Counts.antt =====
-- Link counts at the small storage.
use vtfs.Base.{◌≡◌, refl, false, some, [], ◌∷◌, arith, inr, ◌<◌, ◌%◌, ◌^◌}
use vtfs.Base.Int.{pos}
use vtfs.Base.Strings.{codes, str_eq}
use vtfs.Storage.State.{Store, file_mode, is_dir}
use vtfs.Storage.Tree.{IsTree, at}
use vtfs.Storage.Create.{create_entry_internal}
use vtfs.Storage.Create.LinkCounts.{create-CountsLinks}
use vtfs.Storage.Remove.{vtfs_storage_delete_entry}
use vtfs.Storage.Remove.LinkCounts.{CountsLinks, IsNumbered, delete-CountsLinks}
use vtfs.Ops.Inode.{d_instantiate, inc_nlink, ihold, touch, vtfs_link}
use vtfs.Ops.Inode.LinkCounts.{vtfs_link-CountsLinks}
use vtfs.Checks.Small.{small, file_block, either, env, small-IsTree, Unnamed-but}
use vtfs.Storage.Remove.Links.{links}

small-CountsLinks : CountsLinks small
small-CountsLinks =
    either
      (λ q.
        is_dir (at small q).mode ≡ false
        → (at small q).nlink ≡ links small (at small q).ino small.all_entries % 2 ^ 32)
      (λ _. refl) (λ wrong. absurd (cc wrong))

small-IsNumbered : IsNumbered small
small-IsNumbered = either (λ q. (at small q).ino < 1002) (omega arith) (omega arith)

create-CountsLinks_example :
    (s' : Store) × (create_entry_internal (env 3 0) 1 (codes "b") file_mode 0 false small
      ≡ some (3, s'))
    × IsTree s'
    × CountsLinks s'
    × IsNumbered s'
unfolding str_eq
create-CountsLinks_example =
    create-CountsLinks (env 3 0) small 1 (codes "b") file_mode false small-IsTree refl refl
      (Unnamed-but (codes "b") refl) refl refl small-CountsLinks small-IsNumbered (omega arith)

vtfs_link-CountsLinks_example :
    (s' : Store) × (vtfs_link (env 3 0) 1001 1000 (codes "b") small
      ≡ some (
        (pos 0, inc_nlink 1001 ∷ touch 1001 ∷ ihold 1001 ∷ d_instantiate (codes "b") 1001 ∷ []),
        s',
      ))
    × IsTree s'
    × CountsLinks s'
    × IsNumbered s'
unfolding str_eq
vtfs_link-CountsLinks_example =
    vtfs_link-CountsLinks (env 3 0) small 2 1 1001 1000 (codes "b") small-IsTree refl refl refl refl
      refl refl refl (Unnamed-but (codes "b") refl) refl refl small-CountsLinks small-IsNumbered

delete-CountsLinks_example :
    (s' : Store) × (vtfs_storage_delete_entry (env 0 0) 2 small ≡ some (pos 0, s'))
    × IsTree s'
    × CountsLinks s'
    × IsNumbered s'
delete-CountsLinks_example =
    delete-CountsLinks (env 0 0) small 2 small-IsTree small-CountsLinks small-IsNumbered refl refl
      refl (inr (refl, (file_block, refl)))
