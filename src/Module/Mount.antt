-- ===== src/Module/Mount.antt =====
-- What `vtfs_mount` gives the kernel once the module runs.
use vtfs.Base.{
  ℕ, ◌≡◌, refl, ap, ◌∙◌, ◌⊎◌, inl, inr, Bool, true, false, Option, none, some, [], ◌∷◌, ◌==◌, ◌^◌,
  if◌then◌else◌,
}
use vtfs.Base.Int.{ℤ, neg, is_zero, enomem}
use vtfs.Storage.State.{Store, Env, is_dir, dir_mode, root_ino, max_file_size}
use vtfs.Storage.Search.{vtfs_storage_get_by_ino}
use vtfs.Storage.Search.First.{get_by_ino-first}
use vtfs.Storage.Create.Init.{fresh, at_root, init-IsTree}
use vtfs.Module.{
  Inode, dir_ops, Super, vtfs_super_ops, vtfs_get_inode, vtfs_fill_super, vtfs_mount, vtfs_kill_sb,
  truncate_inode_pages_final, kill_anon_super,
}

-- What `mount_nodev` makes of a super block and the function that fills it: the super block, or the
-- error of the function.
abbrev pub Mounted : Type 0
Mounted = ℤ ⊎ Super

abbrev of_filled : ℤ × Super → Mounted
of_filled (ret, sb) = if is_zero ret then inr sb else inl ret

abbrev pub nodev : Super → (flags : ℕ) → (Super → ℤ × Super) → Mounted
nodev sb flags fill = of_filled (fill sb)

module _ (mount_nodev : (flags : ℕ) → (Super → ℤ × Super) → Mounted) (sb : Super)
    (documented : (flags : ℕ) (fill : Super → ℤ × Super)
      → mount_nodev flags fill ≡ nodev sb flags fill)
    (env : Env) (s : Store) (got : (env.new_entry == 0) ≡ false) (flags page_shift now : ℕ) where
  abbrev mount : Option Inode → Bool → Mounted
  mount new_inode made_root =
      vtfs_mount mount_nodev flags page_shift (fresh env s got) new_inode made_root now

  -- A mount of the storage of the root alone: without memory for the root's inode or dentry it is
  -- refused with -ENOMEM; else its root is a directory with two links that belongs to the superuser,
  -- under whose number the storage finds its own root, and which is truncated when the mount goes.
  pub data Ending (new_inode : Option Inode) (made_root : Bool) : Type 0 where
    refused :
        (new_inode ≡ none) ⊎ (made_root ≡ false)
        → mount new_inode made_root ≡ inl (neg enomem)
        → Ending new_inode made_root
    mounted :
        (filled : Super) (root : Inode)
        → mount new_inode made_root ≡ inr filled
        → filled.root ≡ some root
        → is_dir root.mode ≡ true
        → root.ops ≡ dir_ops
        → (root.nlink ≡ 2) × (root.uid ≡ 0) × (root.gid ≡ 0)
        → vtfs_storage_get_by_ino root.ino (fresh env s got)
          ≡ some ((fresh env s got).root, fresh env s got)
        → vtfs_kill_sb filled ≡ truncate_inode_pages_final root.ino ∷ kill_anon_super ∷ []
        → Ending new_inode made_root

  root_found :
      vtfs_storage_get_by_ino root_ino (fresh env s got) ≡ some (env.new_entry, fresh env s got)
  root_found =
      get_by_ino-first (fresh env s got) root_ino (init-IsTree env s got).1
      ∙ ap (λ p. some (p, fresh env s got)) (rw (at_root env s got) refl)

  abbrev root_inode : Inode
  root_inode = record {
    ino = root_ino;
    mode = dir_mode;
    uid = 0;
    gid = 0;
    atime = now;
    mtime = now;
    ctime = now;
    nlink = 2;
    ops = dir_ops;
  }

  abbrev root_super : Super
  root_super = record {
    magic = 0x56544653;
    blocksize = 2 ^ page_shift;
    blocksize_bits = page_shift;
    ops = vtfs_super_ops;
    maxbytes = max_file_size;
    root = some root_inode;
  }

  -- Where the kernel's `mount_nodev` returns the super block that the module has filled, or the
  -- module's error: a mount of the initialised storage ends as `Ending` says.
  pub vtfs_mount-Ending : (new_inode : Option Inode) (made_root : Bool) → Ending new_inode made_root
  unfolding vtfs_mount vtfs_fill_super vtfs_get_inode vtfs_kill_sb
  vtfs_mount-Ending none made_root = refused (inl refl) (documented flags _ ∙ rw got refl)
  vtfs_mount-Ending (some inode) false = refused (inr refl) (documented flags _ ∙ rw got refl)
  vtfs_mount-Ending (some inode) true =
      mounted root_super root_inode (documented flags _ ∙ rw got refl) refl refl refl
        (refl, refl, refl) root_found refl
