-- ===== src/Storage/Create/Init.antt =====
-- The storage after `vtfs_storage_init`.
use vtfs.Base.{◌+◌, ◌≡◌, refl, true, false, some, [], ◌∷◌, ◌==◌, arith, sym, ==→eq, ==_refl}
use mathlib.Core.Path.{subst}
use vtfs.Base.Int.{pos}
use vtfs.Base.Lists.{mem}
use vtfs.Storage.State.{Ptr, Entry, Store, Env, update, dir_mode, root_ino}
use vtfs.Storage.Tree.{at, IsTree}
use vtfs.Storage.Path.{slash}
use vtfs.Storage.Create.{blank, vtfs_storage_init}

module _ (env : Env) (s : Store) (got : (env.new_entry == 0) ≡ false) where
  abbrev root_entry : Entry
  root_entry = record (blank slash dir_mode root_ino env.now) { parent = env.new_entry; nlink = 2 }

  -- the storage with its root
  abbrev pub fresh : Store
  fresh = record s {
    entry =
        update (update s.entry env.new_entry (some (blank slash dir_mode root_ino env.now)))
          env.new_entry (some root_entry);
    root = env.new_entry;
    all_entries = env.new_entry ∷ [];
    next_ino = root_ino + 1;
    locked = false;
  }

  pub at_root : at fresh env.new_entry ≡ root_entry
  at_root = rw (==_refl env.new_entry)

  -- the root is the only entry
  pub only :
      (P : Ptr → Type 0) → P env.new_entry → (p : Ptr) → mem p (env.new_entry ∷ []) ≡ true → P p
  only P h p m =
      let same : (p == env.new_entry) ≡ true = ground arith in
      subst P (sym (==→eq p env.new_entry same)) h

  fresh-IsTree : IsTree fresh
  fresh-IsTree = record {
    unlocked = refl;
    root_listed = ground arith;
    root_dir = rw at_root refl;
    root_parent = rw at_root refl;
    live = (got, rw (==_refl env.new_entry), tt);
    distinct = (refl, tt);
    older = (ground arith, tt);
    parent_dir = only _ (rw at_root (rw at_root refl));
    parent_listed = only _ (rw at_root (ground arith));
    child_listed = λ p q m.
        only
          (λ r.
            mem q (at fresh r).children ≡ true
            → (mem q fresh.all_entries ≡ true)
              × ((at fresh q).parent ≡ r)
              × ((q == fresh.root) ≡ false))
          (λ i. let z : mem q [] ≡ true = rw at_root at i in absurd (cc)) p m;
    listed_child = λ q m n. absurd (ground arith);
    children_distinct = only _ (rw at_root tt);
  }

  -- With memory for the root, the initialisation returns 0 and leaves a well-formed storage of the
  -- root alone, whatever the storage held before.
  pub init-IsTree : (vtfs_storage_init env s ≡ some (pos 0, fresh)) × IsTree fresh
  unfolding vtfs_storage_init
  init-IsTree = (ground arith, fresh-IsTree)
