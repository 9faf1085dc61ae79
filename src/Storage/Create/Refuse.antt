-- ===== src/Storage/Create/Refuse.antt =====
-- The creations that are refused.
use vtfs.Base.{ℕ, ◌≡◌, Bool, true, false, some, ◌==◌, ◌⊎◌, inl, inr, Bool-cases}
use vtfs.Base.Lists.{mem}
use vtfs.Base.Strings.{Bytes, str_eq}
use vtfs.Storage.State.{Ptr, Store, Env, is_dir, load_lem}
use vtfs.Storage.Tree.{at, IsTree, Live-mem}
use vtfs.Storage.Search.First.{first-ne-null, named, lookup-first}
use vtfs.Storage.Create.{create_entry_internal}

module _ (env : Env) (s : Store) (home : Ptr) (name : Bytes) (mode ino : ℕ) (skip_sync : Bool)
    (t : IsTree s) (m : mem home s.all_entries ≡ true) where
  live_home : ((home == 0) ≡ false) × (s.entry home ≡ some (at s home))
  live_home = Live-mem s home s.all_entries t.live m

  no_null_child : mem 0 (at s home).children ≡ false
  no_null_child = elim (Bool-cases (mem 0 (at s home).children)) [
    | inl i ↦ absurd (cc (Live-mem s 0 s.all_entries t.live (t.child_listed home 0 m i).0).0)
    | inr n ↦ n
  ]

  -- In a well-formed storage, for a listed entry as the parent: a creation in what is no directory,
  -- and one of a name that a child has, return NULL and change nothing.
  pub refuse_create :
      (is_dir (at s home).mode ≡ false)
        ⊎ ((q : Ptr) × (mem q (at s home).children ≡ true) × (str_eq (at s q).name name ≡ true))
      → create_entry_internal env home name mode ino skip_sync s ≡ some (0, s)
  unfolding create_entry_internal
  refuse_create (inl other) =
      rw (live_home.0, load_lem home s (at s home) live_home.0 live_home.1) (rw other)
  refuse_create (inr (q, i, same)) =
      let run = load_lem home s (at s home) live_home.0 live_home.1 in
      elim (Bool-cases (is_dir (at s home).mode)) [
        | inl dir ↦
            rw (live_home.0, run)
              (rw dir (
                rw (lookup-first s home name t m dir)
                  (rw (first-ne-null (named s name) _ q i same no_null_child))))
        | inr other ↦ rw (live_home.0, run) (rw other)
      ]
