-- ===== src/Storage/Sound/Cases.antt =====
-- The calls on listed entries of a sound storage, by whether they are refused.
use vtfs.Base.{
  ℕ, ◌+◌, ◌^◌, ◌≤◌, ◌<◌, ◌≡◌, refl, sym, ◌⊎◌, inl, inr, true, false, some, List, [], ◌∷◌, ◌==◌,
  arith, Bool-cases, ==→eq, leb, leb→le,
}
use mathlib.Core.Path.{subst}
use vtfs.Base.Int.{neg, einval, efbig, ebusy, enotempty}
use vtfs.Base.Lists.{mem, length}
use vtfs.Base.Strings.{Bytes, str_eq}
use vtfs.Storage.State.{Ptr, Store, Env, is_dir, is_reg, max_file_size, load_lem}
use vtfs.Storage.Tree.{at, IsTree, Live-mem}
use vtfs.Storage.Contents.{vtfs_storage_read, vtfs_storage_write}
use vtfs.Storage.Contents.Refuse.{refuse_not_reg, refuse_write, too_big}
use vtfs.Storage.Remove.{vtfs_storage_delete_entry}
use vtfs.Storage.Remove.Refuse.{refuse_delete}
use vtfs.Storage.Remove.Refuse as Delete
use vtfs.Storage.Search.{vtfs_storage_lookup}
use vtfs.Storage.Search.First.{named, first-Finds, lookup-first}
use vtfs.Storage.Sound.{IsSound}

-- A creation fails where the home is no directory or a child has the name.
pub create_cases :
    (s : Store) (home : Ptr) (name : Bytes)
    → mem home s.all_entries ≡ true
    → ((is_dir (at s home).mode ≡ false)
        ⊎ ((q : Ptr) × (mem q (at s home).children ≡ true) × (str_eq (at s q).name name ≡ true)))
      ⊎ ((is_dir (at s home).mode ≡ true)
          × ((q : Ptr) → mem q (at s home).children ≡ true → str_eq (at s q).name name ≡ false))
create_cases s home name m = elim (Bool-cases (is_dir (at s home).mode)) [
  | inr other ↦ inl (inl other)
  | inl dir ↦ elim (first-Finds (named s name) (at s home).children) [
    | inl (child, same) ↦ inl (inr (_, child, same))
    | inr (zero, none_there) ↦ inr (dir, none_there)
  ]
]

children_cases : (ps : List Ptr) → (ps ≡ []) ⊎ ((q : Ptr) × (mem q ps ≡ true))
children_cases [] = inl refl
children_cases (p ∷ ps) = inr (p, ground arith)

module _ (s : Store) (t : IsTree s) where
  -- What has a child is a directory.
  pub child-dir :
      (p q : Ptr)
      → mem p s.all_entries ≡ true
      → mem q (at s p).children ≡ true
      → is_dir (at s p).mode ≡ true
  child-dir p q m child =
      let (listed, there, not_root) = t.child_listed p q m child in
      subst (λ r. is_dir (at s r).mode ≡ true) there (t.parent_dir q listed)

  pub delete_cases :
      (p : Ptr)
      → ((p == s.root) ≡ true)
        ⊎ (((p == s.root) ≡ false)
            × (((at s p).children ≡ []) ⊎ ((q : Ptr) × (mem q (at s p).children ≡ true))))
  delete_cases p = elim (Bool-cases (p == s.root)) [
    | inl root ↦ inl root
    | inr away ↦ inr (away, children_cases (at s p).children)
  ]

  pub delete_root :
      (env : Env) (p : Ptr)
      → (p == s.root) ≡ true
      → vtfs_storage_delete_entry env p s ≡ some (neg ebusy, s)
  delete_root env p root =
      let (root0, live) = Live-mem s s.root s.all_entries t.live t.root_listed in
      subst (λ q. vtfs_storage_delete_entry env q s ≡ some (neg ebusy, s))
        (sym (==→eq p s.root root)) (refuse_delete env s s.root ebusy (Delete.at_root root0))

  pub delete_full :
      (env : Env) (p q : Ptr)
      → mem p s.all_entries ≡ true
      → (p == s.root) ≡ false
      → mem q (at s p).children ≡ true
      → vtfs_storage_delete_entry env p s ≡ some (neg enotempty, s)
  delete_full env p q m away child =
      let (p0, live) = Live-mem s p s.all_entries t.live m in
      refuse_delete env s p enotempty (
        Delete.not_empty p0 away live (child-dir p q m child) (λ childless.
          let no_child : mem q (at s p).children ≡ false = rw childless refl in
          cc (child, no_child)))

-- A write is refused on what is no regular file, and where it ends behind the limit on the size.
pub write_cases :
    (s : Store) (p : Ptr) (bytes : Bytes) (offset : ℕ)
    → (is_reg (at s p).mode ≡ false)
      ⊎ ((is_reg (at s p).mode ≡ true)
          × ((offset + length bytes ≤ max_file_size) ⊎ (max_file_size < offset + length bytes)))
write_cases s p bytes offset = elim (Bool-cases (is_reg (at s p).mode)) [
  | inr other ↦ inl other
  | inl reg ↦ inr (
    reg,
    elim (Bool-cases (leb (offset + length bytes) max_file_size)) [
      | inl small ↦ inl (leb→le (offset + length bytes) max_file_size small)
      | inr big ↦ inr (ground arith)
    ],
  )
]

module _ (s : Store) (sound : IsSound s) (p : Ptr) (m : mem p s.all_entries ≡ true) where
  pub write_other :
      (env : Env) (bytes : Bytes) (offset : ℕ)
      → is_reg (at s p).mode ≡ false
      → vtfs_storage_write env p bytes offset s ≡ some (neg einval, s)
  write_other env bytes offset other =
      let (p0, live) = Live-mem s p s.all_entries sound.tree.live m in
      (refuse_not_reg env s p (at s p) sound.tree.unlocked bytes 0 offset p0 live other).0

  pub read_other :
      (env : Env) (len offset : ℕ)
      → is_reg (at s p).mode ≡ false
      → vtfs_storage_read env p len offset s ≡ some ((neg einval, []), s)
  read_other env len offset other =
      let (p0, live) = Live-mem s p s.all_entries sound.tree.live m in
      (refuse_not_reg env s p (at s p) sound.tree.unlocked [] len offset p0 live other).1

  pub write_too_big :
      (env : Env) (bytes : Bytes) (offset : ℕ)
      → is_reg (at s p).mode ≡ true
      → offset + length bytes < 2 ^ 64
      → max_file_size < offset + length bytes
      → vtfs_storage_write env p bytes offset s ≡ some (neg efbig, s)
  write_too_big env bytes offset reg fits big =
      refuse_write env s p (at s p) bytes offset sound.tree.unlocked efbig (sound.files p m reg)
        (too_big (omega arith))

  pub lookup_other :
      (name : Bytes) → is_dir (at s p).mode ≡ false → vtfs_storage_lookup p name s ≡ some (0, s)
  unfolding vtfs_storage_lookup
  lookup_other name other =
      let (p0, live) = Live-mem s p s.all_entries sound.tree.live m in
      rw (p0, load_lem p s (at s p) p0 live) (rw other)

  pub lookup_runs : (name : Bytes) → (q : Ptr) × (vtfs_storage_lookup p name s ≡ some (q, s))
  lookup_runs name = elim (Bool-cases (is_dir (at s p).mode)) [
    | inl dir ↦ (_, lookup-first s p name sound.tree m dir)
    | inr other ↦ (0, lookup_other name other)
  ]
