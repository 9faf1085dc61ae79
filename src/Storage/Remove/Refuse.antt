-- ===== src/Storage/Remove/Refuse.antt =====
-- The deletions that are refused.
use vtfs.Base.{ℕ, ◌≡◌, ◌≢◌, refl, true, false, some, List, [], ◌∷◌, ◌==◌, ==_refl}
use vtfs.Base.Int.{neg, einval, ebusy, enotempty}
use vtfs.Storage.State.{Ptr, Entry, Store, Env, is_dir, load_lem}
use vtfs.Storage.Remove.{is_empty, vtfs_storage_delete_entry}

-- The errors of `vtfs_storage_delete_entry`, and when it returns each.
pub data Refusal (s : Store) : Ptr → ℕ → Type 0 where
  null : Refusal s 0 einval
  at_root : (s.root == 0) ≡ false → Refusal s s.root ebusy
  not_empty :
      {p : Ptr} {e : Entry}
      → (p == 0) ≡ false
      → (p == s.root) ≡ false
      → s.entry p ≡ some e
      → is_dir e.mode ≡ true
      → e.children ≢ []
      → Refusal s p enotempty

not-is_empty : (cs : List Ptr) → cs ≢ [] → is_empty cs ≡ false
not-is_empty [] n = absurd (n refl)
not-is_empty (c ∷ cs) n = refl

-- Deleting NULL is refused with -EINVAL, deleting the root with -EBUSY and deleting a directory that
-- has children with -ENOTEMPTY; the storage is as it was.
pub refuse_delete :
    (env : Env) (s : Store) (p : Ptr) (code : ℕ)
    → Refusal s p code
    → vtfs_storage_delete_entry env p s ≡ some (neg code, s)
unfolding vtfs_storage_delete_entry
refuse_delete env s p code null = refl
refuse_delete env s p code (at_root r0) = rw r0 (rw (==_refl s.root))
refuse_delete env s p code (not_empty {e = e} p0 nr live d n) =
    rw p0 (rw nr (rw (load_lem p s e p0 live) (rw d (rw (not-is_empty e.children n)))))
