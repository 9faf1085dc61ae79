-- ===== src/Storage/Sound/Delete.antt =====
-- A deletion in a sound storage.
use vtfs.Base.{◌≡◌, refl, ap, sym, ◌∙◌, ◌⊎◌, inl, inr, true, false, ◌==◌, arith, Bool-cases, ==→eq}
use vtfs.Base.Lists.{mem, list_del, mem-list_del_self, mem-list_del_ne}
use vtfs.Storage.State.{Ptr, Store, Env, is_reg}
use vtfs.Storage.Tree.{at}
use vtfs.Storage.Remove.Gone.{Gone, after_unlink, after_delete}
use vtfs.Storage.Sound.{
  IsSound, SameData, Alike, Alike-of, Alike-Freeable, Alike-IsFile, Owned-step,
}

module _ (env : Env) (s s' : Store) (entry : Ptr) (sound : IsSound s)
    (m : mem entry s.all_entries ≡ true) (g : Gone env s entry s') where
  kept :
      (q : Ptr)
      → mem q s'.all_entries ≡ true
      → (mem q s.all_entries ≡ true) × ((q == entry) ≡ false)
  kept q i =
      let j : mem q (list_del entry s.all_entries) ≡ true = rw g.all_entries at i in
      elim (Bool-cases (q == entry)) [
        | inl same ↦
            let e : q ≡ entry = ==→eq q entry same in
            absurd (cc (j, e, mem-list_del_self entry s.all_entries sound.tree.distinct))
        | inr other ↦ (rw (mem-list_del_ne entry q s.all_entries other) at j, other)
      ]

  unlink_data : (q : Ptr) → SameData (after_unlink s entry q) (at s q)
  unlink_data q = elim (Bool-cases (q == (at s entry).parent)) [
    | inl home ↦ rw home (refl, refl, refl, refl, refl, refl, refl)
    | inr away ↦ rw away (refl, refl, refl, refl, refl, refl, refl)
  ]

  delete_data : (q : Ptr) → SameData (after_delete s entry q) (at s q)
  delete_data q = elim (Bool-cases ((after_unlink s entry q).ino == (at s entry).ino)) [
    | inl link ↦ rw link (unlink_data q)
    | inr other ↦ rw other (unlink_data q)
  ]

  -- The data of another entry is not freed.
  same_block :
      (q : Ptr)
      → mem q s.all_entries ≡ true
      → (q == entry) ≡ false
      → ((at s q).buffer ≡ 0) ⊎ (s'.block (at s q).buffer ≡ s.block (at s q).buffer)
  same_block q i n = elim (Bool-cases ((at s q).buffer == (at s entry).buffer)) [
    | inl shared ↦
        inl (sound.owned.unshared q entry i m n (==→eq (at s q).buffer (at s entry).buffer shared))
    | inr other ↦ inr (g.blocks (at s q).buffer ∙ ground arith)
  ]

  pub delete-Alike : (q : Ptr) → mem q s'.all_entries ≡ true → Alike s s' q
  delete-Alike q i =
      let (j, n) = kept q i in
      Alike-of s s' q (after_delete s entry q) (g.listed q j n) (delete_data q) (same_block q j n)

  pub delete-IsSound : IsSound s'
  delete-IsSound = record {
    tree = g.tree;
    owned =
        Owned-step s s' sound.owned 0
          (λ q i. Alike-Freeable s s' q (delete-Alike q i) (sound.owned.freeable q (kept q i).0))
          (λ q i. inr (inl ((kept q i).0, (delete-Alike q i).buffer)));
    files = λ q i reg.
        let a = delete-Alike q i in
        Alike-IsFile s s' q a (sound.files q (kept q i).0 (sym (ap is_reg a.mode) ∙ reg));
  }
