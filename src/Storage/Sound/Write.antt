-- ===== src/Storage/Sound/Write.antt =====
-- A write and a read of a sound storage.
use vtfs.Base.{
  ℕ, ◌≡◌, refl, ap, sym, ◌∙◌, ◌⊎◌, inl, inr, true, false, none, ◌==◌, Bool-cases, ==→eq, ==_refl,
}
use mathlib.Core.Path.{subst}
use vtfs.Base.Lists.{mem}
use vtfs.Base.Strings.{Bytes}
use vtfs.Storage.State.{Ptr, Entry, Store, Env, is_reg}
use vtfs.Storage.Tree.{at, entry_or_missing, Live-mem}
use vtfs.Storage.Remove.Discard.{Freeable}
use vtfs.Storage.Contents.File.{IsFile, Backed}
use vtfs.Storage.Tree.Shape.{SameShape-of_one, IsTree-SameShape}
use vtfs.Storage.Contents.Write.{Written}
use vtfs.Storage.Contents.Read.{accessed}
use vtfs.Storage.Sound.{
  IsSound, SameData, Alike, Alike-of, Alike-Freeable, Alike-IsFile, Origin, Owned-step,
}

Backed-Freeable : (s : Store) (e : Entry) → Backed s e → Freeable s e.buffer
Backed-Freeable s e (inl (null, zero_capacity)) = inl null
Backed-Freeable s e (inr (b, some_data, eb, len)) = inr (some_data, (b, eb))

module _ (env : Env) (s s' : Store) (p : Ptr) (bytes : Bytes) (offset : ℕ) (e' : Entry)
    (sound : IsSound s) (m : mem p s.all_entries ≡ true)
    (free_block : (s.block env.new_block ≡ none) ⊎ (env.new_block ≡ (at s p).buffer))
    (w : Written env s p (at s p) bytes offset s' e') where
  listed_before : (q : Ptr) → mem q s'.all_entries ≡ true → mem q s.all_entries ≡ true
  listed_before q i = rw w.all_entries at i

  pub at_written : at s' p ≡ e'
  at_written = ap entry_or_missing w.file.live

  same_block :
      (q : Ptr)
      → mem q s.all_entries ≡ true
      → (q == p) ≡ false
      → ((at s q).buffer ≡ 0) ⊎ (s'.block (at s q).buffer ≡ s.block (at s q).buffer)
  same_block q i n = elim (Bool-cases ((at s q).buffer == (at s p).buffer)) [
    | inl shared ↦
        inl (sound.owned.unshared q p i m n (==→eq (at s q).buffer (at s p).buffer shared))
    | inr other ↦ elim (Bool-cases ((at s q).buffer == env.new_block)) [
      | inl same ↦ elim (sound.owned.freeable q i) [
        | inl null ↦ inl null
        | inr (some_data, (b, eb)) ↦
            let e : (at s q).buffer ≡ env.new_block = ==→eq (at s q).buffer env.new_block same in
            elim free_block [
              | inl free ↦ absurd (cc (e, eb, free))
              | inr grown ↦
                  let same_data : ((at s q).buffer == (at s p).buffer) ≡ true =
                    rw (e ∙ grown) (==_refl (at s p).buffer) in
                  absurd (cc (same_data, other))
            ]
      ]
      | inr away ↦ inr (w.other_blocks (at s q).buffer other away)
    ]
  ]

  pub write-Alike : (q : Ptr) → mem q s.all_entries ≡ true → (q == p) ≡ false → Alike s s' q
  write-Alike q i n =
      Alike-of s s' q (at s q)
        (w.other_entries q n ∙ (Live-mem s q s.all_entries sound.tree.live i).1)
        (refl, refl, refl, refl, refl, refl, refl) (same_block q i n)

  -- The file that is written to, or another entry.
  listed :
      (P : Ptr → Type 0)
      → P p
      → ((q : Ptr) → mem q s.all_entries ≡ true → (q == p) ≡ false → P q)
      → (q : Ptr) → mem q s'.all_entries ≡ true
      → P q
  listed P h k q i = elim (Bool-cases (q == p)) [
    | inl same ↦ subst P (sym (==→eq q p same)) h
    | inr other ↦ k q (listed_before q i) other
  ]

  written-IsFile : IsFile s' p (at s' p)
  written-IsFile = rw at_written w.file

  file-Origin : Origin s s' sound.owned p p
  file-Origin =
      let data_now : (at s' p).buffer ≡ e'.buffer = ap (λ (e : Entry). e.buffer) at_written in
      elim w.place [
        | inl same ↦ inr (inl (m, data_now ∙ same))
        | inr new ↦ elim free_block [
          | inl free ↦ inr (inr (refl, ap s.block (data_now ∙ new) ∙ free))
          | inr grown ↦ inr (inl (m, data_now ∙ new ∙ grown))
        ]
      ]

  pub write-IsSound : IsSound s'
  write-IsSound = record {
    tree = w.tree;
    owned =
        Owned-step s s' sound.owned p
          (listed (λ q. Freeable s' (at s' q).buffer)
            (Backed-Freeable s' (at s' p) written-IsFile.backed)
            (λ q i n. Alike-Freeable s s' q (write-Alike q i n) (sound.owned.freeable q i)))
          (listed (Origin s s' sound.owned p) file-Origin
            (λ q i n. inr (inl (i, (write-Alike q i n).buffer))));
    files =
        listed (λ q. is_reg (at s' q).mode ≡ true → IsFile s' q (at s' q)) (λ reg. written-IsFile)
          (λ q i n reg.
            let a = write-Alike q i n in
            Alike-IsFile s s' q a (sound.files q i (sym (ap is_reg a.mode) ∙ reg)));
  }

module _ (env : Env) (s : Store) (p : Ptr) (len offset : ℕ) (sound : IsSound s)
    (m : mem p s.all_entries ≡ true) (f : IsFile s p (at s p)) where
  abbrev after : Store
  after = accessed env s p (at s p) len offset sound.tree.unlocked f

  pub read-Alike : (q : Ptr) → mem q s.all_entries ≡ true → Alike s after q
  read-Alike q i = elim (Bool-cases (q == p)) [
    | inl same ↦
        Alike-of s after q (record (at s p) { atime = env.now }) (rw same refl)
          (subst (λ (r : Ptr). SameData (at s p) (at s r)) (sym (==→eq q p same))
            (refl, refl, refl, refl, refl, refl, refl))
          (inr refl)
    | inr other ↦
        Alike-of s after q (at s q) (rw other (Live-mem s q s.all_entries sound.tree.live i).1)
          (refl, refl, refl, refl, refl, refl, refl) (inr refl)
  ]

  pub read-IsSound : IsSound after
  read-IsSound = record {
    tree = IsTree-SameShape s after sound.tree (
        SameShape-of_one s after p (at s p) (record (at s p) { atime = env.now }) sound.tree f.live
          (rw (==_refl p) refl) (λ q n. rw n refl) (refl, refl, refl) sound.tree.unlocked refl
          refl);
    owned =
        Owned-step s after sound.owned p
          (λ q i. Alike-Freeable s after q (read-Alike q i) (sound.owned.freeable q i))
          (λ q i. inr (inl (i, (read-Alike q i).buffer)));
    files = λ q i reg.
        let a = read-Alike q i in
        Alike-IsFile s after q a (sound.files q i (sym (ap is_reg a.mode) ∙ reg));
  }
