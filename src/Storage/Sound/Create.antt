-- ===== src/Storage/Sound/Create.antt =====
-- A creation in a sound storage.
use vtfs.Base.{
  ℕ, ◌≡◌, refl, ap, sym, ◌∙◌, inl, inr, Bool, true, false, Option, none, some, ◌∷◌, ◌==◌, arith,
  Bool-cases, ==→eq, if◌then◌else◌,
}
use mathlib.Core.Path.{subst}
use vtfs.Base.Lists.{mem}
use vtfs.Base.Strings.{Bytes}
use vtfs.Storage.State.{Ptr, Entry, Block, Store, Env, is_reg}
use vtfs.Storage.Tree.{at, entry_or_missing, Live-mem}
use vtfs.Storage.Remove.Discard.{Freeable}
use vtfs.Storage.Contents.File.{IsFile}
use vtfs.Storage.Create.{blank}
use vtfs.Storage.Create.Link.{with_child}
use vtfs.Storage.Create.Made.{Made}
use vtfs.Storage.Sound.{IsSound, Alike, Alike-of, Alike-Freeable, Alike-IsFile, Origin, Owned-step}

module _ (env : Env) (s s' : Store) (home : Ptr) (name : Bytes) (mode ino : ℕ) (skip_sync : Bool)
    (sound : IsSound s) (m : mem home s.all_entries ≡ true) (got : (env.new_entry == 0) ≡ false)
    (unused : s.entry env.new_entry ≡ none) (d : Made env s home name mode ino skip_sync s') where
  abbrev pub made_entry : Entry
  made_entry = record (blank name mode (if ino == 0 then s.next_ino else ino) env.now) {
    parent = home;
  }

  not_fresh : (q : Ptr) → mem q s.all_entries ≡ true → (q == env.new_entry) ≡ false
  not_fresh q i = elim (Bool-cases (q == env.new_entry)) [
    | inl same ↦
        let e : s.entry q ≡ none = ap s.entry (==→eq q env.new_entry same) ∙ unused in
        absurd (cc (e, (Live-mem s q s.all_entries sound.tree.live i).1))
    | inr other ↦ other
  ]

  same_block : (b : Ptr) → s'.block b ≡ s.block b
  same_block b = ap (λ (f : Ptr → Option Block). f b) d.blocks

  pub create-Alike : (q : Ptr) → mem q s.all_entries ≡ true → Alike s s' q
  create-Alike q i = elim (Bool-cases (q == home)) [
    | inl same ↦ subst (Alike s s') (sym (==→eq q home same)) (
        Alike-of s s' home (with_child env.new_entry mode (at s home)) d.home_entry
          (refl, refl, refl, refl, refl, refl, refl) (inr (same_block (at s home).buffer)))
    | inr other ↦
        Alike-of s s' q (at s q)
          (d.others q other (not_fresh q i) ∙ (Live-mem s q s.all_entries sound.tree.live i).1)
          (refl, refl, refl, refl, refl, refl, refl) (inr (same_block (at s q).buffer))
  ]

  pub at_new_entry : at s' env.new_entry ≡ made_entry
  at_new_entry = ap entry_or_missing d.new_entry

  new-IsFile :
      is_reg (at s' env.new_entry).mode ≡ true → IsFile s' env.new_entry (at s' env.new_entry)
  new-IsFile reg =
      let size0 : (at s' env.new_entry).size ≡ 0 = ap (λ (e : Entry). e.size) at_new_entry in
      let capacity0 : (at s' env.new_entry).capacity ≡ 0 =
        ap (λ (e : Entry). e.capacity) at_new_entry in
      record {
        not_null = got;
        live = d.new_entry ∙ ap some (sym at_new_entry);
        reg = reg;
        size_le = rw size0 (rw capacity0 (omega arith));
        capacity_le = rw capacity0 (omega arith);
        backed = inl (ap (λ (e : Entry). e.buffer) at_new_entry, capacity0);
      }

  -- The new entry, or an old one.
  listed :
      (P : Ptr → Type 0)
      → P env.new_entry
      → ((q : Ptr) → mem q s.all_entries ≡ true → P q)
      → (q : Ptr) → mem q s'.all_entries ≡ true
      → P q
  listed P h k q i = elim (Bool-cases (q == env.new_entry)) [
    | inl same ↦ subst P (sym (==→eq q env.new_entry same)) h
    | inr other ↦
        let j : mem q (env.new_entry ∷ s.all_entries) ≡ true = rw d.all_entries at i in
        k q (rw other at j)
  ]

  pub create-IsSound : IsSound s'
  create-IsSound =
      let no_data : (at s' env.new_entry).buffer ≡ 0 = ap (λ (e : Entry). e.buffer) at_new_entry in
      record {
        tree = d.tree;
        owned =
            Owned-step s s' sound.owned 0
              (listed (λ q. Freeable s' (at s' q).buffer) (inl no_data)
                (λ q i. Alike-Freeable s s' q (create-Alike q i) (sound.owned.freeable q i)))
              (listed (Origin s s' sound.owned 0) (inl no_data)
                (λ q i. inr (inl (i, (create-Alike q i).buffer))));
        files =
            listed (λ q. is_reg (at s' q).mode ≡ true → IsFile s' q (at s' q)) new-IsFile
              (λ q i reg.
                let a = create-Alike q i in
                Alike-IsFile s s' q a (sound.files q i (sym (ap is_reg a.mode) ∙ reg)));
      }
