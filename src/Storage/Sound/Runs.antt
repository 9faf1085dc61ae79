-- ===== src/Storage/Sound/Runs.antt =====
-- The operations on a sound storage, where they are not refused.
use vtfs.Base.{
  ℕ, ◌+◌, ◌≤◌, ◌≡◌, ◌⊎◌, refl, inl, inr, Bool, true, false, Option, none, some, [], ◌==◌,
  Bool-cases, ltb,
}
use vtfs.Base.Int.{ℤ, pos}
use vtfs.Base.Lists.{mem, length}
use vtfs.Base.Strings.{Bytes, str_eq}
use vtfs.Storage.State.{Ptr, Store, Env, is_dir, is_reg, max_file_size}
use vtfs.Storage.Tree.{at}
use vtfs.Storage.Contents.{vtfs_storage_read, vtfs_storage_write}
use vtfs.Storage.Contents.File.{IsFile}
use vtfs.Storage.Contents.Read.{accessed, read-slice}
use vtfs.Storage.Contents.Write.{write-Written}
use vtfs.Storage.Create.{create_entry_internal}
use vtfs.Storage.Create.Init.{fresh, at_root, only, init-IsTree}
use vtfs.Storage.Create.Made.{create-Made}
use vtfs.Storage.Remove.{vtfs_storage_delete_entry}
use vtfs.Storage.Remove.Gone.{delete-Gone}
use vtfs.Storage.Cleanup.Shrunk.{Owned}
use vtfs.Storage.Sound.{IsSound}
use vtfs.Storage.Sound.Create.{create-IsSound}
use vtfs.Storage.Sound.Delete.{delete-IsSound}
use vtfs.Storage.Sound.Write.{write-IsSound, read-IsSound}

pub fresh-Owned :
    (env : Env) (s : Store) (got : (env.new_entry == 0) ≡ false) → Owned (fresh env s got)
fresh-Owned env s got = record {
  freeable = λ p m. inl (no_data p m);
  unshared = λ p q m i n same. no_data p m;
}
  where
    no_data :
        (p : Ptr) → mem p (fresh env s got).all_entries ≡ true → (at (fresh env s got) p).buffer ≡ 0
    no_data p m =
        only env s got (λ q. (at (fresh env s got) q).buffer ≡ 0) (rw (at_root env s got) refl) p m

pub fresh-IsSound :
    (env : Env) (s : Store) (got : (env.new_entry == 0) ≡ false) → IsSound (fresh env s got)
fresh-IsSound env s got = record {
  tree = (init-IsTree env s got).1;
  owned = fresh-Owned env s got;
  files =
      only env s got
        (λ q.
          is_reg (at (fresh env s got) q).mode ≡ true
          → IsFile (fresh env s got) q (at (fresh env s got) q))
        (λ reg.
          let no : is_reg (at (fresh env s got) env.new_entry).mode ≡ false =
            rw (at_root env s got) refl in
          absurd (cc (reg, no)));
}

module _ (s : Store) (sound : IsSound s) where
  -- Each operation runs, and what it leaves is sound again.
  abbrev pub Runs : {A : Type 0} → A → Option (A × Store) → Type 0
  Runs a run = (s' : Store) × (run ≡ some (a, s')) × IsSound s'

  pub create-Runs :
      (env : Env) (home : Ptr) (name : Bytes) (mode : ℕ) (skip_sync : Bool)
      → mem home s.all_entries ≡ true
      → is_dir (at s home).mode ≡ true
      → ((q : Ptr) → mem q (at s home).children ≡ true → str_eq (at s q).name name ≡ false)
      → (env.new_entry == 0) ≡ false
      → s.entry env.new_entry ≡ none
      → Runs env.new_entry (create_entry_internal env home name mode 0 skip_sync s)
  create-Runs env home name mode skip_sync m dir unnamed got unused =
      let (s', run, d) =
        create-Made env s home name mode 0 skip_sync sound.tree m dir unnamed got unused in
      (s', run, create-IsSound env s s' home name mode 0 skip_sync sound m got unused d)

  pub delete-Runs :
      (env : Env) (entry : Ptr)
      → mem entry s.all_entries ≡ true
      → (entry == s.root) ≡ false
      → (at s entry).children ≡ []
      → Runs (pos 0) (vtfs_storage_delete_entry env entry s)
  delete-Runs env entry m not_root childless =
      let (s', run, g) =
        delete-Gone env s entry sound.tree m not_root childless (sound.owned.freeable entry m) in
      (s', run, delete-IsSound env s s' entry sound m g)

  pub write-Runs :
      (env : Env) (p : Ptr) (bytes : Bytes) (offset : ℕ)
      → mem p s.all_entries ≡ true
      → is_reg (at s p).mode ≡ true
      → (env.new_block == 0) ≡ false
      → (s.block env.new_block ≡ none) ⊎ (env.new_block ≡ (at s p).buffer)
      → offset + length bytes ≤ max_file_size
      → Runs (pos (length bytes)) (vtfs_storage_write env p bytes offset s)
  write-Runs env p bytes offset m reg got free fits =
      let (s', e', run, w, sent) =
        write-Written env s p (at s p) bytes offset sound.tree m (sound.files p m reg)
          (record { got = got; unused = free }) fits in
      (s', run, write-IsSound env s s' p bytes offset e' sound m free w)

  pub read-Runs :
      (env : Env) (p : Ptr) (len offset : ℕ)
      → mem p s.all_entries ≡ true
      → is_reg (at s p).mode ≡ true
      → (result : ℤ × Bytes) × Runs result (vtfs_storage_read env p len offset s)
  read-Runs env p len offset m reg =
      let f = sound.files p m reg in
      let run = read-slice env s p (at s p) len offset sound.tree.unlocked f in
      elim (Bool-cases (ltb offset (at s p).size)) [
        | inl inside ↦
            let inside_run = rw inside at run in
            (
              _,
              (
                accessed env s p (at s p) len offset sound.tree.unlocked f,
                inside_run,
                read-IsSound env s p len offset sound m f,
              ),
            )
        | inr outside ↦ let outside_run = rw outside at run in (_, (s, outside_run, sound))
      ]
