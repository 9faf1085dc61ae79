-- ===== src/Storage/Create/Found.antt =====
-- A lookup after a creation.
use vtfs.Base.{
  ℕ, ◌≤◌, ◌<◌, ◌≡◌, Bool, true, false, none, some, ◌∷◌, ◌==◌, arith, ap, ◌∙◌, inl, inr, Bool-cases,
  ==→eq,
}
use mathlib.Core.Path.{subst}
use vtfs.Base.Lists.{mem, length, take, take_all, length-take}
use vtfs.Base.Strings.{Bytes, str_eq, str_eq_refl, str_eq→eq}
use vtfs.Storage.State.{Ptr, Entry, Store, Env, is_dir, max_name_len}
use vtfs.Storage.Tree.{entry_or_missing, at, IsTree}
use vtfs.Storage.Search.{vtfs_storage_lookup}
use vtfs.Storage.Search.First.{first, first_none, named, lookup-first}
use vtfs.Storage.Create.{create_entry_internal}
use vtfs.Storage.Create.Made.{Made, create-Made}

module _ (env : Env) (s : Store) (home : Ptr) (name : Bytes) (mode ino : ℕ) (skip_sync : Bool)
    (t : IsTree s) (m : mem home s.all_entries ≡ true) (dir : is_dir (at s home).mode ≡ true)
    (none_named : (q : Ptr) → mem q (at s home).children ≡ true → str_eq (at s q).name name ≡ false)
    (got : (env.new_entry == 0) ≡ false) (unused : s.entry env.new_entry ≡ none) where
  abbrev Created : Store → Type 0
  Created s' = create_entry_internal env home name mode ino skip_sync s ≡ some (env.new_entry, s')

  home_after :
      (s' : Store)
      → Made env s home name mode ino skip_sync s'
      → (mem home s'.all_entries ≡ true)
        × (is_dir (at s' home).mode ≡ true)
        × ((at s' home).children ≡ env.new_entry ∷ (at s home).children)
  home_after s' d = (
    rw d.all_entries (ground arith),
    rw (ap entry_or_missing d.home_entry) dir,
    ap (λ (e : Entry). e.children) (ap entry_or_missing d.home_entry),
  )

  new_name :
      (s' : Store)
      → Made env s home name mode ino skip_sync s'
      → (at s' env.new_entry).name ≡ take max_name_len name
  new_name s' d = ap (λ (e : Entry). e.name) (ap entry_or_missing d.new_entry)

  found_first :
      (s' : Store)
      → Made env s home name mode ino skip_sync s'
      → length name ≤ max_name_len
      → first (named s' name) (at s' home).children ≡ env.new_entry
  found_first s' d short =
      let fits : (at s' env.new_entry).name ≡ name =
        new_name s' d ∙ take_all max_name_len name short in
      let hit : named s' name env.new_entry ≡ true = rw fits (str_eq_refl name) in
      rw (home_after s' d).2 (rw hit)

  cut_differs : max_name_len < length name → str_eq (take max_name_len name) name ≡ false
  cut_differs long = elim (Bool-cases (str_eq (take max_name_len name) name)) [
    | inl same ↦ absurd (
        omega (
          arith,
          ap (λ (r : Bytes). length r) (str_eq→eq (take max_name_len name) name same),
          length-take {0} max_name_len name,
        ))
    | inr other ↦ other
  ]

  unnamed :
      (s' : Store)
      → Made env s home name mode ino skip_sync s'
      → max_name_len < length name
      → (q : Ptr) → mem q (at s' home).children ≡ true
      → named s' name q ≡ false
  unnamed s' d long q i = elim (Bool-cases (q == env.new_entry)) [
    | inl new ↦ rw (==→eq q env.new_entry new) (rw (new_name s' d) (cut_differs long))
    | inr old ↦ elim (Bool-cases (q == home)) [
      | inl at_home ↦ rw (==→eq q home at_home) (
          rw (ap entry_or_missing d.home_entry) (
            none_named home
              (subst (λ r. mem r (at s home).children ≡ true) (==→eq q home at_home) (was i old))))
      | inr away ↦ rw (ap entry_or_missing (d.others q away old)) (none_named q (was i old))
    ]
  ]
    where
      was :
          mem q (at s' home).children ≡ true
          → (q == env.new_entry) ≡ false
          → mem q (at s home).children ≡ true
      was i' n =
          let j : mem q (env.new_entry ∷ (at s home).children) ≡ true =
            rw (home_after s' d).2 at i' in
          ground arith

  -- In a well-formed storage, where a listed directory has no child of that name and the allocator
  -- gives an address that no entry has, an entry with a name of at most 255 bytes is made, and a
  -- lookup of that name then returns it.
  pub lookup-create :
      length name ≤ max_name_len
      → (s' : Store) × Created s' × (vtfs_storage_lookup home name s' ≡ some (env.new_entry, s'))
  lookup-create short =
      let (s', run, d) =
        create-Made env s home name mode ino skip_sync t m dir none_named got unused in
      let (m', dir', children') = home_after s' d in
      (
        s',
        run,
        lookup-first s' home name d.tree m' dir'
            ∙ ap (λ (r : Ptr). some (r, s')) (found_first s' d short),
      )

  -- Under the same conditions, an entry with a name of more than 255 bytes is made, but a lookup of
  -- the name that it was made with returns NULL.
  pub lookup-create_long :
      max_name_len < length name
      → (s' : Store) × Created s' × (vtfs_storage_lookup home name s' ≡ some (0, s'))
  lookup-create_long long =
      let (s', run, d) =
        create-Made env s home name mode ino skip_sync t m dir none_named got unused in
      let (m', dir', children') = home_after s' d in
      (
        s',
        run,
        lookup-first s' home name d.tree m' dir'
            ∙ ap (λ (r : Ptr). some (r, s')) (first_none (named s' name) _ (unnamed s' d long)),
      )
