-- ===== src/Storage/Create/Count.antt =====
-- What `vtfs_storage_add_link` does: each entry with the inode number gets the new count.
use vtfs.Base.{
  ℕ, ◌+◌, ◌%◌, ◌^◌, ◌≡◌, refl, ap, sym, ◌∙◌, Bool, true, false, ◌&&◌, some, List, [], ◌∷◌, ◌==◌,
  arith, inl, inr, Bool-cases, if◌then◌else◌,
}
use vtfs.Base.Int.{pos}
use vtfs.Base.Lists.{mem, Distinct}
use vtfs.Base.Strings.{Bytes}
use vtfs.Storage.State.{Ptr, Entry, Store, put_entry, load_lem, change_lem, is_dir}
use vtfs.Storage.Tree.{at, Live, Live-mem}
use vtfs.Storage.Tree.Shape.{Live-build}
use vtfs.Storage.Tree.Marked.{Marked, stepped, stepped-Live, stepped-Marked}
use vtfs.Storage.Create.{set_links, vtfs_storage_add_link}

abbrev pub counted : ℕ → Entry → Entry
counted count e = record e { nlink = count }

module _ (ino count : ℕ) where
  set_step :
      (s : Store) (p : Ptr) (ps : List Ptr)
      → (p == 0) ≡ false
      → s.entry p ≡ some (at s p)
      → set_links ino count (p ∷ ps) s ≡ (
          if (at s p).ino == ino
          then set_links ino count ps (put_entry p (some (counted count (at s p))) s)
          else set_links ino count ps s)
  unfolding set_links
  set_step s p ps p0 live =
      rw (load_lem p s (at s p) p0 live) (elim (Bool-cases ((at s p).ino == ino)) [
        | inl hit ↦ rw hit (rw (change_lem p (counted count) s (at s p) p0 live))
        | inr miss ↦ rw miss
      ])

  set_nil : (s : Store) → set_links ino count [] s ≡ some (tt, s)
  unfolding set_links
  set_nil s = refl

  pub set_lem :
      (ps : List Ptr) (s : Store)
      → Live s ps
      → Distinct ps
      → (s' : Store) × (set_links ino count ps s ≡ some (tt, s'))
        × Marked (counted count) ino ps s s'
  set_lem [] s live distinct = (s, set_nil s, record { entry = λ q. refl; rest = refl })
  set_lem (p ∷ ps) s (p0, ep, live) (out, distinct) = elim (Bool-cases ((at s p).ino == ino)) [
    | inl hit ↦
        let s1 = stepped (counted count) ino s p ps live out ep hit in
        let (s', run, d) =
          set_lem ps s1 (stepped-Live (counted count) ino s p ps live out ep hit) distinct in
        (
          s',
          set_step s p ps p0 ep ∙ rw hit run,
          stepped-Marked (counted count) ino s p ps live out ep hit s' d,
        )
    | inr miss ↦
        let (s', run, d) = set_lem ps s live distinct in
        (
          s',
          set_step s p ps p0 ep ∙ rw miss run,
          record { entry = λ q. ground (arith, d.entry q); rest = d.rest },
        )
  ]

-- The storage after a link is counted.
pub record Counted (s : Store) (target : Ptr) (s' : Store) : Type 0 where
  pub entry :
      (q : Ptr)
      → s'.entry q ≡ (
          if mem q s.all_entries && ((at s q).ino == (at s target).ino)
          then some (counted (((at s target).nlink + 1) % 2 ^ 32) (at s q))
          else s.entry q)
  pub rest : s' ≡ record s { entry = s'.entry }

module _ (s : Store) (target home : Ptr) (name : Bytes) (unlocked : s.locked ≡ false)
    (live : Live s s.all_entries) (distinct : Distinct s.all_entries)
    (m : mem target s.all_entries ≡ true) (no_dir : is_dir (at s target).mode ≡ false)
    (home0 : (home == 0) ≡ false) where
  -- the state under the lock
  abbrev held : Store
  held = record s { locked = true }

  abbrev new_count : ℕ
  new_count = ((at s target).nlink + 1) % 2 ^ 32

  count_run :
      (s1 : Store)
      → set_links (at s target).ino new_count s.all_entries held ≡ some (tt, s1)
      → vtfs_storage_add_link target home name s ≡ some (pos 0, record s1 { locked = false })
  unfolding vtfs_storage_add_link
  count_run s1 run =
      let (target0, et) = Live-mem s target s.all_entries live m in
      rw (target0, home0)
        (rw (load_lem target s (at s target) target0 et) (rw no_dir (rw unlocked (rw run refl))))

  -- For a listed entry that is no directory, in a storage whose entries are allocated and listed once
  -- and whose lock is free: each entry with its inode number gets its link count plus one, and
  -- nothing else changes.
  pub add_link-Counted :
      (s' : Store) × (vtfs_storage_add_link target home name s ≡ some (pos 0, s'))
      × Counted s target s'
  add_link-Counted =
      let held_live = Live-build held s.all_entries (λ q i. Live-mem s q s.all_entries live i) in
      let (s1, run, d) =
        set_lem (at s target).ino new_count s.all_entries held held_live distinct in
      (
        record s1 { locked = false },
        count_run s1 run,
        record {
          entry = d.entry;
          rest =
              ap (λ (x : Store). record x { locked = false }) d.rest
              ∙ ap (λ (b : Bool). record s { entry = s1.entry; locked = b }) (sym unlocked);
        },
      )
