-- ===== src/Storage/Create/Link.antt =====
-- The state after a new entry has been linked into the tree.
use vtfs.Base.{
  ℕ, ◌+◌, ◌%◌, ◌^◌, ◌≡◌, false, Option, some, ◌∷◌, ◌==◌, arith, inl, inr, Bool-cases, ==_refl,
  if◌then◌else◌,
}
use vtfs.Storage.State.{Ptr, Entry, Store, put_entry, change_lem, update, is_dir}
use vtfs.Storage.Create.{link_entry}

-- What becomes of the directory that the entry is put into.
abbrev pub with_child : Ptr → ℕ → Entry → Entry
with_child fresh mode dir = record dir {
  children = fresh ∷ dir.children;
  nlink = if is_dir mode then (dir.nlink + 1) % 2 ^ 32 else dir.nlink;
}

module _ (s : Store) (home fresh : Ptr) (mode : ℕ) (dir new : Entry) (h0 : (home == 0) ≡ false)
    (f0 : (fresh == 0) ≡ false) (apart : (home == fresh) ≡ false) (eh : s.entry home ≡ some dir)
    (ef : s.entry fresh ≡ some new) where
  abbrev pub linked_memory : Ptr → Option Entry
  linked_memory =
      let placed =
        update (update s.entry fresh (some (record new { parent = home }))) home
          (some (record dir { children = fresh ∷ dir.children })) in
      if is_dir mode then update placed home (some (with_child fresh mode dir)) else placed

  abbrev pub linked : Store
  linked = record s { entry = linked_memory; all_entries = fresh ∷ s.all_entries }

  pub link-linked : link_entry home fresh mode s ≡ some (tt, linked)
  unfolding link_entry
  link-linked =
      let s1 = put_entry fresh (some (record new { parent = home })) s in
      let s2 = put_entry home (some (record dir { children = fresh ∷ dir.children })) s1 in
      rw (change_lem fresh (λ e. record e { parent = home }) s new f0 ef) (
        rw
          (change_lem home (λ e. record e { children = fresh ∷ e.children }) s1 dir h0
            (rw apart eh))
          (elim (Bool-cases (is_dir mode)) [
            | inl d ↦ rw d (
                change_lem home (λ e. record e { nlink = (e.nlink + 1) % 2 ^ 32 })
                  (record s2 { all_entries = fresh ∷ s.all_entries })
                  (record dir { children = fresh ∷ dir.children }) h0 (rw (==_refl home)))
            | inr d ↦ rw d
          ]))

  pub linked_home : linked_memory home ≡ some (with_child fresh mode dir)
  linked_home = ground arith

  pub linked_fresh : linked_memory fresh ≡ some (record new { parent = home })
  linked_fresh = ground arith

  pub linked_other :
      (q : Ptr) → (q == home) ≡ false → (q == fresh) ≡ false → linked_memory q ≡ s.entry q
  linked_other q nh nf = ground arith
