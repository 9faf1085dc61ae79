-- ===== src/Storage/Remove/Unlink.antt =====
-- The state after an entry has been taken out of the chains.
use vtfs.Base.{
  ℕ, ◌≡◌, false, Option, some, ◌==◌, arith, inl, inr, Bool-cases, ==_refl, if◌then◌else◌,
}
use vtfs.Base.Lists.{list_del}
use vtfs.Storage.State.{Ptr, Entry, Store, put_entry, change_lem, update, is_dir}
use vtfs.Storage.Remove.{dec_nlink, unlink_entry}

-- What becomes of the directory that the entry leaves.
abbrev pub without_child : Ptr → ℕ → Entry → Entry
without_child entry mode dir = record dir {
  children = list_del entry dir.children;
  nlink = if is_dir mode then dec_nlink dir.nlink else dir.nlink;
}

module _ (s : Store) (home entry : Ptr) (mode : ℕ) (dir : Entry) (h0 : (home == 0) ≡ false)
    (eh : s.entry home ≡ some dir) where
  abbrev pub unlinked_memory : Ptr → Option Entry
  unlinked_memory =
      if is_dir mode
      then update (update s.entry home (some (record dir { nlink = dec_nlink dir.nlink }))) home
          (some (without_child entry mode dir))
      else update s.entry home (some (without_child entry mode dir))

  abbrev pub unlinked : Store
  unlinked = record s { entry = unlinked_memory; all_entries = list_del entry s.all_entries }

  pub unlink-unlinked : unlink_entry entry home mode s ≡ some (tt, unlinked)
  unfolding unlink_entry
  unlink-unlinked =
      let s1 = put_entry home (some (record dir { nlink = dec_nlink dir.nlink })) s in
      let leave = λ (e : Entry). record e { children = list_del entry e.children } in
      elim (Bool-cases (is_dir mode)) [
        | inl d ↦
            rw (d, h0)
              (rw (change_lem home (λ d. record d { nlink = dec_nlink d.nlink }) s dir h0 eh) (
                rw (
                  change_lem home leave s1 (record dir { nlink = dec_nlink dir.nlink }) h0
                    (rw (==_refl home)))))
        | inr d ↦ rw d (rw h0 (rw (change_lem home leave s dir h0 eh)))
      ]

  pub unlinked_home : unlinked_memory home ≡ some (without_child entry mode dir)
  unlinked_home = ground arith

  pub unlinked_other : (q : Ptr) → (q == home) ≡ false → unlinked_memory q ≡ s.entry q
  unlinked_other q n = ground arith
