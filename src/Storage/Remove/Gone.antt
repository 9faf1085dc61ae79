-- ===== src/Storage/Remove/Gone.antt =====
-- What a deletion does.
use vtfs.Base.{
  ℕ, ◌+◌, ◌≡◌, true, false, not, ◌&&◌, none, some, List, [], ◌∷◌, ◌==◌, arith, sym, ap, ◌∙◌, inl,
  inr, Bool-cases, ==→eq, ==_refl, if◌then◌else◌,
}
use mathlib.Core.Path.{subst}
use vtfs.Base.Int.{pos}
use vtfs.Base.Lists.{
  mem, list_del, mem-list_del_self, mem-list_del_ne, list_del-Distinct, listed_differs,
}
use vtfs.Base.Strings.{Bytes, clip}
use vtfs.Storage.State.{
  Ptr, Entry, Store, Env, Request, delete_request, load_lem, is_dir, use_remote_server,
}
use vtfs.Storage.Tree.{entry_or_missing, at, Live, IsTree, Live-mem}
use vtfs.Storage.Tree.Shape.{Live-build}
use vtfs.Storage.Tree.Shrink.{Removes, IsTree-Removes}
use vtfs.Storage.Path.{build_path}
use vtfs.Storage.Path.Full.{IsPath, build_path-held}
use vtfs.Storage.Remove.{is_empty, drop_links, unlink_entry, discard, vtfs_storage_delete_entry}
use vtfs.Storage.Remove.Unlink.{
  without_child, unlinked, unlink-unlinked, unlinked_home, unlinked_other,
}
use vtfs.Storage.Remove.Links.{links, links-same, one_less, Dropped, drop_lem}
use vtfs.Storage.Remove.Discard.{Freeable, Discarded, discard_lem}

-- The other entries that are links to the inode of an entry.
abbrev pub other_links : Store → Ptr → ℕ
other_links s entry = links s (at s entry).ino (list_del entry s.all_entries)

-- What becomes of another entry: its parent loses the child, a link to the same inode is counted
-- down.
abbrev pub after_unlink : Store → Ptr → Ptr → Entry
after_unlink s entry q =
    if q == (at s entry).parent then without_child entry (at s entry).mode (at s q) else at s q

abbrev pub after_delete : Store → Ptr → Ptr → Entry
after_delete s entry q =
    let e = after_unlink s entry q in if e.ino == (at s entry).ino then one_less e else e

-- The state after a deletion.
pub record Gone (env : Env) (s : Store) (entry : Ptr) (s' : Store) : Type 0 where
  pub tree : IsTree s'
  pub gone : s'.entry entry ≡ none
  pub all_entries : s'.all_entries ≡ list_del entry s.all_entries
  pub listed :
      (q : Ptr)
      → mem q s.all_entries ≡ true
      → (q == entry) ≡ false
      → s'.entry q ≡ some (after_delete s entry q)
  pub unlisted : (q : Ptr) → mem q s.all_entries ≡ false → s'.entry q ≡ s.entry q
  pub blocks :
      (b : Ptr)
      → s'.block b ≡ (
          if other_links s entry == 0 && not (b == 0) && (b == (at s entry).buffer)
          then none
          else s.block b)
  pub root : s'.root ≡ s.root
  pub next_ino : s'.next_ino ≡ s.next_ino
  pub told :
      (path : Bytes) × (n : ℕ) × IsPath s entry path n
      × (s'.sent
          ≡ (if use_remote_server env then delete_request (clip 512 path) ∷ s.sent else s.sent))

module _ (env : Env) (s : Store) (entry : Ptr) (t : IsTree s) (m : mem entry s.all_entries ≡ true)
    (not_root : (entry == s.root) ≡ false) (childless : (at s entry).children ≡ []) where
  abbrev home : Ptr
  home = (at s entry).parent

  abbrev others_left : List Ptr
  others_left = list_del entry s.all_entries

  live_entry : ((entry == 0) ≡ false) × (s.entry entry ≡ some (at s entry))
  live_entry = Live-mem s entry s.all_entries t.live m

  live_home : ((home == 0) ≡ false) × (s.entry home ≡ some (at s home))
  live_home = Live-mem s home s.all_entries t.live (t.parent_listed entry m)

  apart : (entry == home) ≡ false
  apart = elim (Bool-cases (entry == home)) [
    | inl same ↦
        let e : home ≡ entry = sym (==→eq entry home same) in
        let c : mem entry (at s entry).children ≡ true =
          subst (λ x. mem entry (at s x).children ≡ true) e (t.listed_child entry m not_root) in
        let z : mem entry [] ≡ true = rw childless at c in absurd (cc z)
    | inr other ↦ other
  ]

  abbrev held : Store
  held = record s { locked = true }

  -- the state with the entry out of the chains
  abbrev out : Store
  out = unlinked held home entry (at s entry).mode (at s home) live_home.0 live_home.1

  out_at : (q : Ptr) → mem q s.all_entries ≡ true → out.entry q ≡ some (after_unlink s entry q)
  out_at q i = elim (Bool-cases (q == home)) [
    | inl same ↦
        subst (λ r. out.entry r ≡ some (after_unlink s entry r)) (sym (==→eq q home same))
          (rw (==_refl home)
            (unlinked_home held home entry (at s entry).mode (at s home) live_home.0 live_home.1))
    | inr other ↦ rw other (
        unlinked_other held home entry (at s entry).mode (at s home) live_home.0 live_home.1 q other
        ∙ (Live-mem s q s.all_entries t.live i).1)
  ]

  left :
      (q : Ptr) → mem q others_left ≡ true → (mem q s.all_entries ≡ true) × ((q == entry) ≡ false)
  left q i = elim (Bool-cases (q == entry)) [
    | inl same ↦
        let e : q ≡ entry = ==→eq q entry same in
        absurd (cc (i, e, mem-list_del_self entry s.all_entries t.distinct))
    | inr other ↦ (rw (mem-list_del_ne entry q s.all_entries other) at i, other)
  ]

  out-Live : Live out others_left
  out-Live = Live-build out others_left (λ q i.
      let (i', n) = left q i in
      (
        (Live-mem s q s.all_entries t.live i').0,
        out_at q i' ∙ ap some (sym (ap entry_or_missing (out_at q i'))),
      ))

  unlink_ino : (q : Ptr) → (after_unlink s entry q).ino ≡ (at s q).ino
  unlink_ino q = ground arith

  same_links : links out (at s entry).ino others_left ≡ other_links s entry
  same_links = links-same (at s entry).ino s out others_left (λ q i.
      ap (λ (e : Entry). e.ino) (ap entry_or_missing (out_at q (left q i).0)) ∙ unlink_ino q)

  delete_keeps :
      (q : Ptr)
      → ((after_delete s entry q).mode ≡ (at s q).mode)
        × ((after_delete s entry q).parent ≡ (at s q).parent)
        × ((after_delete s entry q).children
            ≡ (if q == home then list_del entry (at s q).children else (at s q).children))
  delete_keeps q = (ground arith, ground arith, ground arith)

  entry_left : mem entry others_left ≡ false
  entry_left = mem-list_del_self entry s.all_entries t.distinct

  module _ (s2 : Store) (d : Dropped (at s entry).ino others_left out s2) (s4 : Store)
      (x : Discarded entry
        (at s entry).buffer
        (other_links s entry)
        (record s2 { locked = false })
        s4) where
    abbrev final : List Request → Store
    final sent = record s4 { sent = sent }

    final_listed :
        (q : Ptr)
        → mem q s.all_entries ≡ true
        → (q == entry) ≡ false
        → s4.entry q ≡ some (after_delete s entry q)
    final_listed q i n =
        let o = out_at q i in
        x.kept q n
        ∙ ground
            (arith, d.entry q, o, ap entry_or_missing o, mem-list_del_ne entry q s.all_entries n)

    final_unlisted : (q : Ptr) → mem q s.all_entries ≡ false → s4.entry q ≡ s.entry q
    final_unlisted q i =
        let qe = listed_differs q entry s.all_entries i m in
        let qh = listed_differs q home s.all_entries i (t.parent_listed entry m) in
        let not_left : mem q others_left ≡ false = mem-list_del_ne entry q s.all_entries qe ∙ i in
        let other =
          unlinked_other held home entry (at s entry).mode (at s home) live_home.0 live_home.1 q
            qh in
        x.kept q qe ∙ (d.entry q ∙ rw not_left other)

    final-Removes : (sent : List Request) → Removes s (final sent) entry
    final-Removes sent = record {
      listed = m;
      not_root = not_root;
      childless = childless;
      unlocked = x.locked;
      root = x.root ∙ ap (λ (r : Store). r.root) d.rest;
      all_entries = x.all_entries ∙ ap (λ (r : Store). r.all_entries) d.rest;
      live = λ q i n. final_listed q i n ∙ ap some (sym (ap entry_or_missing (final_listed q i n)));
      mode = λ q i n.
          ap (λ (e : Entry). e.mode) (ap entry_or_missing (final_listed q i n))
          ∙ (delete_keeps q).0;
      parent = λ q i n.
          ap (λ (e : Entry). e.parent) (ap entry_or_missing (final_listed q i n))
          ∙ (delete_keeps q).1;
      children = λ q i n.
          ap (λ (e : Entry). e.children) (ap entry_or_missing (final_listed q i n))
          ∙ (delete_keeps q).2;
    }

    final-Gone :
        (path : Bytes) (n : ℕ)
        → IsPath s entry path n
        → (sent : List Request)
        → sent ≡ (if use_remote_server env then delete_request (clip 512 path) ∷ s.sent else s.sent)
        → Gone env s entry (final sent)
    final-Gone path n is sent e = record {
      tree = IsTree-Removes s (final sent) entry t (final-Removes sent);
      gone = x.gone;
      all_entries = (final-Removes sent).all_entries;
      listed = final_listed;
      unlisted = final_unlisted;
      blocks = λ b.
          let same : s2.block b ≡ s.block b = ap (λ (r : Store). r.block b) d.rest in
          x.block b ∙ rw same;
      root = (final-Removes sent).root;
      next_ino = x.next_ino ∙ ap (λ (r : Store). r.next_ino) d.rest;
      told = (path, n, is, e);
    }

  live_after :
      (s2 : Store)
      → Dropped (at s entry).ino others_left out s2
      → s2.entry entry ≡ some (at s entry)
  live_after s2 d =
      d.entry entry
      ∙ rw entry_left (
          unlinked_other held home entry (at s entry).mode (at s home) live_home.0 live_home.1 entry
            apart
          ∙ live_entry.1)

  Freeable-after :
      (s2 : Store)
      → Dropped (at s entry).ino others_left out s2
      → Freeable s (at s entry).buffer
      → Freeable (record s2 { locked = false }) (at s entry).buffer
  Freeable-after s2 d (inl null) = inl null
  Freeable-after s2 d (inr (n, (b, eb))) =
      inr (n, (b, ap (λ (r : Store). r.block (at s entry).buffer) d.rest ∙ eb))

  not_busy : (is_dir (at s entry).mode && not (is_empty (at s entry).children)) ≡ false
  not_busy = rw childless (ground arith)

  unlinking : unlink_entry entry home (at s entry).mode held ≡ some (tt, out)
  unlinking = unlink-unlinked held home entry (at s entry).mode (at s home) live_home.0 live_home.1

  dropping :
      (s2 : Store)
      → drop_links (at s entry).ino others_left 0 out
        ≡ some (0 + links out (at s entry).ino others_left, s2)
      → drop_links (at s entry).ino others_left 0 out ≡ some (other_links s entry, s2)
  dropping s2 run =
      let e : 0 + links out (at s entry).ino others_left ≡ other_links s entry =
        omega (arith, same_links) in
      run ∙ ap (λ (k : ℕ). some (k, s2)) e

  -- the run of the parts
  run_parts :
      (path : Bytes) (s2 s4 : Store)
      → build_path entry 512 held ≡ some (clip 512 path, held)
      → drop_links (at s entry).ino others_left 0 out ≡ some (other_links s entry, s2)
      → discard entry (at s entry).buffer (other_links s entry) (record s2 { locked = false })
        ≡ some (tt, s4)
      → vtfs_storage_delete_entry env entry s
        ≡ some (
          pos 0,
          record s4 {
            sent =
                if use_remote_server env then delete_request (clip 512 path) ∷ s4.sent else s4.sent;
          },
        )
  unfolding vtfs_storage_delete_entry
  run_parts path s2 s4 told dropped discarded = rw live_entry.0 (
      rw not_root (
        rw (load_lem entry s (at s entry) live_entry.0 live_entry.1) (
          rw not_busy (
            rw t.unlocked (elim (Bool-cases (use_remote_server env)) [
              | inl remote ↦ rw remote (rw told (rw unlinking (rw dropped (rw discarded))))
              | inr alone ↦ rw alone (rw unlinking (rw dropped (rw discarded)))
            ])))))

  -- In a well-formed storage, any listed entry but the root that has no children can be deleted,
  -- provided its data pointer is NULL or points to a block: the call returns 0 without a fault and
  -- leaves the well-formed storage that `Gone` describes; the data is freed if and only if no other
  -- entry has the same inode number, and the server, if one is configured, is sent the path.
  pub delete-Gone :
      Freeable s (at s entry).buffer
      → (s' : Store) × (vtfs_storage_delete_entry env entry s ≡ some (pos 0, s'))
        × Gone env s entry s'
  delete-Gone f =
      let (path, n, is, told) = build_path-held s entry 512 t m in
      let (s2, dropped, d) =
        drop_lem (at s entry).ino others_left out 0 out-Live
          (list_del-Distinct entry s.all_entries t.distinct) in
      let (s4, discarded, x) =
        discard_lem (record s2 { locked = false }) entry (at s entry) (at s entry).buffer
          (other_links s entry) live_entry.0 (live_after s2 d) (Freeable-after s2 d f) in
      let sent =
        if use_remote_server env then delete_request (clip 512 path) ∷ s4.sent else s4.sent in
      let same : s4.sent ≡ s.sent = x.sent ∙ ap (λ (r : Store). r.sent) d.rest in
      (
        final s2 d s4 x sent,
        run_parts path s2 s4 told (dropping s2 dropped) discarded,
        final-Gone s2 d s4 x path n is sent (rw same),
      )
