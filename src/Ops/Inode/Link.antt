-- ===== src/Ops/Inode/Link.antt =====
-- What `vtfs_link` leaves.
use vtfs.Base.{
  ℕ, ◌+◌, ◌%◌, ◌^◌, ◌≡◌, refl, sym, ap, ◌∙◌, true, false, Option, none, some, [], ◌∷◌, ◌==◌, ==→eq,
  ==_refl, arith, if◌then◌else◌, Bool-cases, inl, inr,
}
use mathlib.Core.Path.{subst}
use vtfs.Base.Int.{pos}
use vtfs.Base.Lists.{mem}
use vtfs.Base.Strings.{Bytes, str_eq}
use vtfs.Storage.State.{Ptr, Entry, Store, Env, put_entry, load_lem, change_lem, is_dir}
use vtfs.Storage.Tree.{entry_or_missing, at, IsTree, Live-mem}
use vtfs.Storage.Tree.Shape.{IsTree-SameShape, SameShape-of_one}
use vtfs.Storage.Search.{vtfs_storage_get_by_ino}
use vtfs.Storage.Search.First.{first, has_ino, get_by_ino-first}
use vtfs.Storage.Create.{blank, vtfs_storage_create_entry_no_sync, vtfs_storage_add_link}
use vtfs.Storage.Create.Link.{with_child}
use vtfs.Storage.Create.Made.{Made, create-Made}
use vtfs.Storage.Create.Count.{counted, Counted, add_link-Counted}
use vtfs.Storage.Remove.Links.{links, links-same}
use vtfs.Ops.Inode.{inc_nlink, touch, ihold, d_instantiate, vtfs_link}

module _ (env : Env) (s : Store) (target home : Ptr) (ino parent_ino : ℕ) (name : Bytes)
    (t : IsTree s) (mt : mem target s.all_entries ≡ true)
    (no_dir : is_dir (at s target).mode ≡ false) (numbered : ((at s target).ino == 0) ≡ false)
    (target_found : first (has_ino s ino) s.all_entries ≡ target)
    (m : mem home s.all_entries ≡ true) (dir : is_dir (at s home).mode ≡ true)
    (home_found : first (has_ino s parent_ino) s.all_entries ≡ home)
    (none_named : (q : Ptr) → mem q (at s home).children ≡ true → str_eq (at s q).name name ≡ false)
    (got : (env.new_entry == 0) ≡ false) (unused : s.entry env.new_entry ≡ none) where
  abbrev pub fresh : Ptr
  fresh = env.new_entry

  abbrev old : Entry
  old = at s target

  abbrev MadeLink : Store → Type 0
  MadeLink s1 = Made env s home name old.mode old.ino true s1

  -- the new entry as it is made, and with the target's data
  abbrev bare : Entry
  bare = record (blank name old.mode old.ino env.now) { parent = home }

  abbrev pub link : Entry
  link = record bare { buffer = old.buffer; size = old.size; capacity = old.capacity }

  -- the link count of all links
  abbrev pub new_count : ℕ
  new_count = (old.nlink + 1) % 2 ^ 32

  -- An entry that was there, with the link as a child if it is the link's directory.
  abbrev pub kept : Ptr → Entry
  kept q = if q == home then with_child fresh old.mode (at s q) else at s q

  -- What the count makes of an entry with a target, both as they are before it.
  abbrev pub recount : (e target_entry : Entry) → Entry
  recount e target_entry =
      if e.ino == target_entry.ino then counted ((target_entry.nlink + 1) % 2 ^ 32) e else e

  run_target : vtfs_storage_get_by_ino ino s ≡ some (target, s)
  run_target = get_by_ino-first s ino t ∙ ap (λ (r : Ptr). some (r, s)) target_found

  run_home : vtfs_storage_get_by_ino parent_ino s ≡ some (home, s)
  run_home = get_by_ino-first s parent_ino t ∙ ap (λ (r : Ptr). some (r, s)) home_found

  target_live : ((target == 0) ≡ false) × (s.entry target ≡ some old)
  target_live = Live-mem s target s.all_entries t.live mt

  home0 : (home == 0) ≡ false
  home0 = (Live-mem s home s.all_entries t.live m).0

  not_fresh : (q : Ptr) → mem q s.all_entries ≡ true → (q == fresh) ≡ false
  not_fresh q i = elim (Bool-cases (q == fresh)) [
    | inl same ↦
        let e : s.entry q ≡ none = ap s.entry (==→eq q fresh same) ∙ unused in
        absurd (cc (e, (Live-mem s q s.all_entries t.live i).1))
    | inr other ↦ other
  ]

  made :
      (s1 : Store) × (vtfs_storage_create_entry_no_sync env home name old.mode old.ino s
        ≡ some (fresh, s1))
      × MadeLink s1
  unfolding vtfs_storage_create_entry_no_sync
  made = create-Made env s home name old.mode old.ino true t m dir none_named got unused

  -- After the link's entry has been made and given the data.
  module _ (s1 : Store) (d : MadeLink s1) where
    abbrev shared : Store
    shared = put_entry fresh (some link) s1

    new_entry : s1.entry fresh ≡ some bare
    new_entry = d.new_entry ∙ rw numbered refl

    shared-IsTree : IsTree shared
    shared-IsTree = IsTree-SameShape s1 shared d.tree (
        SameShape-of_one s1 shared fresh bare link d.tree new_entry (rw (==_refl fresh) refl)
          (λ q n. rw n refl) (refl, refl, refl) d.tree.unlocked refl refl)

    -- what the entries are then
    shared_entry : (q : Ptr) → mem q s.all_entries ≡ true → shared.entry q ≡ some (kept q)
    shared_entry q i = rw (not_fresh q i) (elim (Bool-cases (q == home)) [
      | inl same ↦ rw same (
          subst (λ r. s1.entry r ≡ some (with_child fresh old.mode (at s r)))
            (sym (==→eq q home same)) d.home_entry)
      | inr other ↦
          rw other (d.others q other (not_fresh q i) ∙ (Live-mem s q s.all_entries t.live i).1)
    ])

    target_apart : (target == home) ≡ false
    target_apart = elim (Bool-cases (target == home)) [
      | inl same ↦
          let e : target ≡ home = ==→eq target home same in
          let a_dir : is_dir old.mode ≡ true = rw e dir in absurd (cc no_dir)
      | inr other ↦ other
    ]

    at_target : at shared target ≡ old
    at_target = ap entry_or_missing (shared_entry target mt) ∙ rw target_apart refl

    listed_now : (q : Ptr) → mem q s.all_entries ≡ true → mem q s1.all_entries ≡ true
    listed_now q i = rw d.all_entries (ground arith)

    fresh_listed : mem fresh s1.all_entries ≡ true
    fresh_listed = rw d.all_entries (rw (==_refl fresh) refl)

    kept_ino : (q : Ptr) → (kept q).ino ≡ (at s q).ino
    kept_ino q = elim (Bool-cases (q == home)) [
      | inl same ↦ rw same refl
      | inr other ↦ rw other refl
    ]

    abbrev written : Entry → Entry → Option Entry → Option Entry
    written e target_entry before =
        if e.ino == target_entry.ino
        then some (counted ((target_entry.nlink + 1) % 2 ^ 32) e)
        else before

    recount_kept :
        (e : Entry)
        → ((recount e old).mode ≡ e.mode)
          × ((recount e old).parent ≡ e.parent)
          × ((recount e old).children ≡ e.children)
          × ((recount e old).ino ≡ e.ino)
    recount_kept e = elim (Bool-cases (e.ino == old.ino)) [
      | inl same ↦ rw same (refl, refl, refl, refl)
      | inr other ↦ rw other (refl, refl, refl, refl)
    ]

    module _ (s2 : Store) (c : Counted shared target s2) where
      counted_entry :
          (q : Ptr) (e : Entry)
          → mem q s1.all_entries ≡ true
          → shared.entry q ≡ some e
          → s2.entry q ≡ some (recount e old)
      counted_entry q e i is =
          c.entry q
          ∙ rw i refl
          ∙ ap (λ o. written (entry_or_missing o) (at shared target) o) is
          ∙ ap (λ x. written e x (some e)) at_target
          ∙ elim (Bool-cases (e.ino == old.ino)) [
            | inl same ↦ rw same refl
            | inr other ↦ rw other refl
          ]

      IsTree-counted : IsTree s2
      IsTree-counted = IsTree-SameShape shared s2 shared-IsTree (record {
        unlocked = ap (λ (x : Store). x.locked) c.rest ∙ d.tree.unlocked;
        root = ap (λ (x : Store). x.root) c.rest;
        all_entries = ap (λ (x : Store). x.all_entries) c.rest;
        live = λ q i. after q i ∙ ap some (sym (at_after q i));
        mode = λ q i. ap (λ (x : Entry). x.mode) (at_after q i) ∙ (recount_kept (at shared q)).0;
        parent =
            λ q i. ap (λ (x : Entry). x.parent) (at_after q i) ∙ (recount_kept (at shared q)).1;
        children =
            λ q i. ap (λ (x : Entry). x.children) (at_after q i) ∙ (recount_kept (at shared q)).2;
      })
        where
          after :
              (q : Ptr)
              → mem q s1.all_entries ≡ true
              → s2.entry q ≡ some (recount (at shared q) old)
          after q i =
              counted_entry q (at shared q) i
                (Live-mem shared q s1.all_entries shared-IsTree.live i).1

          at_after : (q : Ptr) → mem q s1.all_entries ≡ true → at s2 q ≡ recount (at shared q) old
          at_after q i = ap entry_or_missing (after q i)

      links-counted : links s2 old.ino s2.all_entries ≡ 1 + links s old.ino s.all_entries
      links-counted =
          let all : s2.all_entries ≡ fresh ∷ s.all_entries =
            ap (λ (x : Store). x.all_entries) c.rest ∙ d.all_entries in
          let new : (at s2 fresh).ino ≡ old.ino =
            ap (λ (x : Entry). x.ino)
              (ap entry_or_missing
                (counted_entry fresh link fresh_listed (rw (==_refl fresh) refl)))
            ∙ (recount_kept link).3 in
          let rest : links s2 old.ino s.all_entries ≡ links s old.ino s.all_entries =
            links-same old.ino s s2 s.all_entries (λ q i.
              ap (λ (x : Entry). x.ino)
                (ap entry_or_missing (counted_entry q (kept q) (listed_now q i) (shared_entry q i)))
              ∙ (recount_kept (kept q)).3
              ∙ kept_ino q) in
          rw all (rw new (rw (==_refl old.ino) (rw rest refl)))

  -- The storage after a link: the link stands in front of its siblings and of all entries, with the
  -- inode number, the mode and the data of the target; every link to that inode counts one more, and
  -- nothing else has changed but the directory's children.
  pub record Linked (s' : Store) : Type 0 where
    pub tree : IsTree s'
    pub all_entries : s'.all_entries ≡ fresh ∷ s.all_entries
    pub entry : s'.entry fresh ≡ some (counted new_count link)
    pub listed : (q : Ptr) → mem q s.all_entries ≡ true → s'.entry q ≡ some (recount (kept q) old)
    pub number : links s' old.ino s'.all_entries ≡ 1 + links s old.ino s.all_entries
    pub root : s'.root ≡ s.root
    pub blocks : s'.block ≡ s.block
    pub next_ino : s'.next_ino ≡ s.next_ino
    pub sent : s'.sent ≡ s.sent

  link_run :
      (s1 s2 : Store) (d : MadeLink s1)
      → vtfs_storage_create_entry_no_sync env home name old.mode old.ino s ≡ some (fresh, s1)
      → vtfs_storage_add_link target home name (shared s1 d) ≡ some (pos 0, s2)
      → vtfs_link env ino parent_ino name s
        ≡ some ((pos 0, inc_nlink ino ∷ touch ino ∷ ihold ino ∷ d_instantiate name ino ∷ []), s2)
  unfolding vtfs_link
  link_run s1 s2 d run1 run2 =
      let held = load_lem target s old target_live.0 target_live.1 in
      let share =
        change_lem fresh
          (λ l. record l { buffer = old.buffer; size = old.size; capacity = old.capacity }) s1 bare
          got (new_entry s1 d) in
      rw run_target (
        rw target_live.0 (
          rw held
            (rw no_dir (rw run_home (rw home0 (rw run1 (rw got (rw share (rw run2 refl)))))))))

  -- In a well-formed storage, for the first entry with an inode number, which is not 0, that is no
  -- directory, a listed directory without a child of the name, and an address that no entry has:
  -- `vtfs_link` returns 0 without a fault, leaves what `Linked` says, sends the server nothing, and
  -- the kernel is told to count, touch and hold the inode and to give it to the name.
  pub vtfs_link-Linked :
      (s' : Store) × (vtfs_link env ino parent_ino name s
        ≡ some ((pos 0, inc_nlink ino ∷ touch ino ∷ ihold ino ∷ d_instantiate name ino ∷ []), s'))
      × Linked s'
  vtfs_link-Linked =
      let (s1, run1, d) = made in
      let ready = shared-IsTree s1 d in
      let no_dir_now : is_dir (at (shared s1 d) target).mode ≡ false = rw (at_target s1 d) no_dir in
      let (s2, run2, c) =
        add_link-Counted (shared s1 d) target home name ready.unlocked ready.live ready.distinct
          (listed_now s1 d target mt) no_dir_now home0 in
      (
        s2,
        link_run s1 s2 d run1 run2,
        record {
          tree = IsTree-counted s1 d s2 c;
          all_entries = ap (λ (x : Store). x.all_entries) c.rest ∙ d.all_entries;
          entry =
              counted_entry s1 d s2 c fresh link (fresh_listed s1 d) (rw (==_refl fresh) refl)
              ∙ rw (==_refl old.ino) refl;
          listed = λ q i.
              counted_entry s1 d s2 c q (kept q) (listed_now s1 d q i) (shared_entry s1 d q i);
          number = links-counted s1 d s2 c;
          root = ap (λ (x : Store). x.root) c.rest ∙ d.root;
          blocks = ap (λ (x : Store). x.block) c.rest ∙ d.blocks;
          next_ino = ap (λ (x : Store). x.next_ino) c.rest ∙ (d.next_ino ∙ rw numbered refl);
          sent = ap (λ (x : Store). x.sent) c.rest ∙ d.told.3;
        },
      )
