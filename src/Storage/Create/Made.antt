-- ===== src/Storage/Create/Made.antt =====
-- What the creation of an entry does.
use vtfs.Base.{
  ℕ, ◌+◌, ◌%◌, ◌^◌, ◌≡◌, refl, Bool, true, false, not, ◌&&◌, Option, none, some, List, ◌∷◌, ◌==◌,
  arith, sym, ap, ◌∙◌, inl, inr, Bool-cases, ==→eq, ==_refl, if◌then◌else◌,
}
use mathlib.Core.Path.{subst}
use vtfs.Base.Lists.{mem}
use vtfs.Base.Strings.{Bytes, str_eq, clip}
use vtfs.Storage.State.{
  Ptr, Entry, Store, Env, Request, create_request, load_lem, update, is_dir, use_remote_server,
}
use vtfs.Storage.Tree.{entry_or_missing, at, IsTree, Live-mem}
use vtfs.Storage.Tree.Grow.{Adds, IsTree-Adds}
use vtfs.Storage.Path.Full.{IsPath, IsPath-sent}
use vtfs.Storage.Search.{vtfs_storage_lookup}
use vtfs.Storage.Search.First.{first-Finds, named, lookup-first}
use vtfs.Storage.Create.{blank, kind_of, choose_ino, link_entry, announce, create_entry_internal}
use vtfs.Storage.Create.Link.{
  with_child, linked, linked_memory, link-linked, linked_home, linked_fresh, linked_other,
}
use vtfs.Storage.Create.Announce.{announced, announce_lem}

-- The state after a creation: the new entry stands in front of its siblings and of all entries, a
-- directory counts it, and nothing else has changed; the server is told the path and the kind,
-- unless the caller says not to or there is none.
pub record Made (env : Env) (s : Store) (home : Ptr) (name : Bytes) (mode ino : ℕ)
    (skip_sync : Bool) (s' : Store) : Type 0 where
  pub tree : IsTree s'
  pub new_entry :
      s'.entry env.new_entry
      ≡ some (record (blank name mode (if ino == 0 then s.next_ino else ino) env.now) {
        parent = home;
      })
  pub home_entry : s'.entry home ≡ some (with_child env.new_entry mode (at s home))
  pub others :
      (q : Ptr) → (q == home) ≡ false → (q == env.new_entry) ≡ false → s'.entry q ≡ s.entry q
  pub root : s'.root ≡ s.root
  pub all_entries : s'.all_entries ≡ env.new_entry ∷ s.all_entries
  pub blocks : s'.block ≡ s.block
  pub next_ino : s'.next_ino ≡ (if ino == 0 then (s.next_ino + 1) % 2 ^ 64 else s.next_ino)
  pub told :
      (path : Bytes) × (n : ℕ) × IsPath s' env.new_entry path n
      × (s'.sent ≡ (
          if not skip_sync && use_remote_server env
          then create_request (clip 512 path) (kind_of mode) ∷ s.sent
          else s.sent))

module _ (env : Env) (s : Store) (home : Ptr) (name : Bytes) (mode ino : ℕ) (skip_sync : Bool)
    (t : IsTree s) (m : mem home s.all_entries ≡ true) (dir : is_dir (at s home).mode ≡ true)
    (none_named : (q : Ptr) → mem q (at s home).children ≡ true → str_eq (at s q).name name ≡ false)
    (got : (env.new_entry == 0) ≡ false) (unused : s.entry env.new_entry ≡ none) where
  abbrev fresh : Ptr
  fresh = env.new_entry

  -- the inode number that is used, and the next one
  abbrev chosen : ℕ
  chosen = if ino == 0 then s.next_ino else ino

  abbrev next : ℕ
  next = if ino == 0 then (s.next_ino + 1) % 2 ^ 64 else s.next_ino

  abbrev filled : Entry
  filled = blank name mode chosen env.now

  -- the state when the new entry is allocated, and when it is linked and the lock released
  abbrev allocated : Store
  allocated = record s {
    entry = update s.entry fresh (some filled);
    next_ino = next;
    locked = true;
  }

  live_home : ((home == 0) ≡ false) × (s.entry home ≡ some (at s home))
  live_home = Live-mem s home s.all_entries t.live m

  apart : (home == fresh) ≡ false
  apart = elim (Bool-cases (home == fresh)) [
    | inl same ↦
        let e : home ≡ fresh = ==→eq home fresh same in absurd (cc (live_home.1, unused, e))
    | inr other ↦ other
  ]

  abbrev memory : Ptr → Option Entry
  memory =
      linked_memory allocated home fresh mode (at s home) filled live_home.0 got apart
        (rw apart live_home.1) (rw (==_refl fresh))

  abbrev made : List Request → Store
  made sent = record s {
    entry = memory;
    all_entries = fresh ∷ s.all_entries;
    next_ino = next;
    locked = false;
    sent = sent;
  }

  not_found : vtfs_storage_lookup home name s ≡ some (0, s)
  not_found =
      lookup-first s home name t m dir
      ∙ ap (λ (r : Ptr). some (r, s))
          (elim (first-Finds (named s name) (at s home).children) [
            | inl (i, hit) ↦ absurd (cc (hit, none_named _ i))
            | inr (zero, none_fit) ↦ zero
          ])

  linking :
      link_entry home fresh mode allocated
      ≡ some (
        tt,
        linked allocated home fresh mode
            (at s home)
            filled
            live_home.0
            got
            apart
            (rw apart live_home.1)
            (rw (==_refl fresh)),
      )
  linking =
      link-linked allocated home fresh mode (at s home) filled live_home.0 got apart
        (rw apart live_home.1) (rw (==_refl fresh))

  home_at : memory home ≡ some (with_child fresh mode (at s home))
  home_at =
      linked_home allocated home fresh mode (at s home) filled live_home.0 got apart
        (rw apart live_home.1) (rw (==_refl fresh))

  fresh_at : memory fresh ≡ some (record filled { parent = home })
  fresh_at =
      linked_fresh allocated home fresh mode (at s home) filled live_home.0 got apart
        (rw apart live_home.1) (rw (==_refl fresh))

  other_at : (q : Ptr) → (q == home) ≡ false → (q == fresh) ≡ false → memory q ≡ s.entry q
  other_at q nh nf =
      linked_other allocated home fresh mode (at s home) filled live_home.0 got apart
        (rw apart live_home.1) (rw (==_refl fresh)) q nh nf
      ∙ rw nf

  -- what an entry that was there before has kept
  abbrev Kept : Ptr → Type 0
  Kept q =
      (memory q ≡ some (entry_or_missing (memory q)))
      × ((entry_or_missing (memory q)).mode ≡ (at s q).mode)
      × ((entry_or_missing (memory q)).parent ≡ (at s q).parent)
      × ((entry_or_missing (memory q)).children
          ≡ (if q == home then fresh ∷ (at s q).children else (at s q).children))

  not_fresh : (q : Ptr) → mem q s.all_entries ≡ true → (q == fresh) ≡ false
  not_fresh q i = elim (Bool-cases (q == fresh)) [
    | inl same ↦
        let e : q ≡ fresh = ==→eq q fresh same in
        absurd (cc ((Live-mem s q s.all_entries t.live i).1, unused, e))
    | inr other ↦ other
  ]

  kept : (q : Ptr) → mem q s.all_entries ≡ true → Kept q
  kept q i = elim (Bool-cases (q == home)) [
    | inl at_home ↦ subst Kept (sym (==→eq q home at_home)) kept_home
    | inr away ↦
        let o : memory q ≡ s.entry q = other_at q away (not_fresh q i) in
        let live : s.entry q ≡ some (at s q) = (Live-mem s q s.all_entries t.live i).1 in
        let a : entry_or_missing (memory q) ≡ at s q = ap entry_or_missing o in
        (
          o ∙ live ∙ ap some (sym a),
          ap (λ (x : Entry). x.mode) a,
          ap (λ (x : Entry). x.parent) a,
          rw away (ap (λ (x : Entry). x.children) a),
        )
  ]
    where
      kept_home : Kept home
      kept_home =
          let a : entry_or_missing (memory home) ≡ with_child fresh mode (at s home) =
            ap entry_or_missing home_at in
          (
            home_at ∙ ap some (sym a),
            ap (λ (x : Entry). x.mode) a,
            ap (λ (x : Entry). x.parent) a,
            rw (==_refl home) (ap (λ (x : Entry). x.children) a),
          )

  made-Adds : (sent : List Request) → Adds s (made sent) fresh home
  made-Adds sent = record {
    fresh0 = got;
    absent = unused;
    home_listed = m;
    home_dir = dir;
    unlocked = refl;
    root = refl;
    all_entries = refl;
    live_new = fresh_at ∙ ap some (sym (ap entry_or_missing fresh_at));
    parent_new = ap (λ (e : Entry). e.parent) (ap entry_or_missing fresh_at);
    children_new = ap (λ (e : Entry). e.children) (ap entry_or_missing fresh_at);
    live = λ q i. (kept q i).0;
    mode = λ q i. (kept q i).1;
    parent = λ q i. (kept q i).2;
    children = λ q i. (kept q i).3;
  }

  choose_lem :
      choose_ino ino (record s { locked = true })
      ≡ some (chosen, record s { locked = true; next_ino = next })
  unfolding choose_ino
  choose_lem = ground arith

  -- the steps under the lock, up to the call of `announce`
  run_to_announce :
      (s' : Store)
      → announce env skip_sync fresh mode (made s.sent) ≡ some (tt, s')
      → create_entry_internal env home name mode ino skip_sync s ≡ some (fresh, s')
  unfolding create_entry_internal
  run_to_announce s' told =
      rw (live_home.0, load_lem home s (at s home) live_home.0 live_home.1)
        (rw dir
          (rw not_found (rw t.unlocked (rw choose_lem (rw got (rw got (rw linking (rw told))))))))

  -- In a well-formed storage, where a listed directory has no child of that name and the allocator
  -- gives an address that no entry has, `create_entry_internal` ends without a fault, returns the
  -- new entry, and leaves the well-formed storage that `Made` describes.
  pub create-Made :
      (s' : Store) × (create_entry_internal env home name mode ino skip_sync s ≡ some (fresh, s'))
      × Made env s home name mode ino skip_sync s'
  create-Made =
      let tree = λ (sent : List Request). IsTree-Adds s (made sent) fresh home t (made-Adds sent) in
      let (path, n, is, told) =
        announce_lem env skip_sync fresh mode (made s.sent) (tree s.sent) (ground arith) in
      let sent = announced env skip_sync fresh mode (made s.sent) path in
      (
        made sent,
        run_to_announce (made sent) told,
        record {
          tree = tree sent;
          new_entry = fresh_at;
          home_entry = home_at;
          others = other_at;
          root = refl;
          all_entries = refl;
          blocks = refl;
          next_ino = refl;
          told = (path, n, IsPath-sent (made s.sent) sent false is, refl);
        },
      )
