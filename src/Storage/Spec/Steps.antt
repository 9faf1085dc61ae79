-- ===== src/Storage/Spec/Steps.antt =====
-- Creations, deletions and lookups in a sound storage, against the specification.
use vtfs.Base.{
  ℕ, ◌≡◌, refl, ap, sym, ◌∙◌, ◌⊎◌, inl, inr, Bool, true, false, none, some, [], ◌==◌, Bool-cases,
  ==→eq, ==_refl,
}
use mathlib.Core.Path.{subst}
use vtfs.Base.Int.{pos, neg, ebusy, enotempty}
use vtfs.Base.Lists.{mem, take, mem-list_del_self, mem-list_del_ne}
use vtfs.Base.Strings.{Bytes, str_eq, str_eq→eq}
use vtfs.Storage.State.{Ptr, Store, Env, is_dir, is_reg, max_name_len, update}
use vtfs.Storage.Tree.{at, parent_differs}
use vtfs.Storage.Create.{create_entry_internal}
use vtfs.Storage.Create.Made.{Made, create-Made}
use vtfs.Storage.Remove.{vtfs_storage_delete_entry}
use vtfs.Storage.Remove.Gone.{Gone, delete-Gone}
use vtfs.Storage.Search.{vtfs_storage_lookup}
use vtfs.Storage.Search.First.{first, named, first-Finds, lookup-first}
use vtfs.Storage.Sound.{IsSound}
use vtfs.Storage.Sound.Create.{create-Alike, at_new_entry}
use vtfs.Storage.Sound.Delete.{delete-Alike}
use vtfs.Storage.Spec.{
  Node, create_call, delete_call, lookup_call, handle, result, Does, creates, deletes, finds,
  misses, refuses_create, refuses_root, refuses_full,
}
use vtfs.Storage.Sound.Cases.{lookup_other}
use vtfs.Storage.Spec.Home.{children-Unnamed, unused-view, child-shown, no_child, childless-Unused}
use vtfs.Storage.Spec.View.{node_of, view, view_listed, view-Alike, view-update}

-- The node that a creation makes.
abbrev created_node : Ptr → Bytes → (mode ino : ℕ) → Node
created_node home name mode ino = record {
  name = take max_name_len name;
  ino = ino;
  mode = mode;
  parent = home;
  contents = [];
}

module _ (env : Env) (s s' : Store) (home : Ptr) (name : Bytes) (mode : ℕ) (skip_sync : Bool)
    (sound : IsSound s) (m : mem home s.all_entries ≡ true) (got : (env.new_entry == 0) ≡ false)
    (unused : s.entry env.new_entry ≡ none) (d : Made env s home name mode 0 skip_sync s') where
  shows_new : view s' env.new_entry ≡ some (created_node home name mode s.next_ino)
  shows_new =
      let listed : mem env.new_entry s'.all_entries ≡ true =
        rw d.all_entries (rw (==_refl env.new_entry) refl) in
      let is = at_new_entry env s s' home name mode 0 skip_sync sound m got unused d in
      view_listed s' env.new_entry listed
      ∙ (ap (λ x. some (node_of s' x)) is
          ∙ elim (Bool-cases (is_reg mode)) [ inl reg ↦ rw reg refl | inr other ↦ rw other refl ])

  created_view :
      view s' ≡ update (view s) env.new_entry (some (created_node home name mode s.next_ino))
  created_view =
      view-update s s' env.new_entry (some (created_node home name mode s.next_ino)) shows_new
        (λ q n.
          view-Alike s s' sound q (rw d.all_entries (rw n refl))
            (create-Alike env s s' home name mode 0 skip_sync sound m got unused d q))

module _ (env : Env) (s s' : Store) (entry : Ptr) (sound : IsSound s)
    (m : mem entry s.all_entries ≡ true) (g : Gone env s entry s') where
  deleted_view : view s' ≡ update (view s) entry none
  deleted_view =
      let unlisted = mem-list_del_self entry s.all_entries sound.tree.distinct in
      view-update s s' entry none (rw g.all_entries (rw unlisted refl)) (λ q n.
        let same : mem q s'.all_entries ≡ mem q s.all_entries =
          rw g.all_entries (mem-list_del_ne entry q s.all_entries n) in
        view-Alike s s' sound q same (λ i. delete-Alike env s s' entry sound m g q (same ∙ i)))

module _ (s : Store) (sound : IsSound s) where
  pub create_refused :
      (home : Ptr) (name : Bytes) (mode : ℕ)
      → mem home s.all_entries ≡ true
      → (is_dir (at s home).mode ≡ false)
        ⊎ ((q : Ptr) × (mem q (at s home).children ≡ true) × (str_eq (at s q).name name ≡ true))
      → Does (view s) (create_call home name mode) (handle 0) (view s)
  create_refused home name mode m (inl other) =
      refuses_create home mode name (node_of s (at s home)) (view_listed s home m) (inl other)
  create_refused home name mode m (inr (q, child, same)) =
      let (shown, there) = child-shown s sound home q m child in
      refuses_create home mode name (node_of s (at s home)) (view_listed s home m)
        (inr (q, node_of s (at s q), shown, there, same))

  pub root_refused :
      (p : Ptr)
      → (p == s.root) ≡ true
      → Does (view s) (delete_call p) (result (neg ebusy) []) (view s)
  root_refused p root =
      subst (λ q. Does (view s) (delete_call q) (result (neg ebusy) []) (view s))
        (sym (==→eq p s.root root))
        (refuses_root s.root (node_of s (at s s.root)) (view_listed s s.root sound.tree.root_listed)
          sound.tree.root_parent)

  pub full_refused :
      (p q : Ptr)
      → mem p s.all_entries ≡ true
      → (p == s.root) ≡ false
      → mem q (at s p).children ≡ true
      → Does (view s) (delete_call p) (result (neg enotempty) []) (view s)
  full_refused p q m away child =
      let (shown, there) = child-shown s sound p q m child in
      refuses_full p q (node_of s (at s p)) (node_of s (at s q)) (view_listed s p m)
        (parent_differs s p sound.tree m away) shown there

  pub create-Does :
      (env : Env) (home : Ptr) (name : Bytes) (mode : ℕ) (skip_sync : Bool)
      → mem home s.all_entries ≡ true
      → is_dir (at s home).mode ≡ true
      → ((q : Ptr) → mem q (at s home).children ≡ true → str_eq (at s q).name name ≡ false)
      → (env.new_entry == 0) ≡ false
      → s.entry env.new_entry ≡ none
      → (s' : Store) × (create_entry_internal env home name mode 0 skip_sync s
          ≡ some (env.new_entry, s'))
        × Does (view s) (create_call home name mode) (handle env.new_entry) (view s')
  create-Does env home name mode skip_sync m dir unnamed got unused =
      let (s', run, d) =
        create-Made env s home name mode 0 skip_sync sound.tree m dir unnamed got unused in
      (
        s',
        run,
        subst (Does (view s) (create_call home name mode) (handle env.new_entry))
            (sym (created_view env s s' home name mode skip_sync sound m got unused d))
            (creates home env.new_entry s.next_ino mode name (node_of s (at s home))
              (view_listed s home m) dir (children-Unnamed s sound home name m unnamed) got
              (unused-view s sound env.new_entry unused)),
      )

  lookup_dir :
      (home : Ptr) (name : Bytes)
      → mem home s.all_entries ≡ true
      → Does
          (view s)
          (lookup_call home name)
          (handle (first (named s name) (at s home).children))
          (view s)
  lookup_dir home name m = elim (first-Finds (named s name) (at s home).children) [
    | inl (child, same) ↦
        let p = first (named s name) (at s home).children in
        let (listed, there, not_root) = sound.tree.child_listed home p m child in
        finds home p name (node_of s (at s p)) (view_listed s p listed) there
          (subst (λ q. (p == q) ≡ false) there (parent_differs s p sound.tree listed not_root))
          (str_eq→eq (at s p).name name same)
    | inr (zero, none_there) ↦
        subst (λ q. Does (view s) (lookup_call home name) (handle q) (view s)) (sym zero)
          (misses home name (children-Unnamed s sound home name m none_there))
  ]

  pub lookup-Does :
      (home : Ptr) (name : Bytes)
      → mem home s.all_entries ≡ true
      → (p : Ptr) × (vtfs_storage_lookup home name s ≡ some (p, s))
        × Does (view s) (lookup_call home name) (handle p) (view s)
  lookup-Does home name m = elim (Bool-cases (is_dir (at s home).mode)) [
    | inl dir ↦ (_, lookup-first s home name sound.tree m dir, lookup_dir home name m)
    | inr other ↦ (
      0,
      lookup_other s sound home m name other,
      misses home name (
          children-Unnamed s sound home name m
            (λ q child. absurd (cc (child, no_child s sound home q m other)))),
    )
  ]

  pub delete-Does :
      (env : Env) (entry : Ptr)
      → mem entry s.all_entries ≡ true
      → (entry == s.root) ≡ false
      → (at s entry).children ≡ []
      → (s' : Store) × (vtfs_storage_delete_entry env entry s ≡ some (pos 0, s'))
        × Does (view s) (delete_call entry) (result (pos 0) []) (view s')
  delete-Does env entry m not_root childless =
      let (s', run, g) =
        delete-Gone env s entry sound.tree m not_root childless (sound.owned.freeable entry m) in
      (
        s',
        run,
        subst (Does (view s) (delete_call entry) (result (pos 0) []))
            (sym (deleted_view env s s' entry sound m g))
            (deletes entry (node_of s (at s entry)) (view_listed s entry m)
              (parent_differs s entry sound.tree m not_root)
              (childless-Unused s sound entry m not_root childless)),
      )
