-- ===== src/Storage/Spec/Unique.antt =====
-- The names in a directory, as long as none is cut.
use vtfs.Base.{
  ◌≤◌, ◌⊎◌, ◌≡◌, refl, ap, sym, ◌∙◌, inl, inr, true, false, Option, none, some, List, [], ◌∷◌, ◌==◌,
  Bool-cases, ==→eq, ==_refl,
}
use vtfs.Base.Lists.{length, take_all}
use vtfs.Base.Strings.{Bytes, str_eq, str_eq_refl}
use vtfs.Storage.State.{Ptr, Store, Env, update, max_name_len}
use vtfs.Storage.Create.Init.{fresh}
use vtfs.Storage.Spec.{
  Node, FileSystem, Call, create_call, delete_call, write_call, read_call, lookup_call, Reply, Does,
  creates, deletes, writes, reads, refuses_create, refuses_root, refuses_full, refuses_write,
  create_without_memory, write_without_memory, starves_create, starves_write, refuses_size,
  refuses_read, finds, misses, Plays, over, plays, new_file_system, root_node, Unnamed,
}
use vtfs.Storage.Spec.View.{view}
use vtfs.Storage.Spec.Refines.{Session, fresh-Plays}

-- Two nodes other than the root that are in one directory under one name are the same.
abbrev pub IsUnique : FileSystem → Type 0
IsUnique fs =
    (q r : Ptr) (n m : Node)
    → fs q ≡ some n
    → fs r ≡ some m
    → n.parent ≡ m.parent
    → n.name ≡ m.name
    → (q == n.parent) ≡ false
    → (r == m.parent) ≡ false
    → q ≡ r

-- No node is new, and each is where it was, under its name.
abbrev Fewer : FileSystem → FileSystem → Type 0
Fewer fs fs' =
    (q : Ptr) (n : Node)
    → fs' q ≡ some n
    → (m : Node) × (fs q ≡ some m) × (m.parent ≡ n.parent) × (m.name ≡ n.name)

IsUnique-Fewer : (fs fs' : FileSystem) → Fewer fs fs' → IsUnique fs → IsUnique fs'
IsUnique-Fewer fs fs' fewer u q r n m shows_n shows_m home name away_q away_r =
    let (n0, at_q, home_q, name_q) = fewer q n shows_n in
    let (m0, at_r, home_r, name_r) = fewer r m shows_m in
    u q r n0 m0 at_q at_r (home_q ∙ home ∙ sym home_r) (name_q ∙ name ∙ sym name_r)
      (rw home_q away_q) (rw home_r away_r)

-- What an update shows under a handle.
update_cases :
    (fs : FileSystem) (p : Ptr) (v : Option Node) (q : Ptr) (n : Node)
    → update fs p v q ≡ some n
    → ((q ≡ p) × (v ≡ some n)) ⊎ (((q == p) ≡ false) × (fs q ≡ some n))
update_cases fs p v q n shows = elim (Bool-cases (q == p)) [
  | inl same ↦ inl (==→eq q p same, rw same at shows)
  | inr other ↦ inr (other, rw other at shows)
]

deleted-Fewer : (fs : FileSystem) (p : Ptr) → Fewer fs (update fs p none)
deleted-Fewer fs p q n shows = elim (update_cases fs p none q n shows) [
  | inl (same, none_there) ↦ absurd (cc none_there)
  | inr (other, there) ↦ (n, there, refl, refl)
]

written-Fewer :
    (fs : FileSystem) (p : Ptr) (n : Node) (contents : Bytes)
    → fs p ≡ some n
    → Fewer fs (update fs p (some (record n { contents = contents })))
written-Fewer fs p n contents there q m shows =
    elim (update_cases fs p (some (record n { contents = contents })) q m shows) [
      | inl (same, is) ↦
          let node : record n { contents = contents } ≡ m = cc is in
          (n, ap fs same ∙ there, ap (λ (x : Node). x.parent) node, ap (λ (x : Node). x.name) node)
      | inr (other, at_q) ↦ (m, at_q, refl, refl)
    ]

module _ (fs : FileSystem) (u : IsUnique fs) (home new : Ptr) (name : Bytes)
    (unnamed : Unnamed fs home name) (node : Node) (node_home : node.parent ≡ home)
    (node_name : node.name ≡ name) where
  -- An old node is not where the new one is.
  not_there :
      (r : Ptr) (m : Node)
      → fs r ≡ some m
      → m.parent ≡ home
      → m.name ≡ name
      → (r == m.parent) ≡ false
      → true ≡ false
  not_there r m there same_home same_name away =
      let other = unnamed r m there same_home (rw same_home at away) in
      let same : str_eq m.name name ≡ true = rw same_name (str_eq_refl name) in sym same ∙ other

  created-IsUnique : IsUnique (update fs new (some node))
  created-IsUnique q r n m shows_n shows_m same_home same_name away_q away_r =
      elim (update_cases fs new (some node) q n shows_n) [
        | inl (q_new, q_is) ↦ elim (update_cases fs new (some node) r m shows_m) [
          | inl (r_new, r_is) ↦ q_new ∙ sym r_new
          | inr (r_other, r_there) ↦
              let is : node ≡ n = cc q_is in
              absurd (
                cc (
                  not_there r m r_there
                    (sym same_home ∙ (ap (λ (x : Node). x.parent) (sym is) ∙ node_home))
                    (sym same_name ∙ (ap (λ (x : Node). x.name) (sym is) ∙ node_name)) away_r))
        ]
        | inr (q_other, q_there) ↦ elim (update_cases fs new (some node) r m shows_m) [
          | inl (r_new, r_is) ↦
              let is : node ≡ m = cc r_is in
              absurd (
                cc (
                  not_there q n q_there
                    (same_home ∙ (ap (λ (x : Node). x.parent) (sym is) ∙ node_home))
                    (same_name ∙ (ap (λ (x : Node). x.name) (sym is) ∙ node_name)) away_q))
          | inr (r_other, r_there) ↦ u q r n m q_there r_there same_home same_name away_q away_r
        ]
      ]

-- A call whose name, if it creates, is not cut.
abbrev pub HasShortName : Call → Type 0
HasShortName (create_call home name mode) = length name ≤ max_name_len
HasShortName (delete_call p) = Unit
HasShortName (write_call p bytes offset) = Unit
HasShortName (create_without_memory home name mode) = Unit
HasShortName (write_without_memory p bytes offset) = Unit
HasShortName (read_call p len offset) = Unit
HasShortName (lookup_call home name) = Unit

abbrev pub HaveShortNames : List (Call × Reply) → Type 0
HaveShortNames [] = Unit
HaveShortNames ((call, reply) ∷ rest) = HasShortName call × HaveShortNames rest

Does-IsUnique :
    {fs fs' : FileSystem} {call : Call} {reply : Reply}
    → HasShortName call
    → Does fs call reply fs'
    → IsUnique fs
    → IsUnique fs'
Does-IsUnique {fs} short (creates home new ino mode name dir there is_dir unnamed new0 free) u =
    created-IsUnique fs u home new name unnamed _ refl (take_all max_name_len name short)
Does-IsUnique {fs} short (deletes p n there away childless) u =
    IsUnique-Fewer fs _ (deleted-Fewer fs p) u
Does-IsUnique {fs} short (writes p n gap bytes offset there reg fits many) u =
    IsUnique-Fewer fs _ (written-Fewer fs p n _ there) u
Does-IsUnique short (reads p n len offset there reg) u = u
Does-IsUnique short (refuses_create home mode name dir there why) u = u
Does-IsUnique short (refuses_root p n there own) u = u
Does-IsUnique short (refuses_full p q n m there away child home) u = u
Does-IsUnique short (refuses_write p n bytes offset there other) u = u
Does-IsUnique short (refuses_size p n bytes offset there reg big) u = u
Does-IsUnique short (refuses_read p n len offset there other) u = u
Does-IsUnique short (starves_create home mode name dir there) u = u
Does-IsUnique short (starves_write p n bytes offset code there why) u = u
Does-IsUnique short (finds home p name n there inside away is) u = u
Does-IsUnique short (misses home name unnamed) u = u

Plays-IsUnique :
    {fs fs' : FileSystem} {trace : List (Call × Reply)}
    → Plays fs trace fs'
    → HaveShortNames trace
    → IsUnique fs
    → IsUnique fs'
Plays-IsUnique (over fs) short u = u
Plays-IsUnique (plays does rest) (short, rest_short) u =
    Plays-IsUnique rest rest_short (Does-IsUnique short does u)

module _ (env : Env) (s : Store) (got : (env.new_entry == 0) ≡ false) where
  root_alone : IsUnique (new_file_system env.new_entry)
  root_alone q r n m shows_n shows_m home name away_q away_r =
      elim (update_cases (λ p. none) env.new_entry (some (root_node env.new_entry)) q n shows_n) [
        | inl (q_root, is) ↦
            let node : root_node env.new_entry ≡ n = cc is in
            let own : env.new_entry ≡ n.parent = ap (λ (x : Node). x.parent) node in
            let same : (q == n.parent) ≡ true = rw (q_root ∙ own) (==_refl n.parent) in
            absurd (cc (same, away_q))
        | inr (other, there) ↦ absurd (cc there)
      ]

  -- After any sequence of creations, deletions, writes, reads and lookups as in
  -- Storage/Sound/Reached, without hard links, whose creations have names of at most 255 bytes, no directory has two entries under one name.
  pub Session-IsUnique :
      {s' : Store} {trace : List (Call × Reply)}
      → HaveShortNames trace
      → Session (fresh env s got) trace s'
      → IsUnique (view s')
  Session-IsUnique short session = Plays-IsUnique (fresh-Plays env s got session) short root_alone
