-- ===== src/Storage/Search/First.antt =====
-- What the two loops return in a well-formed storage.
use vtfs.Base.{
  ℕ, ◌≡◌, refl, sym, ◌⊎◌, inl, inr, Bool, true, false, some, List, [], ◌∷◌, ◌==◌, arith,
  if◌then◌else◌, Bool-cases, ==→eq,
}
use mathlib.Core.Path.{subst}
use vtfs.Base.Lists.{mem}
use vtfs.Base.Strings.{Bytes, str_eq}
use vtfs.Storage.State.{Ptr, Store, load, is_dir}
use vtfs.Storage.Tree.{at, Live, Live-mem, Live-of_mem, IsTree}
use vtfs.Storage.Search.{find_named, find_ino, vtfs_storage_lookup, vtfs_storage_get_by_ino}

-- A result of a search for the entries that pass a test: the front one, or 0 if there is none.
abbrev pub first : (Ptr → Bool) → List Ptr → Ptr
first test [] = 0
first test (p ∷ ps) = if test p then p else first test ps

-- Either the search found a listed entry that passes the test, or it returned 0 and none does.
abbrev pub Finds : (Ptr → Bool) → List Ptr → Ptr → Type 0
Finds test ps p =
    ((mem p ps ≡ true) × (test p ≡ true))
    ⊎ ((p ≡ 0) × ((q : Ptr) → mem q ps ≡ true → test q ≡ false))

pub first-Finds : (test : Ptr → Bool) (ps : List Ptr) → Finds test ps (first test ps)
first-Finds test [] = inr (refl, λ q m. cc)
first-Finds test (p ∷ ps) = elim (Bool-cases (test p)) [
  | inl hit ↦ subst (Finds test (p ∷ ps)) (sym (first_hit hit)) (inl (ground arith, hit))
  | inr miss ↦
      subst (Finds test (p ∷ ps)) (sym (first_miss miss)) (later miss (first-Finds test ps))
]
  where
    first_hit : test p ≡ true → first test (p ∷ ps) ≡ p
    first_hit h = rw h

    first_miss : test p ≡ false → first test (p ∷ ps) ≡ first test ps
    first_miss h = rw h

    later : {q : Ptr} → test p ≡ false → Finds test ps q → Finds test (p ∷ ps) q
    later miss' (inl (m, t)) = inl (ground arith, t)
    later miss' (inr (z, none_fit)) = inr (
      z,
      λ r m. elim (Bool-cases (r == p)) [
        | inl same ↦ rw (==→eq r p same) miss'
        | inr other ↦ none_fit r (ground arith)
      ],
    )

pub first_none :
    (test : Ptr → Bool) (ps : List Ptr)
    → ((q : Ptr) → mem q ps ≡ true → test q ≡ false)
    → first test ps ≡ 0
first_none test ps h = elim (first-Finds test ps) [
  | inl (m, hit) ↦ absurd (cc (hit, h (first test ps) m))
  | inr (zero, none_fit) ↦ zero
]

-- Where an entry of the chain passes the test, the search finds one, and it is no NULL.
pub first-ne-null :
    (test : Ptr → Bool) (ps : List Ptr) (q : Ptr)
    → mem q ps ≡ true
    → test q ≡ true
    → mem 0 ps ≡ false
    → (first test ps == 0) ≡ false
first-ne-null test ps q m hit no_null = elim (first-Finds test ps) [
  | inl (i, t) ↦ elim (Bool-cases (first test ps == 0)) [
    | inl zero ↦
        let z : first test ps ≡ 0 = ==→eq (first test ps) 0 zero in absurd (cc (i, z, no_null))
    | inr other ↦ other
  ]
  | inr (zero, none_fit) ↦ absurd (cc (hit, none_fit q m))
]

module _ (s : Store) where
  abbrev pub named : Bytes → Ptr → Bool
  named name p = str_eq (at s p).name name

  abbrev pub has_ino : ℕ → Ptr → Bool
  has_ino ino p = (at s p).ino == ino

  find_named-first :
      (name : Bytes) (ps : List Ptr)
      → Live s ps
      → find_named name ps s ≡ some (first (named name) ps, s)
  unfolding find_named load
  find_named-first name [] h = refl
  find_named-first name (p ∷ ps) (p0, e, h) =
      rw p0 (rw e (ground (arith, find_named-first name ps h)))

  find_ino-first :
      (ino : ℕ) (ps : List Ptr) → Live s ps → find_ino ino ps s ≡ some (first (has_ino ino) ps, s)
  unfolding find_ino load
  find_ino-first ino [] h = refl
  find_ino-first ino (p ∷ ps) (p0, e, h) = rw p0 (rw e (ground (arith, find_ino-first ino ps h)))

module _ (s : Store) where
  -- In a well-formed storage, a lookup in a listed directory returns the first child of that name,
  -- or NULL if there is none, and changes nothing.
  pub lookup-first :
      (parent : Ptr) (name : Bytes)
      → IsTree s
      → mem parent s.all_entries ≡ true
      → is_dir (at s parent).mode ≡ true
      → vtfs_storage_lookup parent name s ≡ some (first (named s name) (at s parent).children, s)
  unfolding vtfs_storage_lookup load
  lookup-first parent name t m d =
      let (p0, ep) = Live-mem s parent s.all_entries t.live m in
      let chain =
        Live-of_mem s s.all_entries (at s parent).children t.live
          (λ q i. (t.child_listed parent q m i).0) in
      let s' = record s { locked = true } in
      let got : find_named name (at s parent).children s'
          ≡ some (first (named s name) (at s parent).children, s') =
        find_named-first s' name (at s parent).children chain in
      ground arith

  -- In a well-formed storage, the search for an inode number returns the first entry that has it, or
  -- NULL if there is none, and changes nothing.
  pub get_by_ino-first :
      (ino : ℕ)
      → IsTree s
      → vtfs_storage_get_by_ino ino s ≡ some (first (has_ino s ino) s.all_entries, s)
  unfolding vtfs_storage_get_by_ino load
  get_by_ino-first ino t =
      let s' = record s { locked = true } in
      let got : find_ino ino s.all_entries s' ≡ some (first (has_ino s ino) s.all_entries, s') =
        find_ino-first s' ino s.all_entries t.live in
      ground arith
