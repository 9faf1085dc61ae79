-- ===== src/Storage/Path/Full.antt =====
-- The path that `build_path` writes.
use vtfs.Base.{
  ℕ, zero, suc, ◌≤◌, ◌<◌, ◌≡◌, inl, inr, Bool, true, false, some, List, [], ◌∷◌, ◌++◌, ◌==◌, arith,
  ◌||◌, Bool-cases, ==→eq,
}
use vtfs.Base.Lists.{length, mem}
use vtfs.Base.Strings.{Bytes, clip, strlcat-clip}
use vtfs.Storage.State.{Ptr, Store, Request, load}
use vtfs.Storage.Tree.{at, Live, Live-mem, Older, IsTree}
use vtfs.Storage.Path.{slash, climb, build_path}

-- `IsPath s p path n`: the names from the root down to `p`, each behind a slash, are `path`, and
-- `n` is the number of the entries on the way.
pub data IsPath (s : Store) : Ptr → Bytes → ℕ → Type 0 where
  root_path : {p : Ptr} → (p == s.root) ≡ true → IsPath s p slash 0
  top_path :
      {p : Ptr}
      → (p == s.root) ≡ false
      → (p == 0) ≡ false
      → s.entry p ≡ some (at s p)
      → ((at s p).parent == s.root) ≡ true
      → IsPath s p (slash ++ (at s p).name) 1
  below_path :
      {p : Ptr} {path : Bytes} {n : ℕ}
      → (p == s.root) ≡ false
      → (p == 0) ≡ false
      → s.entry p ≡ some (at s p)
      → ((at s p).parent == s.root) ≡ false
      → ((at s p).parent == 0) ≡ false
      → IsPath s (at s p).parent path n
      → IsPath s p ((path ++ slash) ++ (at s p).name) (suc n)

-- The requests sent and the lock have no part in a path.
pub IsPath-sent :
    (s : Store) (sent : List Request) (locked : Bool) {p : Ptr} {path : Bytes} {n : ℕ}
    → IsPath s p path n
    → IsPath (record s { sent = sent; locked = locked }) p path n
IsPath-sent s sent locked (root_path e) = root_path e
IsPath-sent s sent locked (top_path nr p0 ep top) = top_path nr p0 ep top
IsPath-sent s sent locked (below_path nr p0 ep inner pp above) =
    below_path nr p0 ep inner pp (IsPath-sent s sent locked above)

climb-IsPath :
    (s : Store) (size fuel : ℕ) {p : Ptr} {path : Bytes} {n : ℕ}
    → (s.root == 0) ≡ false
    → IsPath s p path n
    → n < fuel
    → climb fuel p size s ≡ some (clip size path, s)
unfolding climb load
climb-IsPath s size zero r0 h lt = absurd (omega arith)
climb-IsPath s size (suc fuel) r0 (root_path e) lt = ground arith
climb-IsPath s size (suc fuel) r0 (top_path {p} nr p0 ep top) lt = ground arith
climb-IsPath s size (suc fuel) r0 (below_path {p} {path} nr p0 ep inner pp above) lt = ground (
  arith,
  climb-IsPath s size fuel r0 above,
  strlcat-clip size path slash,
  strlcat-clip size (path ++ slash) (at s p).name,
)

module _ (s : Store) (r0 : (s.root == 0) ≡ false) where
  -- The path of an entry of the chain, with at most as many names as the chain has entries.
  abbrev HasPath : List Ptr → Ptr → Type 0
  HasPath ps p = (path : Bytes) × (n : ℕ) × IsPath s p path n × (n ≤ length ps)

  step_down :
      (ps : List Ptr) (p : Ptr)
      → (p == s.root) ≡ false
      → (p == 0) ≡ false
      → s.entry p ≡ some (at s p)
      → ((at s p).parent == 0) ≡ false
      → HasPath ps (at s p).parent
      → HasPath (p ∷ ps) p
  step_down ps p nr p0 ep pp0 (path, n, is, le) = elim (Bool-cases ((at s p).parent == s.root)) [
    | inl top ↦ (slash ++ (at s p).name, 1, top_path nr p0 ep top, omega arith)
    | inr inner ↦
        ((path ++ slash) ++ (at s p).name, suc n, below_path nr p0 ep inner pp0 is, omega arith)
  ]

  chain_path : (ps : List Ptr) (p : Ptr) → Live s ps → Older s ps → mem p ps ≡ true → HasPath ps p
  chain_path [] p live older m = cc
  chain_path (q ∷ ps) p (q0, eq, live) (older_q, older) m = elim (Bool-cases (p == s.root)) [
    | inl at_root ↦ (slash, 0, root_path at_root, omega arith)
    | inr below ↦ elim (Bool-cases (p == q)) [
      | inl same ↦
          let e : p ≡ q = ==→eq p q same in
          let up : mem (at s p).parent ps ≡ true =
            let o : ((p == s.root) || mem (at s p).parent ps) ≡ true = rw e older_q in
            ground arith in
          step_down ps p below (rw e q0) (rw e eq) (Live-mem s (at s p).parent ps live up).0
            (chain_path ps (at s p).parent live older up)
      | inr other ↦ weaken (chain_path ps p live older (ground arith))
    ]
  ]
    where
      weaken : HasPath ps p → HasPath (q ∷ ps) p
      weaken (path, n, is, le) = (path, n, is, omega arith)

-- For an entry of a well-formed storage the fuel suffices: `build_path` ends without a fault,
-- changes nothing, and leaves the full path in the buffer, clipped to its size.
pub build_path-IsPath :
    (s : Store) (p : Ptr) (size : ℕ)
    → IsTree s
    → mem p s.all_entries ≡ true
    → (path : Bytes) × (n : ℕ) × IsPath s p path n
      × (build_path p size s ≡ some (clip size path, s))
unfolding build_path
build_path-IsPath s p size t m =
    let r0 = (Live-mem s s.root s.all_entries t.live t.root_listed).0 in
    let (path, n, is, le) = chain_path s r0 s.all_entries p t.live t.older m in
    (path, n, is, climb-IsPath s size (suc (length s.all_entries)) r0 is (omega arith))

-- The same under the lock, where `vtfs_storage_delete_entry` calls it.
pub build_path-held :
    (s : Store) (p : Ptr) (size : ℕ)
    → IsTree s
    → mem p s.all_entries ≡ true
    → (path : Bytes) × (n : ℕ) × IsPath s p path n
      × (build_path p size (record s { locked = true })
          ≡ some (clip size path, record s { locked = true }))
unfolding build_path
build_path-held s p size t m =
    let r0 = (Live-mem s s.root s.all_entries t.live t.root_listed).0 in
    let (path, n, is, le) = chain_path s r0 s.all_entries p t.live t.older m in
    let fuel = suc (length s.all_entries) in
    let held = record s { locked = true } in
    (path, n, is, climb-IsPath held size fuel r0 (IsPath-sent s s.sent true is) (omega arith))
