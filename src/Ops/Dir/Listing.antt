-- ===== src/Ops/Dir/Listing.antt =====
-- What a directory lists, and how a reader that stops goes on where it stopped.
use vtfs.Base.{
  ℕ, zero, suc, ◌+◌, ◌≡◌, sym, ap, ◌∙◌, Bool, true, false, Option, some, List, [], ◌∷◌, ◌++◌,
  append_assoc, append-nil, ◌==◌, arith, if◌then◌else◌, Bool-cases, inl, inr,
}
use vtfs.Base.Int.{ℤ, int_of}
use vtfs.Base.Lists.{length, drop, mem}
use vtfs.Storage.State.{Ptr, Store, is_dir, load_lem, load, spin_lock}
use vtfs.Storage.Tree.{at, Live, IsTree, Live-mem, Live-of_mem}
use vtfs.Storage.Search.{vtfs_storage_get_by_ino}
use vtfs.Storage.Search.First.{first, has_ino, get_by_ino-first}
use vtfs.Ops.Dir.{
  Dirent, Ctx, push, dirent, dot, dot_dot, parent_number, emit_children, emit_entries, emit_parent,
  vtfs_iterate,
}

-- The items for the entries of a chain.
abbrev pub dirents : Store → List Ptr → List Dirent
dirents s [] = []
dirents s (p ∷ ps) = dirent (at s p) ∷ dirents s ps

-- All that a directory has: `.`, `..` and its children.
abbrev pub listing : Store → Ptr → ℕ → Option ℕ → List Dirent
listing s dir ino up = dot ino ∷ dot_dot (parent_number ino up) ∷ dirents s (at s dir).children

module _ (accept : List Dirent → Dirent → Bool) where
  -- What a reader takes of some items: those in front of the first that it does not accept.
  abbrev pub taken : List Dirent → List Dirent → List Dirent
  taken seen [] = []
  taken seen (d ∷ ds) = if accept seen d then d ∷ taken (seen ++ d ∷ []) ds else []

  -- The result of a call that has stored some items and goes through the rest.
  abbrev go : List Dirent → ℕ → Ctx → ℤ × Ctx
  go [] stored ctx = (int_of stored, ctx)
  go (d ∷ ds) stored ctx =
      if accept ctx.emitted d then go ds (stored + 1) (push d ctx) else (int_of stored, ctx)

  emit_children-go :
      (s : Store) (ps : List Ptr) (k stored : ℕ) (ctx : Ctx)
      → s.locked ≡ false
      → Live s ps
      → emit_children accept ps (k + 2) stored ctx (record s { locked = true })
        ≡ some (go (drop k (dirents s ps)) stored ctx, s)
  unfolding emit_children load spin_lock
  emit_children-go s [] zero stored ctx free live = ground arith
  emit_children-go s [] (suc k) stored ctx free live = ground arith
  emit_children-go s (p ∷ ps) zero stored ctx free (p0, ep, live) =
      ground (arith, emit_children-go s ps 0 (stored + 1) (push (dirent (at s p)) ctx) free live)
  emit_children-go s (p ∷ ps) (suc k) stored ctx free (p0, ep, live) =
      ground (arith, emit_children-go s ps k stored ctx free live)

  -- The result of a call that has stored some items and takes some more.
  abbrev pub after : ℕ → Ctx → List Dirent → ℤ × Ctx
  after stored ctx out = (
    int_of (stored + length out),
    record { position = ctx.position + length out; emitted = ctx.emitted ++ out },
  )

  after_same :
      {n m p q : ℕ} {a b : List Dirent}
      → n ≡ m
      → p ≡ q
      → a ≡ b
      → ◌≡◌ {A = ℤ × Ctx}
          (int_of n, record { position = p; emitted = a })
          (int_of m, record { position = q; emitted = b })
  after_same e f g = rw e (rw f (rw g))

  after_nothing : (stored : ℕ) (ctx : Ctx) → (int_of stored, ctx) ≡ after stored ctx []
  after_nothing stored ctx = after_same (omega arith) (omega arith) (sym (append-nil ctx.emitted))

  go-taken :
      (ds : List Dirent) (stored : ℕ) (ctx : Ctx)
      → go ds stored ctx ≡ after stored ctx (taken ctx.emitted ds)
  go-taken [] stored ctx = after_nothing stored ctx
  go-taken (d ∷ ds) stored ctx = elim (Bool-cases (accept ctx.emitted d)) [
    | inl takes ↦ rw takes (
        go-taken ds (stored + 1) (push d ctx)
        ∙ after_same (omega arith) (omega arith)
            (append_assoc ctx.emitted (d ∷ []) (taken (ctx.emitted ++ d ∷ []) ds)))
    | inr stops ↦ rw stops (after_nothing stored ctx)
  ]

  module _ (s : Store) (dir : Ptr) (t : IsTree s) (m : mem dir s.all_entries ≡ true) where
    live_dir : ((dir == 0) ≡ false) × (s.entry dir ≡ some (at s dir))
    live_dir = Live-mem s dir s.all_entries t.live m

    emit_entries-go :
        (k stored : ℕ) (ctx : Ctx)
        → emit_entries accept dir (k + 2) stored ctx s
          ≡ some (go (drop k (dirents s (at s dir).children)) stored ctx, s)
    unfolding emit_entries load spin_lock
    emit_entries-go k stored ctx =
        let chain =
          Live-of_mem s s.all_entries (at s dir).children t.live
            (λ q i. (t.child_listed dir q m i).0) in
        let run = emit_children-go s (at s dir).children k stored ctx t.unlocked chain in
        ground (arith, live_dir.0, live_dir.1, t.unlocked)

    -- From offset 1 on: `..` is the first item.
    emit_parent-go :
        (number k stored : ℕ) (ctx : Ctx)
        → emit_parent accept dir number (k + 1) stored ctx s
          ≡ some (go (drop k (dot_dot number ∷ dirents s (at s dir).children)) stored ctx, s)
    unfolding emit_parent
    emit_parent-go number zero stored ctx =
        let below = emit_entries-go 0 (stored + 1) (push (dot_dot number) ctx) in
        ground (arith, below)
    emit_parent-go number (suc k) stored ctx =
        let below = emit_entries-go k stored ctx in ground (arith, below)

    iterate-go :
        (ino : ℕ) (up : Option ℕ) (place : ℕ) (seen : List Dirent)
        → vtfs_storage_get_by_ino ino s ≡ some (dir, s)
        → is_dir (at s dir).mode ≡ true
        → vtfs_iterate accept ino up (record { position = place; emitted = seen }) s
          ≡ some (
            go (drop place (listing s dir ino up)) 0 (record { position = place; emitted = seen }),
            s,
          )
    unfolding vtfs_iterate
    iterate-go ino up zero seen found d =
        let ctx : Ctx = record { position = 0; emitted = seen } in
        let below = emit_parent-go (parent_number ino up) 0 1 (push (dot ino) ctx) in
        let run = load_lem dir s (at s dir) live_dir.0 live_dir.1 in ground (arith, live_dir.0)
    iterate-go ino up (suc k) seen found d =
        let ctx : Ctx = record { position = suc k; emitted = seen } in
        let below = emit_parent-go (parent_number ino up) k 0 ctx in
        let run = load_lem dir s (at s dir) live_dir.0 live_dir.1 in ground (arith, live_dir.0)

    -- In a well-formed storage, for a listed directory that is the first entry with its inode
    -- number: from any position on, the reader is given the items of the directory that it accepts,
    -- up to the first that it does not; the position moves on by their number, which is returned,
    -- and the storage is as it was, the lock released.
    pub iterate-taken :
        (ino : ℕ) (up : Option ℕ) (ctx : Ctx)
        → first (has_ino s ino) s.all_entries ≡ dir
        → is_dir (at s dir).mode ≡ true
        → vtfs_iterate accept ino up ctx s
          ≡ some (after 0 ctx (taken ctx.emitted (drop ctx.position (listing s dir ino up))), s)
    iterate-taken ino up ctx found d =
        let got : vtfs_storage_get_by_ino ino s ≡ some (dir, s) =
          get_by_ino-first s ino t ∙ ap (λ (r : Ptr). some (r, s)) found in
        iterate-go ino up ctx.position ctx.emitted got d
        ∙ ap (λ (r : ℤ × Ctx). some (r, s))
            (go-taken (drop ctx.position (listing s dir ino up)) 0 ctx)
