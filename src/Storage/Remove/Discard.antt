-- ===== src/Storage/Remove/Discard.antt =====
-- The end of a deletion: the data and the entry are freed.
use vtfs.Base.{
  ℕ, ◌≡◌, refl, ◌⊎◌, false, not, ◌&&◌, Option, none, some, ◌==◌, ltb, arith, inl, inr,
  if◌then◌else◌,
}
use vtfs.Storage.State.{Ptr, Entry, Block, Store, load, change, free_entry_at, update}
use vtfs.Storage.Remove.{discard}

-- A data pointer that may be freed: NULL, or one that points to a block.
abbrev pub Freeable : Store → Ptr → Type 0
Freeable s p = (p ≡ 0) ⊎ (((p == 0) ≡ false) × ((b : Block) × (s.block p ≡ some b)))

pub record Discarded (entry shared : Ptr) (others : ℕ) (s s' : Store) : Type 0 where
  pub gone : s'.entry entry ≡ none
  pub kept : (q : Ptr) → (q == entry) ≡ false → s'.entry q ≡ s.entry q
  pub block :
      (b : Ptr)
      → s'.block b ≡ (if others == 0 && not (b == 0) && (b == shared) then none else s.block b)
  pub root : s'.root ≡ s.root
  pub all_entries : s'.all_entries ≡ s.all_entries
  pub next_ino : s'.next_ino ≡ s.next_ino
  pub locked : s'.locked ≡ s.locked
  pub sent : s'.sent ≡ s.sent

module _ (s : Store) (entry : Ptr) (e : Entry) (shared : Ptr) (others : ℕ)
    (p0 : (entry == 0) ≡ false) (live : s.entry entry ≡ some e) where
  abbrev freed : (Ptr → Option Block) → Store
  freed blocks = record s {
    entry =
        if ltb 0 others
        then update (update s.entry entry (some (record e { buffer = 0 }))) entry none
        else update s.entry entry none;
    block = blocks;
  }

  abbrev blocks_after : Ptr → Option Block
  blocks_after = if others == 0 && not (shared == 0) then update s.block shared none else s.block

  discard_run : Freeable s shared → discard entry shared others s ≡ some (tt, freed blocks_after)
  unfolding discard change free_entry_at load
  discard_run (inl null) = ground arith
  discard_run (inr (n, (b, eb))) = ground arith

  pub discard_lem :
      Freeable s shared
      → (s' : Store) × (discard entry shared others s ≡ some (tt, s'))
        × Discarded entry shared others s s'
  discard_lem f = (
    freed blocks_after,
    discard_run f,
    record {
      gone = ground arith;
      kept = λ q n. ground arith;
      block = λ b. ground arith;
      root = refl;
      all_entries = refl;
      next_ino = refl;
      locked = refl;
      sent = refl;
    },
  )
