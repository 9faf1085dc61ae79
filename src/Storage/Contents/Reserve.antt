-- ===== src/Storage/Contents/Reserve.antt =====
-- The growth of a file's memory before a write.
use vtfs.Base.{
  ℕ, ◌+◌, ◌-◌, ◌≤◌, ◌<◌, ◌≡◌, refl, ◌⊎◌, inl, inr, true, false, none, some, Option, ◌&&◌,
  if◌then◌else◌, ◌==◌, ltb, leb, arith, Bool-cases, leb→le,
}
use vtfs.Storage.State.{Ptr, Entry, Block, Store, Env, load, update, max_file_size}
use vtfs.Storage.Contents.{new_capacity, grown, reserve}
use vtfs.Storage.Contents.File.{Backed, IsFile, byte_at, IsFresh}

-- The file after `reserve` has made room for `need` bytes: it holds what it held, and where the
-- memory has grown, the bytes between the old size and the offset are zeros.
pub record Reserved (env : Env) (s : Store) (p : Ptr) (e : Entry) (need offset : ℕ) (s' : Store)
    (e' : Entry) : Type 0 where
  pub file : IsFile s' p e'
  pub room : need ≤ e'.capacity
  pub same_size : e'.size ≡ e.size
  pub kept : (i : ℕ) → i < e.size → byte_at s' e' i ≡ byte_at s e i
  pub in_place : need ≤ e.capacity → s' ≡ s
  pub zeros : e.capacity < need → (i : ℕ) → e.size ≤ i → i < offset → byte_at s' e' i ≡ 0
  pub other_entries : (q : Ptr) → (q == p) ≡ false → s'.entry q ≡ s.entry q
  pub other_blocks :
      (b : Ptr) → (b == e.buffer) ≡ false → (b == env.new_block) ≡ false → s'.block b ≡ s.block b
  pub place : (e'.buffer ≡ e.buffer) ⊎ (e'.buffer ≡ env.new_block)
  pub root : s'.root ≡ s.root
  pub all_entries : s'.all_entries ≡ s.all_entries
  pub locked : s'.locked ≡ s.locked
  pub sent : s'.sent ≡ s.sent
  pub ino : e'.ino ≡ e.ino
  pub nlink : e'.nlink ≡ e.nlink
  pub meta :
      (e'.mode ≡ e.mode) × (e'.parent ≡ e.parent) × (e'.children ≡ e.children) × (e'.name ≡ e.name)

module _ (env : Env) (s : Store) (p : Ptr) (e : Entry) (need offset : ℕ) (f : IsFile s p e)
    (fresh : IsFresh env s e) (need_le : need ≤ max_file_size) (offset_le : offset ≤ need) where
  abbrev wanted : ℕ
  wanted = new_capacity need e.capacity

  abbrev grown_entry : Entry
  grown_entry = record e { buffer = env.new_block; capacity = wanted }

  -- the memory after `krealloc` has returned the block and `memset` has run
  abbrev after_memset : (Ptr → Option Block) → Block → Ptr → Option Block
  after_memset memory b =
      let placed = update memory env.new_block (some b) in
      if ltb e.size offset
      then update placed env.new_block (
          some (record {
            len = b.len;
            at = λ i. if leb e.size i && ltb i (e.size + (offset - e.size)) then 0 else b.at i;
          }))
      else placed

  abbrev grown_store : (Ptr → Option Block) → Block → Store
  grown_store memory b = record s {
    entry = update s.entry p (some grown_entry);
    block = after_memset memory b;
  }

  -- The block that `krealloc` returns, whether or not there was one before.
  module _ (b : Block) (len : b.len ≡ wanted) (memory : Ptr → Option Block)
      (old_bytes : (i : ℕ) → i < e.size → b.at i ≡ byte_at s e i) (small : e.capacity < need)
      (old_blocks : (c : Ptr)
        → (c == e.buffer) ≡ false
        → (c == env.new_block) ≡ false
        → memory c ≡ s.block c) where
    grown_Reserved : Reserved env s p e need offset (grown_store memory b) grown_entry
    grown_Reserved = record {
      file = record {
        not_null = f.not_null;
        live = ground arith;
        reg = f.reg;
        size_le = ground arith;
        capacity_le = ground arith;
        backed = inr (after, fresh.got, ground arith, ground arith);
      };
      room = ground arith;
      same_size = refl;
      kept = λ i lt. ground (arith, old_bytes i);
      in_place = λ le. absurd (omega arith);
      zeros = λ _ i lo hi. ground arith;
      other_entries = λ q n. rw n;
      other_blocks = λ c n m. ground (arith, old_blocks c n m);
      place = inr refl;
      root = refl;
      all_entries = refl;
      locked = refl;
      sent = refl;
      ino = refl;
      nlink = refl;
      meta = (refl, refl, refl, refl);
    }
      where
        after : Block
        after =
            if ltb e.size offset
            then record {
              len = b.len;
              at = λ i. if leb e.size i && ltb i (e.size + (offset - e.size)) then 0 else b.at i;
            }
            else b

  pub reserve_lem :
      (s' : Store) × (e' : Entry) × (reserve env p e need offset s ≡ some (true, s'))
      × Reserved env s p e need offset s' e'
  unfolding reserve load
  reserve_lem = elim (Bool-cases (leb need e.capacity)) [
    | inl room ↦ (
      s,
      e,
      rw room,
      record {
        file = f;
        room = leb→le _ _ room;
        same_size = refl;
        kept = λ i lt. refl;
        in_place = λ _. refl;
        zeros = λ lt. absurd (omega (arith, leb→le need e.capacity room));
        other_entries = λ q n. refl;
        other_blocks = λ b n m. refl;
        place = inl refl;
        root = refl;
        all_entries = refl;
        locked = refl;
        sent = refl;
        ino = refl;
        nlink = refl;
        meta = (refl, refl, refl, refl);
      },
    )
    | inr short ↦ grow short f.backed
  ]
    where
      grow :
          leb need e.capacity ≡ false
          → Backed s e
          → (s' : Store) × (e' : Entry) × (reserve env p e need offset s ≡ some (true, s'))
            × Reserved env s p e need offset s' e'
      grow short (inl (null, zero)) =
          let b = grown env none wanted in
          (
            grown_store s.block b,
            grown_entry,
            ground (arith, f.live, f.not_null, fresh.got),
            grown_Reserved b refl s.block (λ i lt. absurd (omega (arith, f.size_le))) (ground arith)
                (λ c n m. refl),
          )
      grow short (inr (b, nn, eb, len)) =
          let b' = grown env (some b) wanted in
          (
            grown_store (update s.block e.buffer none) b',
            grown_entry,
            ground (arith, f.live, f.not_null, fresh.got),
            grown_Reserved b' refl _ (λ i lt. ground (arith, f.size_le)) (ground arith)
                (λ c n m. rw n),
          )
