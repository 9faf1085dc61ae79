-- ===== src/Storage/Contents/Fill.antt =====
-- The copy of the bytes of a write, the new size and the times.
use vtfs.Base.{
  ℕ, ◌+◌, ◌≤◌, max, ◌≡◌, refl, inl, inr, false, Option, some, ◌==◌, ltb, arith, Bool-cases,
  if◌then◌else◌,
}
use vtfs.Base.Lists.{length}
use vtfs.Base.Strings.{Bytes}
use vtfs.Storage.State.{Ptr, Entry, Block, Store, Env, load, update}
use vtfs.Storage.Contents.{overlay, fill}
use vtfs.Storage.Contents.File.{Backed, IsFile, byte_at}

-- The copy of the bytes into memory that has the room.
pub record Filled (s : Store) (p : Ptr) (e : Entry) (bytes : Bytes) (offset : ℕ) (s' : Store)
    (e' : Entry) : Type 0 where
  pub file : IsFile s' p e'
  pub size : e'.size ≡ max e.size (offset + length bytes)
  pub copied : (i : ℕ) → byte_at s' e' i ≡ overlay (byte_at s e) offset bytes i
  pub other_entries : (q : Ptr) → (q == p) ≡ false → s'.entry q ≡ s.entry q
  pub other_blocks : (b : Ptr) → (b == e.buffer) ≡ false → s'.block b ≡ s.block b
  pub root : s'.root ≡ s.root
  pub all_entries : s'.all_entries ≡ s.all_entries
  pub locked : s'.locked ≡ s.locked
  pub sent : s'.sent ≡ s.sent
  pub ino : e'.ino ≡ e.ino
  pub nlink : e'.nlink ≡ e.nlink
  pub meta :
      (e'.mode ≡ e.mode)
      × (e'.parent ≡ e.parent)
      × (e'.children ≡ e.children)
      × (e'.buffer ≡ e.buffer)
      × (e'.name ≡ e.name)

module _ (env : Env) (s : Store) (p : Ptr) (e : Entry) (bytes : Bytes) (offset : ℕ)
    (f : IsFile s p e) (room : offset + length bytes ≤ e.capacity) where
  abbrev filled_entry : Entry
  filled_entry = record e {
    size = if ltb e.size (offset + length bytes) then offset + length bytes else e.size;
    mtime = env.now;
    ctime = env.now;
  }

  -- The outcome over a memory that holds the bytes.
  abbrev filled_store : (Ptr → Option Block) → Store
  filled_store memory = record s { entry = update s.entry p (some filled_entry); block = memory }

  abbrev pub Outcome : Type 0
  Outcome =
      (s' : Store) × (e' : Entry) × (fill env p bytes (offset + length bytes) offset s
        ≡ some (tt, s'))
      × Filled s p e bytes offset s' e'

  outcome :
      (memory : Ptr → Option Block)
      → fill env p bytes (offset + length bytes) offset s ≡ some (tt, filled_store memory)
      → Backed (filled_store memory) filled_entry
      → ((i : ℕ)
          → byte_at (filled_store memory) filled_entry i ≡ overlay (byte_at s e) offset bytes i)
      → ((b : Ptr) → (b == e.buffer) ≡ false → memory b ≡ s.block b)
      → Outcome
  outcome memory run backed copied others = (
    filled_store memory,
    filled_entry,
    run,
    record {
      file = record {
        not_null = f.not_null;
        live = ground arith;
        reg = f.reg;
        size_le = ground (arith, f.size_le);
        capacity_le = f.capacity_le;
        backed = backed;
      };
      size = ground arith;
      copied = copied;
      other_entries = λ q n. rw n;
      other_blocks = others;
      root = refl;
      all_entries = refl;
      locked = refl;
      sent = refl;
      ino = refl;
      nlink = refl;
      meta = (refl, refl, refl, refl, refl);
    },
  )

  fill_nothing : length bytes ≡ 0 → Outcome
  unfolding fill load
  fill_nothing none_left =
      outcome s.block (ground (arith, f.live, f.not_null)) f.backed (λ i. ground arith)
        (λ b n. refl)

  pub fill_lem : Outcome
  unfolding fill load
  fill_lem = elim f.backed [
    | inl (null, zero) ↦ fill_nothing (omega arith)
    | inr (b, nn, eb, len) ↦ elim (Bool-cases (length bytes == 0)) [
      | inl empty ↦ fill_nothing (ground arith)
      | inr some_left ↦
          outcome
            (update s.block e.buffer
              (some (record { len = b.len; at = overlay b.at offset bytes })))
            (ground (arith, f.live, f.not_null))
            (inr (record { len = b.len; at = overlay b.at offset bytes }, nn, ground arith, len))
            (λ i. ground arith) (λ c n. rw n)
    ]
  ]
