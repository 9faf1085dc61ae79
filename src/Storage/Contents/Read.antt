-- ===== src/Storage/Contents/Read.antt =====
-- What `vtfs_storage_read` returns, alone and after a write.
use vtfs.Base.{
  ℕ, suc, ◌+◌, ◌-◌, ◌≤◌, ◌<◌, min, ◌≡◌, refl, inl, inr, true, false, some, ltb, arith, Bool-cases,
  ltb→lt, if◌then◌else◌, [], ◌∷◌,
}
use vtfs.Base.Int.{pos}
use vtfs.Base.Lists.{length, get_or, mem}
use vtfs.Base.Strings.{Bytes}
use vtfs.Storage.State.{Ptr, Entry, Store, Env, load, update, max_file_size}
use vtfs.Storage.Tree.{IsTree}
use vtfs.Storage.Contents.{slice, vtfs_storage_read, vtfs_storage_write}
use vtfs.Storage.Contents.File.{IsFile, byte_at, IsFresh}
use vtfs.Storage.Contents.Write.{Written, write-Written}

module _ (env : Env) (s : Store) (p : Ptr) (e : Entry) (len offset : ℕ)
    (unlocked : s.locked ≡ false) (f : IsFile s p e) where
  -- the store after a read: only the time of access is new
  abbrev pub accessed : Store
  accessed = record s { entry = update s.entry p (some (record e { atime = env.now })) }

  read_inside :
      offset < e.size
      → vtfs_storage_read env p len offset s
        ≡ some (
          (pos (min len (e.size - offset)), slice (byte_at s e) offset (min len (e.size - offset))),
          accessed,
        )
  unfolding vtfs_storage_read load
  read_inside inside = elim f.backed [
    | inl (null, zero_capacity) ↦ absurd (omega (arith, f.size_le))
    | inr (b, nn, eb, le) ↦ ground (arith, f.live, f.not_null, f.reg, f.size_le, f.capacity_le)
  ]

  read_outside : e.size ≤ offset → vtfs_storage_read env p len offset s ≡ some ((pos 0, []), s)
  unfolding vtfs_storage_read load
  read_outside outside = ground (arith, f.live, f.not_null, f.reg)

  -- A read of a regular file whose memory agrees with its capacity, in a storage that is not
  -- locked: inside the file it returns the bytes from the offset on, as many as asked for or as
  -- there are, with their number, and writes nothing but the time of access; at or behind the end
  -- it returns 0 bytes and changes nothing.
  pub read-slice :
      vtfs_storage_read env p len offset s
      ≡ some (
          if ltb offset e.size
          then (
            (
              pos (min len (e.size - offset)),
              slice (byte_at s e) offset (min len (e.size - offset)),
            ),
            accessed,
          )
          else ((pos 0, []), s))
  read-slice = elim (Bool-cases (ltb offset e.size)) [
    | inl inside ↦ rw inside (read_inside (ltb→lt offset e.size inside))
    | inr outside ↦ rw outside (read_outside (ground arith))
  ]

-- Bytes that agree at each offset are the same list.
pub slice_eq :
    (f : ℕ → ℕ) (i : ℕ) (bytes : Bytes)
    → ((k : ℕ) → k < length bytes → f (i + k) ≡ get_or bytes k 0)
    → slice f i (length bytes) ≡ bytes
slice_eq f i [] h = refl
slice_eq f i (c ∷ bytes) h =
    ground (arith, h 0 (omega arith), slice_eq f (i + 1) bytes (λ k lt. ground (arith, h (suc k))))

module _ (env : Env) (s : Store) (p : Ptr) (e : Entry) (bytes : Bytes) (offset : ℕ) (t : IsTree s)
    (m : mem p s.all_entries ≡ true) (f : IsFile s p e) (fresh : IsFresh env s e)
    (fits : offset + length bytes ≤ max_file_size) (some_bytes : 0 < length bytes) where
  pub read_back :
      (s' : Store) (e' : Entry) (w : Written env s p e bytes offset s' e') (env' : Env)
      → vtfs_storage_read env' p (length bytes) offset s'
        ≡ some (
          (pos (length bytes), bytes),
          accessed env' s' p e' (length bytes) offset w.tree.unlocked w.file,
        )
  read_back s' e' w env' =
      let n = min (length bytes) (e'.size - offset) in
      let n_eq : n ≡ length bytes = omega (arith, w.size) in
      let got : slice (byte_at s' e') offset (length bytes) ≡ bytes =
        slice_eq (byte_at s' e') offset bytes w.new_bytes in
      cc (
        read_inside env' s' p e' (length bytes) offset w.tree.unlocked w.file
            (omega (arith, w.size)),
        n_eq,
        got,
      )

  -- What is written is read back. In a well-formed storage, for a listed regular file whose memory
  -- agrees with its capacity and an allocator that succeeds, after a write of one byte or more that
  -- fits the limit on the size, a read of that length at that offset returns the bytes and their
  -- number, without a fault, in any later environment.
  pub read-write :
      (env' : Env)
      → (s' : Store) × (s'' : Store) × (vtfs_storage_write env p bytes offset s
          ≡ some (pos (length bytes), s'))
        × (vtfs_storage_read env' p (length bytes) offset s'
            ≡ some ((pos (length bytes), bytes), s''))
  read-write env' =
      let (s', e', run, w, sent) = write-Written env s p e bytes offset t m f fresh fits in
      (
        s',
        accessed env' s' p e' (length bytes) offset w.tree.unlocked w.file,
        run,
        read_back s' e' w env',
      )
