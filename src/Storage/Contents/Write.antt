-- ===== src/Storage/Contents/Write.antt =====
-- What `vtfs_storage_write` does to the file, to the rest of the storage, and to the server.
use vtfs.Base.{
  ℕ, ◌+◌, ◌%◌, ◌^◌, ◌≤◌, ◌<◌, max, ◌≡◌, refl, ◌⊎◌, inl, inr, true, false, some, ◌==◌, ltb, arith,
  Bool-cases, List, ◌∷◌, if◌then◌else◌, ◌∙◌, ap,
}
use vtfs.Base.Int.{pos}
use vtfs.Base.Lists.{length, get_or, mem}
use vtfs.Base.Strings.{Bytes, clip}
use vtfs.Storage.State.{
  Ptr, Entry, Store, Env, Request, write_request, load, max_file_size, use_remote_server,
}
use vtfs.Storage.Tree.{IsTree}
use vtfs.Storage.Tree.Shape.{SameShape, IsTree-SameShape, SameShape-of_one}
use vtfs.Storage.Path.{build_path}
use vtfs.Storage.Path.Full.{build_path-IsPath}
use vtfs.Storage.Contents.{fill, reserve, vtfs_storage_write}
use vtfs.Storage.Contents.File.{IsFile, byte_at, IsFresh}
use vtfs.Storage.Contents.Reserve.{Reserved, reserve_lem}
use vtfs.Storage.Contents.Fill.{Filled, fill_lem}

-- A successful write: the file holds the bytes at the offset and its old bytes elsewhere, it is as
-- long as it has to be, and nothing else has changed. Where the memory had to grow, the gap between
-- the old end and the offset is zeros; where it had the room, the gap keeps what the memory held.
pub record Written (env : Env) (s : Store) (p : Ptr) (e : Entry) (bytes : Bytes) (offset : ℕ)
    (s' : Store) (e' : Entry) : Type 0 where
  pub file : IsFile s' p e'
  pub ino : e'.ino ≡ e.ino
  pub nlink : e'.nlink ≡ e.nlink
  pub all_entries : s'.all_entries ≡ s.all_entries
  pub tree : IsTree s'
  pub size : e'.size ≡ max e.size (offset + length bytes)
  pub new_bytes : (i : ℕ) → i < length bytes → byte_at s' e' (offset + i) ≡ get_or bytes i 0
  pub old_bytes :
      (i : ℕ)
      → i < e.size
      → (i < offset) ⊎ (offset + length bytes ≤ i)
      → byte_at s' e' i ≡ byte_at s e i
  pub gap :
      e.capacity < offset + length bytes → (i : ℕ) → e.size ≤ i → i < offset → byte_at s' e' i ≡ 0
  pub stale :
      offset + length bytes ≤ e.capacity
      → (i : ℕ) → e.size ≤ i
      → i < offset
      → byte_at s' e' i ≡ byte_at s e i
  pub other_entries : (q : Ptr) → (q == p) ≡ false → s'.entry q ≡ s.entry q
  pub other_blocks :
      (b : Ptr) → (b == e.buffer) ≡ false → (b == env.new_block) ≡ false → s'.block b ≡ s.block b
  pub place : (e'.buffer ≡ e.buffer) ⊎ (e'.buffer ≡ env.new_block)
  pub kept : (e'.mode ≡ e.mode) × (e'.parent ≡ e.parent) × (e'.name ≡ e.name)

module _ (env : Env) (s : Store) (p : Ptr) (e : Entry) (bytes : Bytes) (offset : ℕ) (t : IsTree s)
    (m : mem p s.all_entries ≡ true) (f : IsFile s p e) (fresh : IsFresh env s e)
    (fits : offset + length bytes ≤ max_file_size) where
  -- the state under the lock
  abbrev held : Store
  held = record s { locked = true }

  held-IsFile : IsFile held p e
  held-IsFile = record {
    not_null = f.not_null;
    live = f.live;
    reg = f.reg;
    size_le = f.size_le;
    capacity_le = f.capacity_le;
    backed = f.backed;
  }

  held-IsFresh : IsFresh env held e
  held-IsFresh = record { got = fresh.got; unused = fresh.unused }

  abbrev pub WriteResult : Type 0
  WriteResult =
      (s' : Store) × (e' : Entry) × (vtfs_storage_write env p bytes offset s
        ≡ some (pos (length bytes), s'))
      × Written env s p e bytes offset s' e'
      × ((path : Bytes) × (s'.sent ≡ (
            if use_remote_server env
            then write_request (clip 512 path) bytes 0 ∷ s.sent
            else s.sent)))

  module _ (s1 : Store) (e1 : Entry)
      (r : Reserved env held p e (offset + length bytes) offset s1 e1) (s2 : Store) (e2 : Entry)
      (w : Filled s1 p e1 bytes offset s2 e2) where
    -- the state when the lock is released, with the requests sent by then
    abbrev released : List Request → Store
    released sent = record s2 { locked = false; sent = sent }

    released-SameShape : (sent : List Request) → SameShape s (released sent)
    released-SameShape sent =
        SameShape-of_one s (released sent) p e e2 t f.live w.file.live
          (λ q n. w.other_entries q n ∙ r.other_entries q n)
          (w.meta.0 ∙ r.meta.0, w.meta.1 ∙ r.meta.1, w.meta.2 ∙ r.meta.2) refl (w.root ∙ r.root)
          (w.all_entries ∙ r.all_entries)

    released-Written : (sent : List Request) → Written env s p e bytes offset (released sent) e2
    released-Written sent = record {
      file = record {
        not_null = f.not_null;
        live = w.file.live;
        reg = w.file.reg;
        size_le = w.file.size_le;
        capacity_le = w.file.capacity_le;
        backed = w.file.backed;
      };
      ino = w.ino ∙ r.ino;
      nlink = w.nlink ∙ r.nlink;
      all_entries = w.all_entries ∙ r.all_entries;
      tree = IsTree-SameShape s (released sent) t (released-SameShape sent);
      size = ground (arith, w.size, r.same_size);
      new_bytes = λ i lt. ground (arith, w.copied (offset + i));
      old_bytes = λ i lt side. ground (arith, w.copied i, r.kept i lt);
      gap = λ small i lo hi. ground (arith, w.copied i, r.zeros small i lo hi);
      stale = λ room i lo hi.
          ground (arith, w.copied i, ap (λ (st : Store). st.block) (r.in_place room));
      other_entries = λ q n. w.other_entries q n ∙ r.other_entries q n;
      other_blocks = λ b n k. elim (Bool-cases (b == e1.buffer)) [
        | inl same ↦ absurd (elim r.place [ inl e' ↦ ground arith | inr e' ↦ ground arith ])
        | inr other ↦ w.other_blocks b other ∙ r.other_blocks b n k
      ];
      place = elim r.place [ inl same ↦ inl (w.meta.3 ∙ same) | inr new ↦ inr (w.meta.3 ∙ new) ];
      kept = (w.meta.0 ∙ r.meta.0, w.meta.1 ∙ r.meta.1, w.meta.4 ∙ r.meta.3);
    }

    -- the requests that the server has been sent when the write returns
    abbrev sent_after : Bytes → List Request
    sent_after path =
        if use_remote_server env then write_request (clip 512 path) bytes 0 ∷ s2.sent else s2.sent

    run_parts :
        (path : Bytes)
        → reserve env p e (offset + length bytes) offset held ≡ some (true, s1)
        → fill env p bytes (offset + length bytes) offset s1 ≡ some (tt, s2)
        → build_path p 512 (released s2.sent) ≡ some (clip 512 path, released s2.sent)
        → vtfs_storage_write env p bytes offset s
          ≡ some (pos (length bytes), released (sent_after path))
    unfolding vtfs_storage_write load
    run_parts path run1 run2 run3 =
        let exact : (offset + length bytes) % 2 ^ 64 ≡ offset + length bytes = omega arith in
        let below : ltb max_file_size (offset + length bytes) ≡ false = ground arith in
        ground (arith, f.live, f.not_null, f.reg, t.unlocked)

    finish :
        reserve env p e (offset + length bytes) offset held ≡ some (true, s1)
        → fill env p bytes (offset + length bytes) offset s1 ≡ some (tt, s2)
        → WriteResult
    finish run1 run2 =
        let t3 = IsTree-SameShape s (released s2.sent) t (released-SameShape s2.sent) in
        let m3 : mem p s2.all_entries ≡ true = rw (w.all_entries ∙ r.all_entries) m in
        let (path, n, is, run3) = build_path-IsPath (released s2.sent) p 512 t3 m3 in
        (
          released (sent_after path),
          e2,
          run_parts path run1 run2 run3,
          released-Written (sent_after path),
          (path, ground (arith, w.sent, r.sent)),
        )

  -- In a well-formed storage, for a listed regular file whose memory agrees with its capacity and an
  -- allocator that succeeds, a write that fits the limit on the size returns the number of the bytes
  -- and does what `Written` says: the bytes are in place, the rest of the file and of the storage is
  -- kept, and the storage is well-formed; the server, if one is configured, is sent one request,
  -- with a path, the bytes, and the offset 0 whatever the offset.
  pub write-Written : WriteResult
  write-Written =
      let (s1, e1, run1, r) =
        reserve_lem env held p e (offset + length bytes) offset held-IsFile held-IsFresh fits
          (omega arith) in
      let (s2, e2, run2, w) = fill_lem env s1 p e1 bytes offset r.file r.room in
      finish s1 e1 r s2 e2 w run1 run2
