-- ===== src/Storage/Sound/Starved.antt =====
-- Calls for which the allocator has no memory.
use vtfs.Base.{
  ℕ, ◌+◌, ◌%◌, ◌^◌, ◌≤◌, ◌<◌, ◌≡◌, refl, ap, ◌∙◌, ◌⊎◌, inl, inr, Bool, true, false, some, ◌==◌,
  ==→eq,
}
use vtfs.Base.Int.{neg, einval, efbig, enomem}
use vtfs.Base.Lists.{mem, length}
use vtfs.Base.Strings.{Bytes, str_eq}
use vtfs.Storage.State.{Ptr, Store, Env, is_dir, is_reg, max_file_size, load_lem}
use vtfs.Storage.Tree.{at, Live-mem}
use vtfs.Storage.Tree.Shape.{IsTree-SameShape}
use vtfs.Storage.Search.{vtfs_storage_lookup}
use vtfs.Storage.Search.First.{named, first-Finds, lookup-first}
use vtfs.Storage.Contents.{vtfs_storage_write}
use vtfs.Storage.Contents.Refuse.{refuse_write, no_memory}
use vtfs.Storage.Create.{create_entry_internal, choose_ino}
use vtfs.Storage.Create.Refuse.{refuse_create}
use vtfs.Storage.Sound.{IsSound}
use vtfs.Storage.Sound.Cases.{create_cases, write_cases, write_other, write_too_big}

-- The storage after the next inode number has been taken for nothing.
abbrev pub numbered : Store → Store
numbered s = record s { next_ino = (s.next_ino + 1) % 2 ^ 64; locked = false }

numbered-IsSound : (s : Store) → IsSound s → IsSound (numbered s)
numbered-IsSound s sound = record {
  tree = IsTree-SameShape s (numbered s) sound.tree (record {
    unlocked = refl;
    root = refl;
    all_entries = refl;
    live = λ q i. (Live-mem s q s.all_entries sound.tree.live i).1;
    mode = λ q i. refl;
    parent = λ q i. refl;
    children = λ q i. refl;
  });
  owned = record { freeable = sound.owned.freeable; unshared = sound.owned.unshared };
  files = λ p m reg.
      let f = sound.files p m reg in
      record {
        not_null = f.not_null;
        live = f.live;
        reg = f.reg;
        size_le = f.size_le;
        capacity_le = f.capacity_le;
        backed = f.backed;
      };
}

-- Why a write is refused for which there is no memory.
abbrev WriteError : (mode end code : ℕ) → Type 0
WriteError mode end code =
    ((is_reg mode ≡ false) × (code ≡ einval))
    ⊎ ((is_reg mode ≡ true)
        × (((max_file_size < end) × (code ≡ efbig)) ⊎ ((end ≤ max_file_size) × (code ≡ enomem))))

module _ (s : Store) (sound : IsSound s) where
  choose_lem :
      choose_ino 0 (record s { locked = true })
      ≡ some (s.next_ino, record s { locked = true; next_ino = (s.next_ino + 1) % 2 ^ 64 })
  unfolding choose_ino
  choose_lem = refl

  without_entry :
      (env : Env) (home : Ptr) (name : Bytes) (mode : ℕ) (skip_sync : Bool)
      → mem home s.all_entries ≡ true
      → is_dir (at s home).mode ≡ true
      → ((q : Ptr) → mem q (at s home).children ≡ true → str_eq (at s q).name name ≡ false)
      → (env.new_entry == 0) ≡ true
      → create_entry_internal env home name mode 0 skip_sync s ≡ some (0, numbered s)
  unfolding create_entry_internal
  without_entry env home name mode skip_sync m dir unnamed none_left =
      let (home0, live) = Live-mem s home s.all_entries sound.tree.live m in
      let not_found : vtfs_storage_lookup home name s ≡ some (0, s) =
        lookup-first s home name sound.tree m dir
        ∙ ap (λ (r : Ptr). some (r, s))
            (elim (first-Finds (named s name) (at s home).children) [
              | inl (i, hit) ↦ absurd (cc (hit, unnamed _ i))
              | inr (zero, none_fit) ↦ zero
            ]) in
      rw (home0, load_lem home s (at s home) home0 live)
        (rw dir (rw not_found (rw sound.tree.unlocked (rw choose_lem (rw none_left refl)))))

  -- A creation for which there is no memory returns NULL; the storage is as it was, but for the next
  -- inode number when the name was free.
  pub create_starved :
      (env : Env) (home : Ptr) (name : Bytes) (mode : ℕ) (skip_sync : Bool)
      → mem home s.all_entries ≡ true
      → (env.new_entry == 0) ≡ true
      → (s' : Store) × (create_entry_internal env home name mode 0 skip_sync s ≡ some (0, s'))
        × IsSound s'
        × ((s' ≡ s) ⊎ (s' ≡ numbered s))
  create_starved env home name mode skip_sync m none_left = elim (create_cases s home name m) [
    | inl bad ↦
        (s, refuse_create env s home name mode 0 skip_sync sound.tree m bad, sound, inl refl)
    | inr (dir, unnamed) ↦ (
      numbered s,
      without_entry env home name mode skip_sync m dir unnamed none_left,
      numbered-IsSound s sound,
      inr refl,
    )
  ]

  -- A write behind the capacity for which there is no memory is refused, and changes nothing.
  pub write_starved :
      (env : Env) (p : Ptr) (bytes : Bytes) (offset : ℕ)
      → mem p s.all_entries ≡ true
      → (env.new_block == 0) ≡ true
      → (at s p).capacity < offset + length bytes
      → offset + length bytes < 2 ^ 64
      → (code : ℕ) × (vtfs_storage_write env p bytes offset s ≡ some (neg code, s))
        × WriteError (at s p).mode (offset + length bytes) code
  write_starved env p bytes offset m none_left short fits = elim (write_cases s p bytes offset) [
    | inl other ↦ (einval, write_other s sound p m env bytes offset other, inl (other, refl))
    | inr (reg, inr big) ↦
        (efbig, write_too_big s sound p m env bytes offset reg fits big, inr (reg, inl (big, refl)))
    | inr (reg, inl small) ↦ (
      enomem,
      refuse_write env s p (at s p) bytes offset sound.tree.unlocked enomem (sound.files p m reg)
          (no_memory small short (==→eq env.new_block 0 none_left)),
      inr (reg, inr (small, refl)),
    )
  ]
