-- ===== src/Ops/Dir.antt =====
-- `vtfs_iterate`, module/dir_ops.c. `dir_emit` is the kernel's: it asks the reader of the directory
-- whether it takes one more item, here `accept` of the items taken so far and the new one.
pub mod Listing
pub mod Resume
use vtfs.Base.{
  ℕ, ◌+◌, ◌-◌, Bool, not, Option, none, some, List, [], ◌∷◌, ◌++◌, ◌==◌, ltb, if◌then◌else◌,
}
use vtfs.Base.Int.{ℤ, pos, neg, int_of, enoent, enotdir}
use vtfs.Base.Strings.{Bytes, codes}
use vtfs.Storage.State.{
  Ptr, Entry, Cmd, pure, ◌>>=◌, ◌>>◌, load, is_dir, is_reg, spin_lock, spin_unlock,
}
use vtfs.Storage.Search.{vtfs_storage_get_by_ino}

-- `DT_DIR`, `DT_REG`, `DT_UNKNOWN`
abbrev pub dt_dir : ℕ
dt_dir = 4

abbrev pub dt_reg : ℕ
dt_reg = 8

abbrev pub dt_unknown : ℕ
dt_unknown = 0

pub record Dirent : Type 0 where
  pub name : Bytes
  pub ino : ℕ
  pub kind : ℕ

-- `struct dir_context`: the position, and the items that the reader has taken, the first in front.
pub record Ctx : Type 0 where
  pub position : ℕ
  pub emitted : List Dirent

-- An item that is taken, and `ctx->pos++`.
abbrev pub push : Dirent → Ctx → Ctx
push d ctx = record { position = ctx.position + 1; emitted = ctx.emitted ++ d ∷ [] }

abbrev pub kind_of : ℕ → ℕ
kind_of mode = if is_dir mode then dt_dir else if is_reg mode then dt_reg else dt_unknown

abbrev pub dirent : Entry → Dirent
dirent e = record { name = e.name; ino = e.ino; kind = kind_of e.mode }

abbrev pub dot : ℕ → Dirent
dot ino = record { name = codes "."; ino = ino; kind = dt_dir }

abbrev pub dot_dot : ℕ → Dirent
dot_dot ino = record { name = codes ".."; ino = ino; kind = dt_dir }

-- The number that `..` has: without a parent dentry, the directory's own.
abbrev pub parent_number : ℕ → Option ℕ → ℕ
parent_number ino none = ino
parent_number ino (some n) = n

module _ (accept : List Dirent → Dirent → Bool) where
  -- The loop over the children, entered with the lock held.
  unfoldable pub emit_children : List Ptr → (offset stored : ℕ) → Ctx → Cmd (ℤ × Ctx)
  unfolding spin_lock
  emit_children [] offset stored ctx = spin_unlock >> pure (int_of stored, ctx)
  emit_children (p ∷ ps) offset stored ctx =
      if ltb 2 offset then emit_children ps (offset - 1) stored ctx else do
        child ← load p
        spin_unlock
        if not (accept ctx.emitted (dirent child))
            then pure (int_of stored, ctx)
            else do spin_lock; emit_children ps offset (stored + 1) (push (dirent child) ctx)

  -- From the position of the children on.
  unfoldable pub emit_entries : Ptr → (offset stored : ℕ) → Ctx → Cmd (ℤ × Ctx)
  unfolding spin_lock
  emit_entries dir offset stored ctx = do
    spin_lock
    e ← load dir
    emit_children e.children offset stored ctx

  -- `..`, when the offset is 1
  unfoldable pub emit_parent : Ptr → (parent_ino offset stored : ℕ) → Ctx → Cmd (ℤ × Ctx)
  emit_parent dir parent_ino offset stored ctx =
      if not (offset == 1)
      then emit_entries dir offset stored ctx
      else if not (accept ctx.emitted (dot_dot parent_ino))
      then pure (int_of stored, ctx)
      else emit_entries dir (offset + 1) (stored + 1) (push (dot_dot parent_ino) ctx)

  -- `ino` is the number of the directory's inode, `up` that of its parent dentry's, if there is one.
  unfoldable pub vtfs_iterate : ℕ → Option ℕ → Ctx → Cmd (ℤ × Ctx)
  vtfs_iterate ino up ctx = do
    dir ← vtfs_storage_get_by_ino ino
    if dir == 0 then pure (neg enoent, ctx) else do
      e ← load dir
      if not (is_dir e.mode) then pure (neg enotdir, ctx) else do
        let parent_ino = parent_number ino up
        if not (ctx.position == 0)
            then emit_parent dir parent_ino ctx.position 0 ctx
            else if not (accept ctx.emitted (dot ino))
            then pure (int_of 0, ctx)
            else emit_parent dir parent_ino 1 1 (push (dot ino) ctx)
