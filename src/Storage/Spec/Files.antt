-- ===== src/Storage/Spec/Files.antt =====
-- A write and a read of a sound storage, against the specification.
use vtfs.Base.{
  ℕ, ◌+◌, ◌-◌, ◌≤◌, min, max, ◌≡◌, ◌⊎◌, refl, ap, sym, ◌∙◌, inl, inr, true, false, none, some, [],
  ◌==◌, arith, Bool-cases, ltb, fun_ext,
}
use mathlib.Core.Path.{subst}
use vtfs.Base.Int.{pos}
use vtfs.Base.Lists.{mem, length, take, drop}
use vtfs.Base.Strings.{Bytes}
use vtfs.Storage.State.{Ptr, Entry, Store, Env, is_reg, max_file_size, update}
use vtfs.Storage.Tree.{at}
use vtfs.Storage.Contents.{slice, vtfs_storage_read, vtfs_storage_write}
use vtfs.Storage.Contents.File.{byte_at}
use vtfs.Storage.Contents.Read.{accessed, read-slice}
use vtfs.Storage.Contents.Write.{Written, write-Written}
use vtfs.Storage.Sound.{IsSound}
use vtfs.Storage.Sound.Write.{write-Alike, at_written, read-Alike}
use vtfs.Storage.Spec.{Node, write_call, read_call, result, spliced, Does, writes, reads}
use vtfs.Storage.Spec.Slices.{length-slice, take-slice, drop-slice, slice_at}
use vtfs.Storage.Spec.Data.{gap, spliced-slice}
use vtfs.Storage.Spec.View.{contents_of, node_of, view, view_listed, view-Alike, view-update}

-- A regular file shows its bytes.
contents_reg :
    (s : Store) (e : Entry) → is_reg e.mode ≡ true → contents_of s e ≡ slice (byte_at s e) 0 e.size
contents_reg s e reg = rw reg refl

module _ (env : Env) (s s' : Store) (p : Ptr) (bytes : Bytes) (offset : ℕ) (e' : Entry)
    (sound : IsSound s) (m : mem p s.all_entries ≡ true) (reg : is_reg (at s p).mode ≡ true)
    (free_block : (s.block env.new_block ≡ none) ⊎ (env.new_block ≡ (at s p).buffer))
    (w : Written env s p (at s p) bytes offset s' e') where
  abbrev left : Bytes
  left = gap (byte_at s (at s p)) (byte_at s' e') (at s p).size offset bytes w.new_bytes w.old_bytes

  abbrev written_node : Node
  written_node = record (node_of s (at s p)) {
    contents = spliced (contents_of s (at s p)) left bytes offset;
  }

  shows_bytes : contents_of s' e' ≡ spliced (contents_of s (at s p)) left bytes offset
  shows_bytes =
      contents_reg s' e' w.file.reg
      ∙ slice_at (byte_at s' e') 0 0 e'.size (max (at s p).size (offset + length bytes)) refl w.size
      ∙ sym (
          spliced-slice (byte_at s (at s p)) (byte_at s' e') (at s p).size offset bytes w.new_bytes
            w.old_bytes)
      ∙ ap (λ old. spliced old left bytes offset) (sym (contents_reg s (at s p) reg))

  shows_written : view s' p ≡ some written_node
  shows_written =
      let listed : mem p s'.all_entries ≡ true = rw w.all_entries m in
      let is = at_written env s s' p bytes offset e' sound m free_block w in
      let node : node_of s' e' ≡ written_node =
        cc (w.ino, w.kept.0, w.kept.1, w.kept.2, shows_bytes) in
      view_listed s' p listed ∙ (ap (λ x. some (node_of s' x)) is ∙ ap some node)

  written_view : view s' ≡ update (view s) p (some written_node)
  written_view = view-update s s' p (some written_node) shows_written (λ q n.
      view-Alike s s' sound q (ap (mem q) w.all_entries)
        (λ i. write-Alike env s s' p bytes offset e' sound m free_block w q i n))

module _ (s : Store) (sound : IsSound s) where
  pub write-Does :
      (env : Env) (p : Ptr) (bytes : Bytes) (offset : ℕ)
      → mem p s.all_entries ≡ true
      → is_reg (at s p).mode ≡ true
      → (env.new_block == 0) ≡ false
      → (s.block env.new_block ≡ none) ⊎ (env.new_block ≡ (at s p).buffer)
      → offset + length bytes ≤ max_file_size
      → (s' : Store) × (vtfs_storage_write env p bytes offset s ≡ some (pos (length bytes), s'))
        × Does (view s) (write_call p bytes offset) (result (pos (length bytes)) []) (view s')
  write-Does env p bytes offset m reg got free fits =
      let (s', e', run, w, sent) =
        write-Written env s p (at s p) bytes offset sound.tree m (sound.files p m reg)
          (record { got = got; unused = free }) fits in
      (
        s',
        run,
        subst (Does (view s) (write_call p bytes offset) (result (pos (length bytes)) []))
            (sym (written_view env s s' p bytes offset e' sound m reg free w))
            (writes p (node_of s (at s p)) (left env s s' p bytes offset e' sound m reg free w)
              bytes offset (view_listed s p m) reg fits
              (length-slice (byte_at s' e') (at s p).size (offset - (at s p).size)
                ∙ ap (λ n. offset - n)
                    (sym (
                      ap length (contents_reg s (at s p) reg)
                      ∙ length-slice (byte_at s (at s p)) 0 (at s p).size)))),
      )

  -- The bytes that a read asks for.
  abbrev pub asked : Ptr → (len offset : ℕ) → Bytes
  asked p len offset = take len (drop offset (contents_of s (at s p)))

  asked-slice :
      (p : Ptr) (len offset : ℕ)
      → is_reg (at s p).mode ≡ true
      → asked p len offset ≡ slice (byte_at s (at s p)) offset (min len ((at s p).size - offset))
  asked-slice p len offset reg =
      ap (λ b. take len (drop offset b)) (contents_reg s (at s p) reg)
      ∙ ap (take len) (drop-slice (byte_at s (at s p)) offset 0 (at s p).size)
      ∙ take-slice (byte_at s (at s p)) len (0 + offset) ((at s p).size - offset)
      ∙ slice_at (byte_at s (at s p)) (0 + offset) offset (min len ((at s p).size - offset))
          (min len ((at s p).size - offset)) (omega arith) refl

  read_view :
      (env : Env) (p : Ptr) (len offset : ℕ)
      → mem p s.all_entries ≡ true
      → is_reg (at s p).mode ≡ true
      → (s' : Store) × (vtfs_storage_read env p len offset s
          ≡ some ((pos (length (asked p len offset)), asked p len offset), s'))
        × (view s' ≡ view s)
  read_view env p len offset m reg =
      let f = sound.files p m reg in
      let run = read-slice env s p (at s p) len offset sound.tree.unlocked f in
      let cut = slice (byte_at s (at s p)) offset (min len ((at s p).size - offset)) in
      let is = asked-slice p len offset reg in
      let many : length (asked p len offset) ≡ min len ((at s p).size - offset) =
        ap length is
        ∙ length-slice (byte_at s (at s p)) offset (min len ((at s p).size - offset)) in
      elim (Bool-cases (ltb offset (at s p).size)) [
        | inl inside ↦
            let s' = accessed env s p (at s p) len offset sound.tree.unlocked f in
            let inside_run = rw inside at run in
            (
              s',
              rw many (rw is inside_run),
              fun_ext
                  (λ q. view-Alike s s' sound q refl (read-Alike env s p len offset sound m f q)),
            )
        | inr outside ↦
            let outside_run = rw outside at run in
            let no_bytes : asked p len offset ≡ [] =
              is
              ∙ slice_at (byte_at s (at s p)) offset offset (min len ((at s p).size - offset)) 0
                  refl (ground arith) in
            (s, rw no_bytes outside_run, refl)
      ]

  pub read-Does :
      (env : Env) (p : Ptr) (len offset : ℕ)
      → mem p s.all_entries ≡ true
      → is_reg (at s p).mode ≡ true
      → (s' : Store) × (vtfs_storage_read env p len offset s
          ≡ some ((pos (length (asked p len offset)), asked p len offset), s'))
        × Does
            (view s)
            (read_call p len offset)
            (result (pos (length (asked p len offset))) (asked p len offset))
            (view s')
  read-Does env p len offset m reg =
      let (s', run, same) = read_view env p len offset m reg in
      (
        s',
        run,
        subst
            (Does (view s) (read_call p len offset)
              (result (pos (length (asked p len offset))) (asked p len offset)))
            (sym same) (reads p (node_of s (at s p)) len offset (view_listed s p m) reg),
      )
