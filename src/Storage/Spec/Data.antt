-- ===== src/Storage/Spec/Data.antt =====
-- The contents of a file after a write, from the pieces of its memory.
use vtfs.Base.{
  ℕ, ◌+◌, ◌-◌, ◌≤◌, ◌<◌, min, max, ◌≡◌, refl, ap, sym, ◌∙◌, ◌⊎◌, inl, inr, [], ◌++◌, arith,
  Bool-cases, ltb, ltb→lt,
}
use vtfs.Base.Lists.{length, take, drop, get_or}
use vtfs.Base.Strings.{Bytes}
use vtfs.Storage.Contents.{slice}
use vtfs.Storage.Contents.Read.{slice_eq}
use vtfs.Storage.Spec.{spliced}
use vtfs.Storage.Spec.Slices.{slice_same, take-slice, drop-slice, slice_at, slice_join}

-- What is read from the memory under a file's contents after a write, piece by piece.
module _ (old now : ℕ → ℕ) (size offset : ℕ) (bytes : Bytes)
    (new_bytes : (i : ℕ) → i < length bytes → now (offset + i) ≡ get_or bytes i 0)
    (old_bytes : (i : ℕ)
      → i < size
      → (i < offset) ⊎ (offset + length bytes ≤ i)
      → now i ≡ old i) where
  -- The bytes between the old end and the offset.
  abbrev pub gap : Bytes
  gap = slice now size (offset - size)

  before : take offset (slice old 0 size) ≡ slice now 0 (min offset size)
  before =
      take-slice old offset 0 size
      ∙ slice_same old now 0 (min offset size)
          (λ k lo hi. sym (old_bytes k (omega arith) (inl (omega arith))))

  after :
      drop (offset + length bytes) (slice old 0 size)
      ≡ slice now (offset + length bytes) (size - (offset + length bytes))
  after =
      drop-slice old (offset + length bytes) 0 size
      ∙ slice_same old now (0 + (offset + length bytes)) (size - (offset + length bytes))
          (λ k lo hi. sym (old_bytes k (omega arith) (inr (omega arith))))
      ∙ slice_at now (0 + (offset + length bytes)) (offset + length bytes)
          (size - (offset + length bytes)) (size - (offset + length bytes)) (omega arith) refl

  abbrev rest : ℕ
  rest = size - (offset + length bytes)

  abbrev whole : ℕ
  whole = max size (offset + length bytes)

  tail : bytes ++ slice now (offset + length bytes) rest ≡ slice now offset (length bytes + rest)
  tail =
      ap (λ b. b ++ slice now (offset + length bytes) rest)
        (sym (slice_eq now offset bytes new_bytes))
      ∙ slice_join now offset (length bytes) (offset + length bytes) rest (length bytes + rest) refl
          refl

  pieces :
      (slice now 0 (min offset size) ++ (gap ++ slice now offset (length bytes + rest))
        ≡ slice now 0 whole)
  pieces = elim (Bool-cases (ltb size offset)) [
    | inl far ↦
        let lt : size < offset = ltb→lt size offset far in
        let end =
          slice_join now size (offset - size) offset (length bytes + rest)
            (offset - size + (length bytes + rest)) (omega arith) refl in
        let all =
          slice_join now 0 (min offset size) size (offset - size + (length bytes + rest)) whole
            (omega arith) (omega arith) in
        ap (λ b. slice now 0 (min offset size) ++ b) end ∙ all
    | inr near ↦
        let none_between : gap ≡ [] =
          slice_at now size size (offset - size) 0 refl (ground arith) in
        let all =
          slice_join now 0 (min offset size) offset (length bytes + rest) whole (ground arith)
            (ground arith) in
        ap (λ b. slice now 0 (min offset size) ++ (b ++ slice now offset (length bytes + rest)))
          none_between
        ∙ all
  ]

  pub spliced-slice : spliced (slice old 0 size) gap bytes offset ≡ slice now 0 whole
  spliced-slice = rw before (rw after (rw tail pieces))
