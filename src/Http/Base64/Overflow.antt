-- ===== src/Http/Base64/Overflow.antt =====
-- When `base64_decode` stays inside its buffer.
use Prim.Native.Nat.{bit_or}
use vtfs.Base.{
  ℕ, ◌+◌, ◌*◌, ◌/◌, ◌%◌, ◌≤◌, ◌<◌, ◌≡◌, ◌≢◌, refl, ◌⊎◌, inl, inr, Option, none, some, [], ◌∷◌, ◌++◌,
  ◌==◌, ltb, arith, Bool-cases,
}
use vtfs.Base.Int.{pos, neg, einval}
use vtfs.Base.Lists.{length, length-append}
use vtfs.Base.Strings.{Bytes}
use vtfs.Http.Base64.{digit, put, decode, output_length, base64_decode}

module _ (capacity limit : ℕ) where
  -- What `put` does: it appends, skips, or writes behind the buffer.
  put_lem :
      (byte : ℕ) (out : Bytes)
      → length out ≤ capacity
      → ((put capacity limit byte out ≡ none) × (capacity < limit))
        ⊎ ((out' : Bytes) × (put capacity limit byte out ≡ some out')
            × (length out' ≤ capacity)
            × (length out ≤ length out')
            × (length out' ≤ length out + 1)
            × ((length out' ≡ length out) × (limit ≤ length out)
                ⊎ (length out' ≡ length out + 1) × (length out' ≤ limit)))
  put_lem byte out le = elim (Bool-cases (ltb (length out) limit)) [
    | inl below ↦ elim (Bool-cases (ltb (length out) capacity)) [
      | inl room ↦
          let n = length-append out (byte ∷ []) in
          inr (
            out ++ byte ∷ [],
            ground arith,
            ground arith,
            ground arith,
            ground arith,
            inr (ground arith, ground arith),
          )
      | inr full ↦ inl (ground arith, ground arith)
    ]
    | inr done ↦ inr (out, ground arith, le, ground arith, ground arith, inl (refl, ground arith))
  ]

  -- The buffer is overrun if and only if it is smaller than the length decoded.
  abbrev Result : Option Bytes → Type 0
  Result r =
      ((r ≡ none) × (capacity < limit))
      ⊎ ((out : Bytes) × (r ≡ some out) × (length out ≡ limit) × (limit ≤ capacity))

  decode-Result :
      (input out : Bytes)
      → length input % 4 ≡ 0
      → length out ≤ capacity
      → length out ≤ limit
      → limit ≤ length out + length input / 4 * 3
      → Result (decode capacity limit input out)
  unfolding decode
  decode-Result [] out whole room below enough = inr (out, refl, omega arith, omega arith)
  decode-Result (p ∷ []) out whole room below enough = absurd (omega arith)
  decode-Result (p ∷ q ∷ []) out whole room below enough = absurd (omega arith)
  decode-Result (p ∷ q ∷ r ∷ []) out whole room below enough = absurd (omega arith)
  decode-Result (p ∷ q ∷ r ∷ s ∷ rest) out whole room below enough =
      elim (put_lem (bit_or (digit p * 4) (digit q / 16) % 256) out room) [
        | inl (over, small) ↦ inl (rw over, small)
        | inr (out1, run1, room1, _, _, c1) ↦
            rw run1 (elim (put_lem (bit_or (digit q * 16) (digit r / 4) % 256) out1 room1) [
              | inl (over, small) ↦ inl (rw over, small)
              | inr (out2, run2, room2, _, _, c2) ↦
                  rw run2 (elim (put_lem (bit_or (digit r * 64) (digit s) % 256) out2 room2) [
                    | inl (over, small) ↦ inl (rw over, small)
                    | inr (out3, run3, room3, _, _, c3) ↦
                        rw run3
                          (decode-Result rest out3 (omega arith) room3 (omega arith) (omega arith))
                  ])
            ])
      ]

output_length-le : (input : Bytes) → output_length input ≤ length input / 4 * 3
unfolding output_length
output_length-le input = ground arith

-- A text whose length is no multiple of 4 is refused with -EINVAL. Any other is decoded inside the
-- buffer, to as many bytes as its padding says, if and only if the buffer has that many; in a
-- smaller buffer the decoder writes behind the end.
pub base64_decode_bounds :
    (input : Bytes) (capacity : ℕ)
    → ((length input % 4 ≢ 0) × (base64_decode input capacity ≡ some (neg einval, [])))
      ⊎ ((length input % 4 ≡ 0)
            × (capacity < output_length input)
            × (base64_decode input capacity ≡ none)
          ⊎ ((out : Bytes) × (output_length input ≤ capacity)
              × (length out ≡ output_length input)
              × (base64_decode input capacity ≡ some (pos 0, out))))
unfolding base64_decode
base64_decode_bounds input capacity = elim (Bool-cases (length input % 4 == 0)) [
  | inl whole ↦
      rw whole
        (elim (decode-Result capacity (output_length input) input [] (ground arith) (omega arith)
          (omega arith) (omega (arith, output_length-le input))) [
            | inl (over, small) ↦ inr (inl (ground arith, small, rw over))
            | inr (out, run, exact, fits) ↦ inr (inr (out, fits, exact, rw run))
          ])
  | inr odd ↦ inl (ground arith, rw odd)
]
