-- ===== src/Http/Base64/RoundTrip.antt =====
-- `base64_decode` on what `bytes_to_base64` writes.
use Prim.Native.Nat.{bit_or}
use vtfs.Base.{
  ℕ, suc, ◌+◌, ◌-◌, ◌*◌, ◌/◌, ◌%◌, ◌≤◌, ◌<◌, ◌≡◌, refl, sym, ap, ◌∙◌, true, false, some, [], ◌∷◌,
  ◌++◌, append_assoc, append-nil, ◌==◌, ltb, arith,
}
use vtfs.Base.Int.{pos}
use vtfs.Base.Lists.{length, length-append, get_or}
use vtfs.Base.Strings.{Bytes}
use vtfs.Http.Base64.{sextet, encode, bytes_to_base64, put, decode, output_length, base64_decode}
use vtfs.Http.Base64.Digits.{first_byte, second_byte, third_byte, sextet-ne-pad}

-- Every element is the value of an `unsigned char`.
abbrev pub AreBytes : Bytes → Type 0
AreBytes [] = Unit
AreBytes (b ∷ bytes) = (b < 256) × AreBytes bytes

-- Four characters for every three bytes that are begun.
pub length-encode : (bytes : Bytes) → length (encode bytes) ≡ (length bytes + 2) / 3 * 4
unfolding encode
length-encode [] = refl
length-encode (a ∷ []) = refl
length-encode (a ∷ b ∷ []) = refl
length-encode (a ∷ b ∷ c ∷ rest) = omega (arith, length-encode rest)

module _ (capacity limit : ℕ) where
  put_ok :
      (byte : ℕ) (out : Bytes)
      → length out < limit
      → limit ≤ capacity
      → put capacity limit byte out ≡ some (out ++ byte ∷ [])
  put_ok byte out lt le = ground arith

  put_full : (byte : ℕ) (out : Bytes) → limit ≤ length out → put capacity limit byte out ≡ some out
  put_full byte out le = ground arith

  decode-encode :
      (bytes out : Bytes)
      → AreBytes bytes
      → limit ≡ length out + length bytes
      → limit ≤ capacity
      → decode capacity limit (encode bytes) out ≡ some (out ++ bytes)
  unfolding decode encode
  decode-encode [] out h e le = ap some (sym (append-nil out))
  decode-encode (a ∷ []) out (ha, _) e le =
      let full : limit ≤ length (out ++ a ∷ []) = omega (arith, length-append {0} out (a ∷ [])) in
      rw (first_byte a 0 0 ha (omega arith) (omega arith)) (
        rw (put_ok a out (omega arith) le)
          (rw (put_full _ (out ++ a ∷ []) full) (rw (put_full _ (out ++ a ∷ []) full))))
  decode-encode (a ∷ b ∷ []) out (ha, (hb, _)) e le =
      let out1 = out ++ a ∷ [] in
      let out2 = out1 ++ b ∷ [] in
      let n1 : length out1 ≡ length out + 1 = length-append out (a ∷ []) in
      let n2 : length out2 ≡ length out1 + 1 = length-append out1 (b ∷ []) in
      rw (first_byte a b 0 ha hb (omega arith), second_byte a b 0 ha hb (omega arith))
        (rw (put_ok a out (omega arith) le) (
          rw (put_ok b out1 (omega arith) le)
            (rw (put_full _ out2 (omega arith)) (ap some (append_assoc out (a ∷ []) (b ∷ []))))))
  decode-encode (a ∷ b ∷ c ∷ rest) out (ha, (hb, (hc, hr))) e le =
      let out1 = out ++ a ∷ [] in
      let out2 = out1 ++ b ∷ [] in
      let out3 = out2 ++ c ∷ [] in
      let n1 : length out1 ≡ length out + 1 = length-append out (a ∷ []) in
      let n2 : length out2 ≡ length out1 + 1 = length-append out1 (b ∷ []) in
      let n3 : length out3 ≡ length out2 + 1 = length-append out2 (c ∷ []) in
      rw (first_byte a b c ha hb hc, second_byte a b c ha hb hc, third_byte a b c ha hb hc)
        (rw (put_ok a out (omega arith) le) (
          rw (put_ok b out1 (omega arith) le) (
            rw (put_ok c out2 (omega arith) le)
              (decode-encode rest out3 hr (omega arith) le ∙ ap some (regroup out)))))
    where
      regroup : (u : Bytes) → ((u ++ a ∷ []) ++ b ∷ []) ++ c ∷ [] ++ rest ≡ u ++ a ∷ b ∷ c ∷ rest
      regroup u = simp append_assoc

-- Four more characters in front are three more bytes.
output_length_four :
    (p q r s : ℕ) (rest : Bytes)
    → 4 ≤ length rest
    → length rest % 4 ≡ 0
    → output_length (p ∷ q ∷ r ∷ s ∷ rest) ≡ 3 + output_length rest
unfolding output_length
output_length_four p q r s rest le whole =
    let n = length rest in
    let last : get_or (p ∷ q ∷ r ∷ s ∷ rest) (suc (suc (suc (suc n))) - 1) 0
        ≡ get_or rest (n - 1) 0 =
      shifted (n - 1) (omega arith) in
    let before : get_or (p ∷ q ∷ r ∷ s ∷ rest) (suc (suc (suc (suc n))) - 2) 0
        ≡ get_or rest (n - 2) 0 =
      shifted (n - 2) (omega arith) in
    ground (arith, last, before)
  where
    shifted :
        (k : ℕ) {i : ℕ}
        → i ≡ suc (suc (suc (suc k)))
        → get_or (p ∷ q ∷ r ∷ s ∷ rest) i 0 ≡ get_or rest k 0
    shifted k e = rw e

-- The length that the decoder takes from the padding is the number of the bytes.
pub output_length-encode : (bytes : Bytes) → output_length (encode bytes) ≡ length bytes
unfolding output_length encode
output_length-encode [] = refl
output_length-encode (a ∷ []) = refl
output_length-encode (a ∷ b ∷ []) = ground (arith, sextet-ne-pad (bit_or (b * 4) 0))
output_length-encode (a ∷ b ∷ c ∷ []) =
    ground (arith, sextet-ne-pad (bit_or (b * 4) (c / 64)), sextet-ne-pad c)
output_length-encode (a ∷ b ∷ c ∷ d ∷ rest) =
    let n : length (encode (d ∷ rest)) ≡ (length (d ∷ rest) + 2) / 3 * 4 =
      length-encode (d ∷ rest) in
    output_length_four (sextet (a / 4)) (sextet (bit_or (a * 16) (b / 16)))
      (sextet (bit_or (b * 4) (c / 64))) (sextet c) (encode (d ∷ rest)) (omega arith) (omega arith)
    ∙ ap (λ (k : ℕ). 3 + k) (output_length-encode (d ∷ rest))
    ∙ omega arith

-- Decoding what was encoded gives the bytes back, into any buffer that holds them.
pub decode-encode_round_trip :
    (bytes : Bytes) (base64_size capacity : ℕ)
    → AreBytes bytes
    → (length bytes + 2) / 3 * 4 < base64_size
    → length bytes ≤ capacity
    → ((bytes_to_base64 bytes base64_size).0 ≡ pos 0)
      × (base64_decode (bytes_to_base64 bytes base64_size).1 capacity ≡ some (pos 0, bytes))
unfolding bytes_to_base64 base64_decode
decode-encode_round_trip bytes base64_size capacity h room fits =
    let fits_in : ltb base64_size ((length bytes + 2) / 3 * 4 + 1) ≡ false = ground arith in
    let whole : (length (encode bytes) % 4 == 0) ≡ true = ground (arith, length-encode bytes) in
    let run = decode-encode capacity (length bytes) bytes [] h (omega arith) fits in
    (rw fits_in, rw fits_in (rw whole (rw (output_length-encode bytes) (rw run))))
