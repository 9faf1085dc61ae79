-- ===== src/Http/Response/Chunks.antt =====
-- A body that is sent in chunks.
use vtfs.Base.{
  ℕ, zero, suc, ◌+◌, ◌^◌, ◌<◌, ◌≡◌, refl, sym, ap, ◌∙◌, true, false, some, List, [], ◌∷◌, ◌++◌,
  append_assoc, append-nil, ◌==◌, leb, arith, Bool-cases, inl, inr,
}
use vtfs.Base.Lists.{length, length-append, take-append_self, drop-append_self}
use vtfs.Base.Strings.{Bytes}
use vtfs.Http.Text.{scan, simple_strtoul}
use vtfs.Http.Response.{done, last, chunk_length, copies, skip_newlines, decode_chunks}
use vtfs.Http.Response.Hex.{hex, hex_head, after_size, simple_strtoul-hex}

-- A chunk that can be sent: not empty, and not with a newline in front, which the decoder takes for
-- a part of the line before.
abbrev pub IsChunk : Bytes → Type 0
IsChunk [] = ⊥
IsChunk (c ∷ chunk) = ((c == b'\r') ≡ false) × ((c == b'\n') ≡ false)

abbrev pub AreChunks : List Bytes → Type 0
AreChunks [] = Unit
AreChunks (c ∷ cs) = IsChunk c × AreChunks cs

abbrev pub joined : List Bytes → Bytes
joined [] = []
joined (c ∷ cs) = c ++ joined cs

-- The chunks with their sizes in front, and the last one of size 0.
unfoldable pub encode_chunks : List Bytes → Bytes → Bytes
encode_chunks [] rest = b'0' ∷ after_size rest
encode_chunks (c ∷ cs) rest =
    hex (suc (length c)) (length c) ++ after_size (c ++ after_size (encode_chunks cs rest))

-- A newline and what is behind it, where that does not begin with one.
skip_here :
    (c : ℕ) (s : Bytes)
    → ((c == b'\r') ≡ false) × ((c == b'\n') ≡ false)
    → skip_newlines (after_size (c ∷ s)) ≡ some (c ∷ s)
unfolding skip_newlines
skip_here c s (nr, nn) = rw nr (rw nn)

skip_chunk :
    (c : Bytes) (s : Bytes) → IsChunk c → skip_newlines (after_size (c ++ s)) ≡ some (c ++ s)
skip_chunk [] s h = absurd h
skip_chunk (c ∷ chunk) s h = skip_here c (chunk ++ s) h

not_empty : (c : Bytes) → IsChunk c → 0 < length c
not_empty [] h = absurd h
not_empty (c ∷ chunk) h = omega arith

skip_encoded :
    (cs : List Bytes) (rest : Bytes)
    → AreChunks cs
    → skip_newlines (after_size (encode_chunks cs rest)) ≡ some (encode_chunks cs rest)
unfolding encode_chunks
skip_encoded [] rest h = skip_here b'0' (after_size rest) (refl, refl)
skip_encoded (c ∷ cs) rest (hc, h) =
    let tail = after_size (c ++ after_size (encode_chunks cs rest)) in
    let (d, ds, e, lo) = hex_head (suc (length c)) (length c) (omega arith) (not_empty c hc) in
    ap (λ (l : Bytes). skip_newlines (after_size (l ++ tail))) e
    ∙ skip_here d (ds ++ tail) (ground arith, ground arith)
    ∙ ap (λ (l : Bytes). some (l ++ tail)) (sym e)

zero_size : (rest : Bytes) → (simple_strtoul (b'0' ∷ after_size rest) 16).0 ≡ 0
unfolding simple_strtoul scan
zero_size rest = refl

module _ (body_size : ℕ) (fits : body_size < 2 ^ 64) where
  -- One round of the loop, on a chunk that the body has room for.
  chunk_round :
      (fuel : ℕ) (c out next : Bytes)
      → IsChunk c
      → length out + length c < body_size
      → skip_newlines (after_size next) ≡ some next
      → decode_chunks body_size
          (suc fuel)
          (hex (suc (length c)) (length c) ++ after_size (c ++ after_size next))
          out
        ≡ decode_chunks body_size fuel next (out ++ c)
  unfolding decode_chunks
  chunk_round fuel c out next h room skip =
      let n = length c in
      let more = not_empty c h in
      let parsed : simple_strtoul (hex (suc n) n ++ after_size (c ++ after_size next)) 16
          ≡ (n, after_size (c ++ after_size next)) =
        simple_strtoul-hex n (c ++ after_size next) more (omega arith) in
      let here : leb (last body_size) (length out) ≡ false = ground arith in
      let some_chunk : (n == 0) ≡ false = ground arith in
      let whole : chunk_length body_size (length out) n ≡ n = ground arith in
      let inside : copies body_size (length out) n (c ++ after_size next) ≡ true =
        ground (arith, length-append {0} c (after_size next)) in
      rw here (
        rw parsed (
          rw some_chunk (
            rw (skip_chunk c (after_size next) h) (
              rw whole (
                rw inside (
                  rw (drop-append_self c (after_size next))
                    (rw skip (rw (take-append_self c (after_size next))))))))))

  ended :
      (fuel : ℕ) (out rest : Bytes)
      → decode_chunks body_size (suc fuel) (b'0' ∷ after_size rest) out ≡ done out
  unfolding decode_chunks
  ended fuel out rest = elim (Bool-cases (leb (last body_size) (length out))) [
    | inl full ↦ rw full
    | inr room ↦ rw room (rw (zero_size rest))
  ]

  -- Chunks that fit into a body are decoded to their bytes, one behind the other, whatever follows
  -- the last one, on any fuel that is more than their number.
  pub decode_chunks-encode_chunks :
      (cs : List Bytes) (rest out : Bytes) (fuel : ℕ)
      → AreChunks cs
      → length out + length (joined cs) < body_size
      → length cs < fuel
      → decode_chunks body_size fuel (encode_chunks cs rest) out ≡ done (out ++ joined cs)
  unfolding encode_chunks
  decode_chunks-encode_chunks cs rest out zero h room lt = absurd (omega arith)
  decode_chunks-encode_chunks [] rest out (suc fuel) h room lt =
      ended fuel out rest ∙ ap done (sym (append-nil out))
  decode_chunks-encode_chunks (c ∷ cs) rest out (suc fuel) (hc, h) room lt =
      let sizes = length-append {0} c (joined cs) in
      let longer = length-append {0} out c in
      chunk_round fuel c out (encode_chunks cs rest) hc (omega (arith, sizes))
        (skip_encoded cs rest h)
      ∙ decode_chunks-encode_chunks cs rest (out ++ c) fuel h (omega (arith, sizes, longer))
          (omega arith)
      ∙ ap done (append_assoc out c (joined cs))
