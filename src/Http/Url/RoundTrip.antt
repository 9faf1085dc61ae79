-- ===== src/Http/Url/RoundTrip.antt =====
-- What a server that decodes the percent signs reads.
use Prim.Native.Nat.{bit_and}
use vtfs.Base.{
  ℕ, zero, suc, ◌+◌, ◌-◌, ◌*◌, ◌/◌, ◌%◌, ◌^◌, ◌≤◌, ◌<◌, ◌≡◌, refl, ap, ◌∙◌, true, false, [], ◌∷◌,
  ◌++◌, ◌==◌, ==→eq, leb, arith, inl, inr, Bool-cases, if◌then◌else◌,
}
use vtfs.Base.Bits.{bit_and_fifteen}
use vtfs.Base.Tables.{passes, passes_lem}
use vtfs.Base.Lists.{length, take, take_all, get_or, length-append}
use vtfs.Base.Strings.{Bytes}
use vtfs.Http.Url.{hex, is_plain, quote, url_encode}
use vtfs.Http.Url.Bounds.{quoted, url_encode_bounds}
use vtfs.Http.Base64.RoundTrip.{AreBytes}

-- The percent decoding of RFC 3986: `%` and two hexadecimal digits are a byte, any other character
-- is itself.
unfoldable pub hex_value : ℕ → ℕ
hex_value c = if leb b'A' c then c - b'A' + 10 else c - b'0'

unfoldable pub pct_decode : Bytes → Bytes
pct_decode [] = []
pct_decode (c ∷ []) = c ∷ []
pct_decode (c ∷ h ∷ []) = c ∷ pct_decode (h ∷ [])
pct_decode (c ∷ h ∷ l ∷ s) = elim (c == b'%') [
  | true ↦ (hex_value h * 16 + hex_value l) ∷ pct_decode s
  | false ↦ c ∷ pct_decode (h ∷ l ∷ s)
]

decode_plain : (c : ℕ) (s : Bytes) → (c == b'%') ≡ false → pct_decode (c ∷ s) ≡ c ∷ pct_decode s
unfolding pct_decode
decode_plain c [] n = refl
decode_plain c (h ∷ []) n = refl
decode_plain c (h ∷ l ∷ s) n = ground arith

decode_escape :
    (h l : ℕ) (s : Bytes)
    → pct_decode (b'%' ∷ h ∷ l ∷ s) ≡ (hex_value h * 16 + hex_value l) ∷ pct_decode s
unfolding pct_decode
decode_escape h l s = refl

hex_table : passes (λ v. hex_value (get_or hex v 0) == v) 16 ≡ true
unfolding passes hex_value
hex_table = refl

hex_value-hex : (v : ℕ) → hex_value (get_or hex (bit_and v 0x0F) 0) ≡ v % 16
hex_value-hex v = rw (bit_and_fifteen v) (
    ==→eq (hex_value (get_or hex (v % 16) 0)) (v % 16)
      (passes_lem (λ w. hex_value (get_or hex w 0) == w) 16 (v % 16) (omega arith) hex_table))

plain-ne-percent : (c : ℕ) → is_plain c ≡ true → (c == b'%') ≡ false
unfolding is_plain
plain-ne-percent c plain = ground arith

pct_decode-quote : (c : ℕ) (s : Bytes) → c < 256 → pct_decode (quote c ++ s) ≡ c ∷ pct_decode s
unfolding quote
pct_decode-quote c s byte = elim (Bool-cases (is_plain c)) [
  | inl plain ↦ rw plain (decode_plain c s (plain-ne-percent c plain))
  | inr other ↦ rw other (
      decode_escape (get_or hex (bit_and (c / 16) 0x0F) 0) (get_or hex (bit_and c 0x0F) 0) s
      ∙ ap (λ (n : ℕ). n ∷ pct_decode s) (omega (arith, hex_value-hex (c / 16), hex_value-hex c)))
]

pub pct_decode-quoted : (src : Bytes) → AreBytes src → pct_decode (quoted src) ≡ src
unfolding quoted
pct_decode-quoted [] h = unfold pct_decode in refl
pct_decode-quoted (c ∷ src) (byte, h) =
    pct_decode-quote c (quoted src) byte ∙ ap (λ r. c ∷ r) (pct_decode-quoted src h)

quoted-take_le : (k : ℕ) (src : Bytes) → length (quoted (take k src)) ≤ length (quoted src)
unfolding quoted
quoted-take_le zero src = omega arith
quoted-take_le (suc k) [] = omega arith
quoted-take_le (suc k) (c ∷ src) = omega (
  arith,
  length-append {0} (quote c) (quoted src),
  length-append {0} (quote c) (quoted (take k src)),
  quoted-take_le k src,
)

-- A text is encoded whole if its code is shorter than the buffer by more than three bytes.
pub url_encode_whole :
    (src : Bytes) (dst_size : ℕ)
    → 4 ≤ dst_size
    → dst_size < 2 ^ 64
    → length (quoted src) + 3 < dst_size
    → url_encode src dst_size ≡ quoted src
url_encode_whole src dst_size lo hi short =
    let (k, k_le, is, size, end) = url_encode_bounds src dst_size lo hi in
    let all : k ≡ length src = elim end [
      | inl whole ↦ whole
      | inr full ↦
          absurd (omega (arith, full, ap (λ (r : Bytes). length r) is, quoted-take_le k src))
    ] in
    is ∙ ap quoted (take_all k src (omega arith))

-- Percent decoding gives back the whole text if its code is shorter than the buffer by more than
-- three bytes.
pub pct_decode-url_encode :
    (src : Bytes) (dst_size : ℕ)
    → AreBytes src
    → 4 ≤ dst_size
    → dst_size < 2 ^ 64
    → length (quoted src) + 3 < dst_size
    → pct_decode (url_encode src dst_size) ≡ src
pct_decode-url_encode src dst_size h lo hi short =
    ap pct_decode (url_encode_whole src dst_size lo hi short) ∙ pct_decode-quoted src h
