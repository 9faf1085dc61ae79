-- ===== src/Http/Base64.antt =====
-- `bytes_to_base64` and `base64_decode`, module/http.c. The loop that takes three bytes a round is
-- a recursion on the bytes, and so is the loop that takes four characters. A write at or behind the
-- end of the decoder's buffer is a fault, `none`.
pub mod Digits
pub mod RoundTrip
pub mod Overflow
use Prim.Native.Nat.{bit_and, bit_or}
use vtfs.Base.{
  ℕ, ◌+◌, ◌-◌, ◌*◌, ◌/◌, ◌%◌, ◌<◌, Bool, true, false, not, ◌&&◌, Option, none, some, List, [], ◌∷◌,
  ◌++◌, ◌==◌, ltb, if◌then◌else◌,
}
use vtfs.Base.Int.{ℤ, pos, neg, einval}
use vtfs.Base.Lists.{length, get_or}
use vtfs.Base.Strings.{Bytes, codes}

abbrev pub base64_chars : Bytes
base64_chars = codes "ABCDEFGHIJKLMNOPQRSTUVWXYZabcdefghijklmnopqrstuvwxyz0123456789+/"

abbrev pub pad : ℕ
pad = b'='

-- `base64_chars[v & 0x3F]`
unfoldable pub sextet : ℕ → ℕ
sextet v = get_or base64_chars (bit_and v 0x3F) 0

-- The characters that the loop writes.
unfoldable pub encode : Bytes → Bytes
encode [] = []
encode (a ∷ []) = sextet (a / 4) ∷ sextet (bit_or (a * 16) (0 / 16)) ∷ pad ∷ pad ∷ []
encode (a ∷ b ∷ []) =
    sextet (a / 4) ∷ sextet (bit_or (a * 16) (b / 16)) ∷ sextet (bit_or (b * 4) (0 / 64)) ∷ pad ∷ []
encode (a ∷ b ∷ c ∷ rest) =
    sextet (a / 4)
    ∷ sextet (bit_or (a * 16) (b / 16))
    ∷ sextet (bit_or (b * 4) (c / 64))
    ∷ sextet c
    ∷ encode rest

-- A buffer that is too small for the characters and the NUL is refused.
unfoldable pub bytes_to_base64 : Bytes → ℕ → ℤ × Bytes
bytes_to_base64 bytes base64_size =
    if ltb base64_size ((length bytes + 2) / 3 * 4 + 1)
    then (neg einval, [])
    else (pos 0, encode bytes)

-- `strchr`, and the position it finds, or 0
abbrev position : Bytes → ℕ → ℕ → ℕ
position [] c i = 0
position (x ∷ xs) c i = if x == c then i else position xs c (i + 1)

unfoldable pub digit : ℕ → ℕ
digit c = if c == pad then 0 else position base64_chars c 0

-- `if (j < *output_len) output[j++] = byte;` into a buffer of `capacity` bytes
abbrev pub put : (capacity output_len : ℕ) → ℕ → Bytes → Option Bytes
put capacity output_len byte out =
    if ltb (length out) output_len
    then if ltb (length out) capacity then some (out ++ byte ∷ []) else none
    else some out

infixl 5 ◌>>=◌
abbrev pub ◌>>=◌ : {A B : Type 0} → Option A → (A → Option B) → Option B
none >>= f = none
some a >>= f = f a

unfoldable pub decode : (capacity output_len : ℕ) → Bytes → Bytes → Option Bytes
decode capacity output_len [] out = some out
decode capacity output_len (p ∷ []) out = none
decode capacity output_len (p ∷ q ∷ []) out = none
decode capacity output_len (p ∷ q ∷ r ∷ []) out = none
decode capacity output_len (p ∷ q ∷ r ∷ s ∷ rest) out =
    let a = digit p in
    let b = digit q in
    let c = digit r in
    let d = digit s in
    do
      out ← put capacity output_len (bit_or (a * 4) (b / 16) % 256) out
      out ← put capacity output_len (bit_or (b * 16) (c / 4) % 256) out
      out ← put capacity output_len (bit_or (c * 64) d % 256) out
      decode capacity output_len rest out

-- `*output_len`: three bytes for four characters, less one for each `=` in the last two places
unfoldable pub output_length : Bytes → ℕ
output_length input =
    let n = length input in
    let whole = n / 4 * 3 in
    let one = if ltb 0 n && (get_or input (n - 1) 0 == pad) then whole - 1 else whole in
    if ltb 1 n && (get_or input (n - 2) 0 == pad) then one - 1 else one

-- The result, with the bytes that are in the buffer.
unfoldable pub base64_decode : Bytes → ℕ → Option (ℤ × Bytes)
base64_decode input capacity =
    if not (length input % 4 == 0)
    then some (neg einval, [])
    else (do out ← decode capacity (output_length input) input []; some (pos 0, out))
