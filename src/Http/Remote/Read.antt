-- ===== src/Http/Remote/Read.antt =====
-- What `vtfs_http_read` makes of the server's data.
use Prim.Native.Nat.{bit_or}
use vtfs.Base.{
  ℕ, ◌+◌, ◌*◌, ◌/◌, ◌%◌, ◌≤◌, ◌<◌, ◌≡◌, ◌≢◌, refl, sym, ap, ◌∙◌, ◌⊎◌, inl, inr, Bool, true, false,
  not, Option, none, some, [], ◌∷◌, ◌++◌, ltb, arith, if◌then◌else◌,
}
use vtfs.Base.Int.{ℤ, pos, neg, int_of, enoent, einval}
use vtfs.Base.Lists.{length}
use vtfs.Base.Strings.{Bytes, codes}
use vtfs.Http.Base64.{pad, sextet, bytes_to_base64, encode, base64_decode, output_length}
use vtfs.Http.Base64.RoundTrip.{AreBytes, decode-encode_round_trip, length-encode}
use vtfs.Http.Base64.Digits.{is_text, sextet-is_text}
use vtfs.Http.Base64.Overflow.{base64_decode_bounds}
use vtfs.Http.Text.{strstr, starts_with, print, print_int}
use vtfs.Http.Server.{Server}
use vtfs.Http.Json.{extract_json_field}
use vtfs.Http.Json.Field.{Plain, clip_value, quoted_name, extract_json_field_value}
use vtfs.Http.Call.{Net, buffer_size, vtfs_http_call}
use vtfs.Http.Remote.{has, error_field, quoted, of_decoded, of_read, vtfs_http_read}

-- The body that the server prints for a read, with the data in base 64.
abbrev pub read_body : (base64 after : Bytes) → Bytes
read_body base64 after =
    b'{'
    ∷ (quoted_name (codes "result")
        ++ (b':' ∷ b'{' ∷ (quoted_name (codes "data") ++ (b':' ∷ b'"' ∷ (base64 ++ b'"' ∷ after)))))

result_found :
    (base64 after : Bytes)
    → strstr (read_body base64 after) (quoted (codes "result"))
      ≡ some (
          quoted_name (codes "result")
          ++ (b':'
              ∷ b'{'
              ∷ (quoted_name (codes "data") ++ (b':' ∷ b'"' ∷ (base64 ++ b'"' ∷ after)))))
unfolding strstr starts_with
result_found base64 after = refl

data_found :
    (base64 after : Bytes)
    → strstr
        (quoted_name (codes "result")
          ++ (b':'
              ∷ b'{'
              ∷ (quoted_name (codes "data") ++ (b':' ∷ b'"' ∷ (base64 ++ b'"' ∷ after)))))
        (quoted (codes "data"))
      ≡ some (quoted_name (codes "data") ++ (b':' ∷ b'"' ∷ (base64 ++ b'"' ∷ after)))
unfolding strstr starts_with
data_found base64 after = refl

-- The code of bytes has no quote and no NUL.
four-Plain :
    (p q r s : ℕ) (rest : Bytes)
    → is_text p ≡ true
    → is_text q ≡ true
    → is_text r ≡ true
    → is_text s ≡ true
    → Plain rest
    → Plain (p ∷ q ∷ r ∷ s ∷ rest)
four-Plain p q r s rest hp hq hr hs (n0, nq) = (ground arith, ground arith)

encode-Plain : (bytes : Bytes) → Plain (encode bytes)
unfolding encode
encode-Plain [] = (refl, refl)
encode-Plain (a ∷ []) =
    four-Plain (sextet (a / 4)) (sextet (bit_or (a * 16) (0 / 16))) pad pad []
      (sextet-is_text (a / 4)) (sextet-is_text (bit_or (a * 16) (0 / 16))) refl refl (refl, refl)
encode-Plain (a ∷ b ∷ []) =
    four-Plain (sextet (a / 4)) (sextet (bit_or (a * 16) (b / 16)))
      (sextet (bit_or (b * 4) (0 / 64))) pad [] (sextet-is_text (a / 4))
      (sextet-is_text (bit_or (a * 16) (b / 16))) (sextet-is_text (bit_or (b * 4) (0 / 64))) refl
      (refl, refl)
encode-Plain (a ∷ b ∷ c ∷ rest) =
    four-Plain (sextet (a / 4)) (sextet (bit_or (a * 16) (b / 16)))
      (sextet (bit_or (b * 4) (c / 64))) (sextet c) (encode rest) (sextet-is_text (a / 4))
      (sextet-is_text (bit_or (a * 16) (b / 16))) (sextet-is_text (bit_or (b * 4) (c / 64)))
      (sextet-is_text c) (encode-Plain rest)

int_of_small : (n : ℕ) → n < buffer_size → int_of n ≡ pos n
int_of_small n lt = ground arith

clip_value_short : (n : ℕ) (s : Bytes) → length s < n → clip_value n s ≡ s
clip_value_short n s lt = ground arith

module _ (server : Server) (net : Net) (token path base64 after : Bytes) (size : ℕ) (offset : ℤ)
    (initialized : server.initialized ≡ true) (memory : net.has_buffer ≡ true)
    (plain : Plain base64) (short : length base64 < buffer_size)
    (no_error : has (strstr (read_body base64 after) error_field) ≡ false)
    (answered : vtfs_http_call server net token (codes "read") buffer_size (
        (codes "path", path)
        ∷ (codes "offset", print_int offset)
        ∷ (codes "size", print 10 size)
        ∷ [])
      ≡ some (pos 0, some (read_body base64 after))) where
  abbrev call : Option (ℤ × Option Bytes)
  call = vtfs_http_call server net token (codes "read") buffer_size (
      (codes "path", path)
      ∷ (codes "offset", print_int offset)
      ∷ (codes "size", print 10 size)
      ∷ [])

  read_decoded :
      vtfs_http_read server net token path size offset ≡ of_decoded (base64_decode base64 size)
  unfolding vtfs_http_read
  read_decoded =
      let value : extract_json_field
            (quoted_name (codes "data") ++ (b':' ∷ b'"' ∷ (base64 ++ b'"' ∷ after))) (codes "data")
            buffer_size
          ≡ (pos 0, some (clip_value buffer_size base64)) =
        extract_json_field_value [] (codes "data") (refl, refl) (omega arith) (b':' ∷ []) base64
          after buffer_size (refl, refl) plain in
      let whole : clip_value buffer_size base64 ≡ base64 =
        clip_value_short buffer_size base64 short in
      ap (λ (b : Bool). if not b then some (neg enoent, []) else of_read net size call) initialized
      ∙ ap (of_read net size) answered
      ∙ rw no_error (
          rw (result_found base64 after)
            (rw (data_found base64 after) (rw value (rw memory (rw whole)))))

  -- Where the server answers a read with a body of data in base 64, no error in it, and the data
  -- fit into the 4096 bytes of the buffer for text: `vtfs_http_read` refuses data whose length is
  -- no multiple of 4 with -EINVAL; else it gives the bytes that `base64_decode` makes of the data, as
  -- many as the data stand for and at most as many as were asked for; and data that stand for more bytes than were asked for make it write
  -- behind the end of its memory.
  pub vtfs_http_read_bounds :
      ((length base64 % 4 ≢ 0)
        × (vtfs_http_read server net token path size offset ≡ some (neg einval, [])))
      ⊎ ((length base64 % 4 ≡ 0)
            × (size < output_length base64)
            × (vtfs_http_read server net token path size offset ≡ none)
          ⊎ ((bytes : Bytes) × (length bytes ≡ output_length base64)
              × (length bytes ≤ size)
              × (base64_decode base64 size ≡ some (pos 0, bytes))
              × (vtfs_http_read server net token path size offset
                  ≡ some (int_of (length bytes), bytes))))
  vtfs_http_read_bounds = elim (base64_decode_bounds base64 size) [
    | inl (odd, run) ↦ inl (odd, read_decoded ∙ ap of_decoded run)
    | inr (inl (whole, small, run)) ↦ inr (inl (whole, small, read_decoded ∙ ap of_decoded run))
    | inr (inr (bytes, fits, exact, run)) ↦
        inr (inr (bytes, exact, omega (arith, exact), run, read_decoded ∙ ap of_decoded run))
  ]

-- The same where the data are the code of a list of bytes.
module _ (server : Server) (net : Net) (token path bytes after : Bytes) (size : ℕ) (offset : ℤ)
    (initialized : server.initialized ≡ true) (memory : net.has_buffer ≡ true)
    (values : AreBytes bytes) (short : (length bytes + 2) / 3 * 4 < buffer_size)
    (fits : length bytes ≤ size)
    (no_error : has (strstr (read_body (encode bytes) after) error_field) ≡ false)
    (answered : vtfs_http_call server net token (codes "read") buffer_size (
        (codes "path", path)
        ∷ (codes "offset", print_int offset)
        ∷ (codes "size", print 10 size)
        ∷ [])
      ≡ some (pos 0, some (read_body (encode bytes) after))) where
  decoded : base64_decode (encode bytes) size ≡ some (pos 0, bytes)
  unfolding bytes_to_base64
  decoded =
      let room = (length bytes + 2) / 3 * 4 + 1 in
      let fits_in : ltb room room ≡ false = ground arith in
      let code : (bytes_to_base64 bytes room).1 ≡ encode bytes = rw fits_in in
      ap (λ (r : Bytes). base64_decode r size) (sym code)
      ∙ (decode-encode_round_trip bytes room size values (omega arith) fits).1

  -- Where the server answers a read with a body of the code of some bytes in base64, no error in it,
  -- the code fits into the 4096 bytes of the buffer for text, and the bytes are at most as many as
  -- were asked for: `vtfs_http_read` gives the bytes and their number.
  pub vtfs_http_read-encode :
      vtfs_http_read server net token path size offset ≡ some (pos (length bytes), bytes)
  vtfs_http_read-encode =
      read_decoded server net token path (encode bytes) after size offset initialized memory
        (encode-Plain bytes) (omega (arith, length-encode bytes, short)) no_error answered
      ∙ ap of_decoded decoded
      ∙ ap (λ (r : ℤ). some (r, bytes)) (int_of_small (length bytes) (omega (arith, short)))
