-- ===== src/Http/Remote/Write.antt =====
-- What a server reads of a remote write.
use vtfs.Base.{
  ℕ, zero, suc, ◌+◌, ◌-◌, ◌*◌, ◌/◌, ◌%◌, ◌^◌, ◌≤◌, ◌<◌, ◌≡◌, refl, true, false, some, List, [], ◌∷◌,
  ◌++◌, ltb, arith, Bool-cases, inl, inr, ltb→lt,
}
use vtfs.Base.Bits.{bit_and_sixty_three}
use vtfs.Base.Tables.{passes, passes_lem}
use vtfs.Base.Int.{pos, int_of}
use vtfs.Base.Lists.{length, length-append, get_or}
use vtfs.Base.Strings.{Bytes, codes}
use vtfs.Http.Base64.{base64_chars, sextet, encode, bytes_to_base64, base64_decode}
use vtfs.Http.Base64.RoundTrip.{AreBytes, length-encode, decode-encode_round_trip}
use vtfs.Http.Text.{digits, print, kstrto}
use vtfs.Http.Text.Numbers.{digits_one, digits_more, kstrto-print, length-digits}
use vtfs.Http.Url.{quote}
use vtfs.Http.Url.Bounds.{quoted, length-quote}
use vtfs.Http.Server.{Server}
use vtfs.Http.Call.{Net, buffer_size, query_params, vtfs_http_call}
use vtfs.Http.Call.Query.{parse_query, AreArgs, parse_query-query_params}
use vtfs.Http.Remote.{checked, vtfs_http_write}

length-quoted_le : (s : Bytes) → length (quoted s) ≤ 3 * length s
unfolding quoted
length-quoted_le [] = omega arith
length-quoted_le (c ∷ s) =
    omega (arith, length-append (quote c) (quoted s), length-quote c, length-quoted_le s)

append-AreBytes : (s u : Bytes) → AreBytes s → AreBytes u → AreBytes (s ++ u)
append-AreBytes [] u h k = k
append-AreBytes (c ∷ s) u (byte, h) k = (byte, append-AreBytes s u h k)

digits-AreBytes : (fuel n : ℕ) → AreBytes (digits 10 fuel n)
digits-AreBytes zero n = unfold digits in tt
digits-AreBytes (suc fuel) n = elim (Bool-cases (ltb n 10)) [
  | inl one ↦ rw (digits_one 10 fuel n one) (omega (arith, ltb→lt n 10 one), tt)
  | inr more ↦ rw (digits_more 10 fuel n more) (
      append-AreBytes (digits 10 fuel (n / 10)) ((b'0' + n % 10) ∷ [])
        (digits-AreBytes fuel (n / 10)) (omega arith, tt))
]

sextet_table : passes (λ v. ltb (get_or base64_chars v 0) 256) 64 ≡ true
unfolding passes
sextet_table = refl

sextet_byte : (v : ℕ) → sextet v < 256
unfolding sextet
sextet_byte v = rw (bit_and_sixty_three v) (
    ltb→lt (get_or base64_chars (v % 64) 0) 256
      (passes_lem (λ w. ltb (get_or base64_chars w 0) 256) 64 (v % 64) (omega arith) sextet_table))

encode-AreBytes : (bytes : Bytes) → AreBytes (encode bytes)
unfolding encode
encode-AreBytes [] = tt
encode-AreBytes (a ∷ []) = (sextet_byte (a / 4), (sextet_byte _, (omega arith, (omega arith, tt))))
encode-AreBytes (a ∷ b ∷ []) =
    (sextet_byte (a / 4), (sextet_byte _, (sextet_byte _, (omega arith, tt))))
encode-AreBytes (a ∷ b ∷ c ∷ rest) =
    (sextet_byte (a / 4), (sextet_byte _, (sextet_byte _, (sextet_byte c, encode-AreBytes rest))))

module _ (server : Server) (net : Net) (token path bytes : Bytes) (offset : ℕ)
    (set : server.initialized ≡ true) (memory : net.has_buffer ≡ true) (is_path : AreBytes path)
    (short_path : length (quoted path) + 3 < 512) (are_bytes : AreBytes bytes)
    (short : length bytes ≤ 126) (offset_lt : offset < 2 ^ 63) where
  -- The arguments of the request, with the text of the offset and the code of the bytes.
  abbrev pub args : (offset_text code : Bytes) → List (Bytes × Bytes)
  args offset_text code =
      (codes "path", path) ∷ (codes "offset", offset_text) ∷ (codes "data", code) ∷ []

  write_run :
      vtfs_http_write server net token path bytes (pos offset)
      ≡ checked net (int_of (length bytes)) (
          vtfs_http_call server net token
            (codes "write")
            buffer_size
            (args (print 10 offset) (encode bytes)))
  unfolding vtfs_http_write bytes_to_base64
  write_run =
      let fits : ltb ((length bytes + 2) / 3 * 4 + 1) ((length bytes + 2) / 3 * 4 + 1) ≡ false =
        ground arith in
      rw set (rw memory (rw fits refl))

  short_offset : length (print 10 offset) ≤ 19
  short_offset = length-digits 18 (suc offset) offset (omega arith)

  args-IsArg : AreArgs (args (print 10 offset) (encode bytes))
  args-IsArg = (
    (omega arith, refl, refl, is_path, short_path),
    (
      (
        omega arith,
        refl,
        refl,
        digits-AreBytes (suc offset) offset,
        omega (arith, length-quoted_le (print 10 offset), short_offset),
      ),
      (
        (
          omega arith,
          refl,
          refl,
          encode-AreBytes bytes,
          omega (arith, length-quoted_le (encode bytes), length-encode bytes),
        ),
        tt,
      ),
    ),
  )

  decoded : base64_decode (encode bytes) (length bytes) ≡ some (pos 0, bytes)
  unfolding bytes_to_base64
  decoded =
      let fits : ltb ((length bytes + 2) / 3 * 4 + 1) ((length bytes + 2) / 3 * 4 + 1) ≡ false =
        ground arith in
      let there =
        (decode-encode_round_trip bytes ((length bytes + 2) / 3 * 4 + 1) (length bytes) are_bytes
          (omega arith) (omega arith)).1 in
      rw fits at there

  -- For a client that is set up with memory for the code, a path whose code fits its buffer, at most
  -- 126 bytes and an offset that is a `loff_t`: `vtfs_http_write` makes one call with the method
  -- `write`, in whose query a server reads the path, a text that is read as the offset, and a code
  -- that is decoded to the bytes.
  pub vtfs_http_write-parse_query :
      (offset_text code : Bytes) × (vtfs_http_write server net token path bytes (pos offset)
        ≡ checked net
            (int_of (length bytes))
            (vtfs_http_call server net token (codes "write") buffer_size (args offset_text code)))
      × (parse_query (query_params true [] (args offset_text code)) ≡ args offset_text code)
      × (kstrto (2 ^ 63 - 1) offset_text ≡ some (pos offset))
      × (base64_decode code (length bytes) ≡ some (pos 0, bytes))
  vtfs_http_write-parse_query =
      let (first, rest) = args-IsArg in
      (
        print 10 offset,
        encode bytes,
        write_run,
        parse_query-query_params (codes "path", path)
            ((codes "offset", print 10 offset) ∷ (codes "data", encode bytes) ∷ []) first rest
            (omega arith),
        kstrto-print (2 ^ 63 - 1) offset (omega arith),
        decoded,
      )
