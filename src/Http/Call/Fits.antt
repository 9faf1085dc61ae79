-- ===== src/Http/Call/Fits.antt =====
-- When a request fits into its buffer.
use vtfs.Base.{
  ℕ, suc, ◌+◌, ◌-◌, ◌*◌, ◌≤◌, ◌<◌, ◌≡◌, Bool, true, false, some, List, [], ◌∷◌, ◌++◌, ltb, arith,
  if◌then◌else◌, Bool-cases, inl, inr,
}
use vtfs.Base.Int.{ℤ, pos, negsuc}
use vtfs.Base.Lists.{length, length-append, take, length-take}
use vtfs.Base.Strings.{Bytes, codes, strlcat}
use vtfs.Http.Text.{print_int}
use vtfs.Http.Text.Numbers.{length-digits}
use vtfs.Http.Url.{url_encode}
use vtfs.Http.Url.Bounds.{url_encode_bounds}
use vtfs.Http.Server.{Server}
use vtfs.Http.Server.Limits.{IsInt, IsServer}
use vtfs.Http.Call.{add_arg, query_params, request_text, behind_query, to_send, buffer_size}

-- Keys of at most eight bytes.
abbrev pub ShortKeys : List (Bytes × Bytes) → Type 0
ShortKeys [] = Unit
ShortKeys ((key, value) ∷ args) = (length key ≤ 8) × ShortKeys args

length-strlcat :
    (dst src : Bytes) (size : ℕ) → length (strlcat dst src size) ≤ length dst + length src
unfolding strlcat
length-strlcat dst src size =
    let room = size - 1 - length dst in
    omega (arith, length-append {0} dst (take room src), length-take {0} room src)

encoded-length : (value : Bytes) → length (url_encode value 512) ≤ 511
encoded-length value =
    let (k, k_le, is, fits, rest) = url_encode_bounds value 512 (omega arith) (omega arith) in
    omega (arith, fits)

length-add_arg :
    (first : Bool) (query key value : Bytes)
    → length key ≤ 8
    → length (add_arg first query (key, value)) ≤ length query + 521
length-add_arg true query key value short =
    let a = strlcat query key buffer_size in
    let b = strlcat a (codes "=") buffer_size in
    omega (
      arith,
      short,
      encoded-length value,
      length-strlcat query key buffer_size,
      length-strlcat a (codes "=") buffer_size,
      length-strlcat b (url_encode value 512) buffer_size,
    )
length-add_arg false query key value short =
    let amp = strlcat query (codes "&") buffer_size in
    let a = strlcat amp key buffer_size in
    let b = strlcat a (codes "=") buffer_size in
    omega (
      arith,
      short,
      encoded-length value,
      length-strlcat query (codes "&") buffer_size,
      length-strlcat amp key buffer_size,
      length-strlcat a (codes "=") buffer_size,
      length-strlcat b (url_encode value 512) buffer_size,
    )

length-query_params :
    (first : Bool) (query : Bytes) (args : List (Bytes × Bytes))
    → ShortKeys args
    → length (query_params first query args) ≤ length query + 521 * length args
unfolding query_params
length-query_params first query [] h = omega arith
length-query_params first query ((key, value) ∷ args) (short, h) = omega (
  arith,
  length-query_params false (add_arg first query (key, value)) args h,
  length-add_arg first query key value short,
)

length-print_int : (n : ℤ) → IsInt n → length (print_int n) ≤ 11
length-print_int (pos n) lt = omega (arith, length-digits 9 (suc n) n (omega arith))
length-print_int (negsuc n) lt = omega (arith, length-digits 9 (suc (suc n)) (suc n) (omega arith))

length-behind_query : (server : Server) → IsServer server → length (behind_query server) ≤ 307
length-behind_query server h =
    let ending : Bytes =
      b'\r' ∷ b'\n' ∷ (codes "Connection: close" ++ (b'\r' ∷ b'\n' ∷ b'\r' ∷ b'\n' ∷ [])) in
    omega (
      arith,
      h.host,
      length-print_int server.port h.port,
      length-append {0} server.host (codes ":" ++ (print_int server.port ++ ending)),
      length-append {0} (print_int server.port) ending,
    )

module _ (server : Server) (h : IsServer server) (token method : Bytes)
    (short_token : length token ≤ 2000) (short_method : length method ≤ 16) where
  length-request_text :
      (query : Bytes)
      → length query ≤ 1563
      → length (request_text server token method query) < buffer_size
  unfolding request_text
  length-request_text query le =
      let end = behind_query server in
      let shown : Bytes = if ltb 0 (length query) then codes "&" ++ query else [] in
      let shown_le : length shown ≤ 1564 = elim (Bool-cases (ltb 0 (length query))) [
        | inl some_query ↦ rw some_query (omega arith)
        | inr no_query ↦ rw no_query (omega arith)
      ] in
      omega (
        arith,
        short_token,
        short_method,
        shown_le,
        length-behind_query server h,
        length-append {0} method (codes "?token=" ++ (token ++ (shown ++ end))),
        length-append {0} token (shown ++ end),
        length-append {0} shown end,
      )

  -- For a server that `parse_url` gives, a token of at most 2000 bytes, a method of at most 16 and at
  -- most three arguments whose keys have at most eight bytes, however long their values are:
  -- `vtfs_http_call` sends the text of the request whole, and nothing behind the end of its buffer.
  pub to_send-whole :
      (args : List (Bytes × Bytes))
      → length args ≤ 3
      → ShortKeys args
      → to_send (request_text server token method (query_params true [] args))
        ≡ some (request_text server token method (query_params true [] args))
  unfolding to_send
  to_send-whole args few short =
      let text = request_text server token method (query_params true [] args) in
      let fits : length text < buffer_size =
        length-request_text (query_params true [] args)
          (omega (arith, length-query_params true [] args short)) in
      let yes : ltb (length text) buffer_size ≡ true = ground arith in rw yes
