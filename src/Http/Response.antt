-- ===== src/Http/Response.antt =====
-- `parse_http_response`, module/http.c. The response is the whole buffer, the NUL behind the string
-- and what follows it included, and a pointer into it is what stands from there on. The loop over
-- the chunks runs on fuel; `overrun` is an access behind the end of one of the two buffers.
pub mod Bounds
pub mod Chunks
pub mod Hex
use vtfs.Base.{
  ℕ, zero, suc, ◌+◌, ◌-◌, ◌%◌, ◌^◌, Bool, true, false, not, ◌&&◌, ◌||◌, Option, none, some, List,
  [], ◌∷◌, ◌++◌, ◌==◌, ltb, leb, if◌then◌else◌,
}
use vtfs.Base.Lists.{length, take, drop}
use vtfs.Base.Strings.{Bytes, codes}
use vtfs.Http.Text.{strstr, strchr, c_string, simple_strtoul}

pub data Chunked : Type 0 where
  -- the bytes that are decoded when the loop ends
  done : Bytes → Chunked
  overrun : Chunked
  no_fuel : Chunked

-- `while (*p == '\r' || *p == '\n') p++;`, `none` when `p` leaves the buffer
unfoldable pub skip_newlines : Bytes → Option Bytes
skip_newlines [] = none
skip_newlines (c ∷ s) =
    let rest = skip_newlines s in if c == b'\r' || c == b'\n' then rest else some (c ∷ s)

-- `body_size - 1`
abbrev pub last : ℕ → ℕ
last body_size = (body_size + 2 ^ 64 - 1) % 2 ^ 64

-- The size of a chunk, cut to what the body has room for; the sum wraps at 64 bits.
abbrev pub chunk_length : (body_size total chunk_size : ℕ) → ℕ
chunk_length body_size total chunk_size =
    if leb (last body_size) ((total + chunk_size) % 2 ^ 64)
    then (last body_size + 2 ^ 64 - total) % 2 ^ 64
    else chunk_size

-- The `memcpy` of a chunk stays inside the buffer and inside the body.
abbrev pub copies : (body_size total n : ℕ) → Bytes → Bool
copies body_size total n from = leb n (length from) && leb (total + n) body_size

abbrev pub on_buffer : Option Bytes → (Bytes → Chunked) → Chunked
on_buffer none k = overrun
on_buffer (some p) k = k p

unfoldable pub decode_chunks : (body_size fuel : ℕ) → (chunk_ptr out : Bytes) → Chunked
decode_chunks body_size zero chunk_ptr out = no_fuel
decode_chunks body_size (suc fuel) chunk_ptr out =
    if leb (last body_size) (length out)
    then done out
    else let (chunk_size, end) = simple_strtoul chunk_ptr 16 in
      if chunk_size == 0
      then done out
      else on_buffer (skip_newlines end) (λ from.
        let n = chunk_length body_size (length out) chunk_size in
        if not (copies body_size (length out) n from)
        then overrun
        else on_buffer (skip_newlines (drop n from))
            (λ next. decode_chunks body_size fuel next (out ++ take n from)))

-- The loop from its start on; each round but the last makes the body longer, so the rounds are at
-- most as many as its bytes.
abbrev pub chunks : (body_size : ℕ) → Bytes → Chunked
chunks body_size from = decode_chunks body_size (suc body_size) from []

-- The result, the status code, and what is in the body, if it has been written to.
pub record Parsed : Type 0 where
  pub ret : ℕ
  pub status : ℕ
  pub body : Option Bytes

abbrev crlf : Bytes
crlf = b'\r' ∷ b'\n' ∷ []

abbrev pub blank_line : Bytes
blank_line = crlf ++ crlf

abbrev pub chunked_header : Bytes
chunked_header = codes "Transfer-Encoding: chunked"

abbrev pub status_of : ℕ → ℕ
status_of n = if leb 100 n && leb n 599 then n else 500

-- What stands behind the first empty line: four bytes further, or two.
abbrev behind : Bytes → Bytes
behind [] = []
behind (c ∷ s) = if c == b'\r' then drop 3 s else drop 1 s

abbrev map_behind : Option Bytes → Option Bytes
map_behind none = none
map_behind (some found) = some (behind found)

abbrev first_of : Option Bytes → Option Bytes → Option Bytes
first_of none second = second
first_of (some found) second = some found

abbrev pub body_start : Bytes → Option Bytes
body_start response =
    map_behind (first_of (strstr response blank_line) (strstr response (b'\n' ∷ b'\n' ∷ [])))

abbrev of_chunks : (status : ℕ) → Chunked → Option Parsed
of_chunks status (done out) = some (record { ret = length out; status = status; body = some out })
of_chunks status overrun = none
of_chunks status no_fuel = none

-- A body that is not chunked: its string, cut to the size of the buffer.
abbrev pub plain : (body_size : ℕ) → Bytes → Bytes
plain body_size from =
    let s = c_string from in if leb body_size (length s) then take (last body_size) s else s

-- By whether the header of a chunked body is there.
abbrev of_encoding : (body_size status : ℕ) → Bytes → Option Bytes → Option Parsed
of_encoding body_size status from none =
    let body = plain body_size from in
    some (record { ret = length body; status = status; body = some body })
of_encoding body_size status from (some header) = of_chunks status (chunks body_size from)

abbrev of_body : (body_size status : ℕ) → Bytes → Option Bytes → Option Parsed
of_body body_size status response none = some (record { ret = 0; status = status; body = some [] })
of_body body_size status response (some from) =
    of_encoding body_size status from (strstr response chunked_header)

abbrev pub no_status : Option Parsed
no_status = some (record { ret = 0; status = 500; body = none })

abbrev of_status : (body_size : ℕ) → Bytes → Option Bytes → Option Parsed
of_status body_size response none = no_status
of_status body_size response (some space) =
    of_body body_size (status_of (simple_strtoul (drop 1 space) 10).0) response
      (body_start response)

abbrev of_version : (body_size : ℕ) → Bytes → Option Bytes → Option Parsed
of_version body_size response none = no_status
of_version body_size response (some version) = of_status body_size response (strchr version b' ')

-- `none` is an access behind the end of a buffer.
unfoldable pub parse_http_response : Bytes → (body_size : ℕ) → Option Parsed
parse_http_response response body_size =
    of_version body_size response (strstr response (codes "HTTP/1."))
