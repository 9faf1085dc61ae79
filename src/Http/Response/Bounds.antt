-- ===== src/Http/Response/Bounds.antt =====
-- What `parse_http_response` writes, and the end of its loop over the chunks.
use vtfs.Base.{
  ℕ, zero, suc, ◌+◌, ◌^◌, ◌≤◌, ◌<◌, ◌≡◌, ◌≢◌, refl, ◌⊎◌, inl, inr, true, false, not, Option, none,
  some, [], ◌++◌, ◌==◌, leb, arith, if◌then◌else◌, Bool-cases,
}
use vtfs.Base.Lists.{length, take, drop, length-append, length-take}
use vtfs.Base.Strings.{Bytes, codes}
use vtfs.Http.Text.{strstr, strchr, c_string, simple_strtoul}
use vtfs.Http.Response.{
  on_buffer, Chunked, done, overrun, last, chunk_length, copies, skip_newlines, decode_chunks,
  chunks, Parsed, status_of, plain, of_chunks, of_encoding, of_body, of_status, of_version,
  body_start, chunked_header, parse_http_response,
}

-- The loop ended by its test or by a chunk of size 0, within the body; or it left a buffer.
abbrev Ended : ℕ → Chunked → Type 0
Ended body_size r = (r ≡ overrun) ⊎ ((out : Bytes) × (r ≡ done out) × (length out < body_size))

module _ (body_size : ℕ) (some_room : 0 < body_size) (fits : body_size < 2 ^ 64) where
  -- A chunk that is copied makes the body longer, and not too long.
  grows :
      (total chunk_size : ℕ) (from : Bytes)
      → leb (last body_size) total ≡ false
      → (chunk_size == 0) ≡ false
      → copies body_size total (chunk_length body_size total chunk_size) from ≡ true
      → (1 ≤ chunk_length body_size total chunk_size)
        × (total + chunk_length body_size total chunk_size < body_size)
        × (chunk_length body_size total chunk_size ≤ length from)
  grows total chunk_size from room some_chunk inside = (ground arith, ground arith, ground arith)

  step_done :
      (total n : ℕ) (out from : Bytes)
      → n ≤ length from
      → total ≡ length out
      → length (out ++ take n from) ≡ total + n
  step_done total n out from le e =
      omega (arith, length-append {0} out (take n from), length-take {0} n from)

  -- The chunk is copied and the loop goes on behind it.
  after_copy :
      (o : Option Bytes) (k : Bytes → Chunked)
      → ((next : Bytes) → Ended body_size (k next))
      → Ended body_size (on_buffer o k)
  after_copy none k h = inl refl
  after_copy (some next) k h = h next

  after_size :
      (fuel chunk_size : ℕ) (out : Bytes) (o : Option Bytes)
      → leb (last body_size) (length out) ≡ false
      → (chunk_size == 0) ≡ false
      → ((next out' : Bytes)
          → length out < length out'
          → length out' < body_size
          → Ended body_size (decode_chunks body_size fuel next out'))
      → Ended body_size (
          on_buffer o (λ from.
            if not
              (copies body_size (length out) (chunk_length body_size (length out) chunk_size) from)
            then overrun
            else on_buffer
                (skip_newlines (drop (chunk_length body_size (length out) chunk_size) from))
                (λ next.
                  decode_chunks body_size fuel next
                    (out ++ take (chunk_length body_size (length out) chunk_size) from))))
  after_size fuel chunk_size out none room more h = inl refl
  after_size fuel chunk_size out (some from) room more h =
      let n = chunk_length body_size (length out) chunk_size in
      elim (Bool-cases (copies body_size (length out) n from)) [
        | inr outside ↦ rw outside (inl refl)
        | inl inside ↦
            let (one, below, le) = grows (length out) chunk_size from room more inside in
            let longer = step_done (length out) n out from le refl in
            rw inside (
              after_copy (skip_newlines (drop n from)) _ (λ next.
                h next (out ++ take n from) (omega (arith, longer)) (omega (arith, longer))))
      ]

  -- The fuel suffices: each round makes the body longer.
  pub decode_chunks-Ended :
      (fuel : ℕ) (chunk_ptr out : Bytes)
      → length out < body_size
      → body_size < length out + fuel
      → Ended body_size (decode_chunks body_size fuel chunk_ptr out)
  unfolding decode_chunks
  decode_chunks-Ended zero chunk_ptr out inside enough = absurd (omega arith)
  decode_chunks-Ended (suc fuel) chunk_ptr out inside enough =
      elim (Bool-cases (leb (last body_size) (length out))) [
        | inl full ↦ inr (out, rw full, inside)
        | inr room ↦ elim (Bool-cases ((simple_strtoul chunk_ptr 16).0 == 0)) [
          | inl end ↦ inr (out, rw room (rw end), inside)
          | inr more ↦ rw room (
              rw more (
                after_size fuel (simple_strtoul chunk_ptr 16).0 out
                  (skip_newlines (simple_strtoul chunk_ptr 16).1) room more
                  (λ next out' longer below.
                    decode_chunks-Ended fuel next out' below (omega arith))))
        ]
      ]

  -- What a parsed response says: a status code, and a body that has its NUL in the buffer, unless
  -- the body has not been written to.
  pub record InBounds (r : Parsed) : Type 0 where
    pub low : 100 ≤ r.status
    pub high : r.status ≤ 599
    pub body :
        ((r.body ≡ none) × (r.status ≡ 500) × (r.ret ≡ 0))
        ⊎ ((b : Bytes) × (r.body ≡ some b) × (r.ret ≡ length b) × (length b < body_size))

  -- A result that is within bounds; none only where a reason for an overrun is given.
  abbrev Result : Type 0 → Option Parsed → Type 0
  Result Reason r = ((r ≡ none) × Reason) ⊎ ((p : Parsed) × (r ≡ some p) × InBounds p)

  plain-length : (from : Bytes) → length (plain body_size from) < body_size
  plain-length from = elim (Bool-cases (leb body_size (length (c_string from)))) [
    | inl long ↦ rw long (ground (arith, length-take (last body_size) (c_string from)))
    | inr short ↦ rw short (ground arith)
  ]

  with_body :
      (status : ℕ) (b : Bytes)
      → (100 ≤ status) × (status ≤ 599)
      → length b < body_size
      → InBounds (record { ret = length b; status = status; body = some b })
  with_body status b (lo, hi) lt = record { low = lo; high = hi; body = inr (b, refl, refl, lt) }

  chunks-Result :
      (Reason : Type 0) (status : ℕ) (r : Chunked)
      → (r ≡ overrun → Reason)
      → (100 ≤ status) × (status ≤ 599)
      → Ended body_size r
      → Result Reason (of_chunks status r)
  chunks-Result Reason status r why s (inl over) = rw over (inl (refl, why over))
  chunks-Result Reason status r why s (inr (out, e, lt)) =
      rw e (inr (_, refl, with_body status out s lt))

  -- The header of a chunked body is there, and the loop over the chunks, which has fuel left, leaves
  -- one of the two buffers.
  abbrev pub Overruns : Bytes → Type 0
  Overruns response =
      (strstr response chunked_header ≢ none)
      × ((from : Bytes) × (body_start response ≡ some from) × (chunks body_size from ≡ overrun))

  encoding-Result :
      (response : Bytes) (status : ℕ) (from : Bytes) (o : Option Bytes)
      → body_start response ≡ some from
      → strstr response chunked_header ≡ o
      → (100 ≤ status) × (status ≤ 599)
      → Result (Overruns response) (of_encoding body_size status from o)
  encoding-Result response status from none start e s =
      inr (_, refl, with_body status (plain body_size from) s (plain-length from))
  encoding-Result response status from (some header) start e s =
      chunks-Result (Overruns response) status (chunks body_size from)
        (λ over. ((λ n. cc (e, n)), (from, start, over))) s
        (decode_chunks-Ended (suc body_size) from [] some_room (omega arith))

  body-Result :
      (response : Bytes) (status : ℕ) (o : Option Bytes)
      → body_start response ≡ o
      → (100 ≤ status) × (status ≤ 599)
      → Result (Overruns response) (of_body body_size status response o)
  body-Result response status none start s = inr (_, refl, with_body status [] s some_room)
  body-Result response status (some from) start s =
      encoding-Result response status from (strstr response chunked_header) start refl s

  no_status-InBounds : InBounds (record { ret = 0; status = 500; body = none })
  no_status-InBounds = record {
    low = omega arith;
    high = omega arith;
    body = inl (refl, refl, refl);
  }

  status_bounds : (n : ℕ) → (100 ≤ status_of n) × (status_of n ≤ 599)
  status_bounds n = (ground arith, ground arith)

  status-Result :
      (response : Bytes) (o : Option Bytes)
      → Result (Overruns response) (of_status body_size response o)
  status-Result response none = inr (_, refl, no_status-InBounds)
  status-Result response (some space) =
      let n = (simple_strtoul (drop 1 space) 10).0 in
      body-Result response (status_of n) (body_start response) refl (status_bounds n)

  version-Result :
      (response : Bytes) (o : Option Bytes)
      → Result (Overruns response) (of_version body_size response o)
  version-Result response none = inr (_, refl, no_status-InBounds)
  version-Result response (some version) = status-Result response (strchr version b' ')

  -- For a body of at least one byte, `parse_http_response` ends on any response, and its loop never
  -- runs out of fuel: it gives a status code from 100 to 599, and a body that is as long as the
  -- result says and has its NUL inside the buffer, or with status 500 and result 0 one that it has
  -- not written to; or the response has the header of a chunked body, and the loop over its chunks
  -- leaves a buffer.
  pub parse_http_response_bounds :
      (response : Bytes)
      → ((parse_http_response response body_size ≡ none) × Overruns response)
        ⊎ ((p : Parsed) × (parse_http_response response body_size ≡ some p) × InBounds p)
  unfolding parse_http_response
  parse_http_response_bounds response = version-Result response (strstr response (codes "HTTP/1."))
