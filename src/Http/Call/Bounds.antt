-- ===== src/Http/Call/Bounds.antt =====
-- What `vtfs_http_call` leaves in the buffer of its caller.
use mathlib.Core.Path.{subst}
use vtfs.Base.{
  ℕ, ◌-◌, ◌^◌, ◌≤◌, ◌<◌, ◌≡◌, ◌≢◌, refl, sym, ◌⊎◌, inl, inr, Bool, true, false, not, Option, none,
  some, List, [], leb, arith, if◌then◌else◌, Bool-cases,
}
use vtfs.Base.Int.{ℤ, pos, negsuc, is_neg}
use vtfs.Base.Lists.{length}
use vtfs.Base.Strings.{Bytes}
use vtfs.Http.Text.{strstr}
use vtfs.Http.Server.{Server}
use vtfs.Http.Server.Limits.{IsServer}
use vtfs.Http.Response.{Parsed, chunked_header, parse_http_response}
use vtfs.Http.Response.Bounds.{InBounds, parse_http_response_bounds}
use vtfs.Http.Call.{
  Net, Reply, lost, got, Outcome, socket_send, socket_recv, buffer_size, of_reply,
  create_connection, received, of_parsed, exchange, request_text, query_params, vtfs_http_call,
}
use vtfs.Http.Call.Fits.{ShortKeys, to_send-whole}

module _ (net : Net) (body_size : ℕ) (some_room : 0 < body_size) (fits : body_size < 2 ^ 64) where
  -- A negative errno of the call or of the network, 0, or a status code of the server's error.
  abbrev IsCode : ℤ → Type 0
  IsCode (pos n) = (n ≡ 0) ⊎ ((400 ≤ n) × (n ≤ 599))
  IsCode (negsuc n) = Unit

  -- The caller's buffer is as it was, or has a text with its NUL.
  abbrev IsText : Option Bytes → Type 0
  IsText none = Unit
  IsText (some body) = length body < body_size

  abbrev pub IsFine : (request : Bytes) → Option Outcome → Type 0
  IsFine request none =
      (bytes : Bytes) × (socket_recv net request (buffer_size - 1) ≡ got bytes)
      × (strstr (received bytes) chunked_header ≢ none)
  IsFine request (some (ret, body)) = IsCode ret × IsText body

  negative : (ret : ℤ) → is_neg ret ≡ true → IsCode ret
  negative (pos n) h = cc h
  negative (negsuc n) h = tt

  status-IsCode : (n : ℕ) → n ≤ 599 → IsCode (if leb 400 n then pos n else pos 0)
  status-IsCode n le = elim (Bool-cases (leb 400 n)) [
    | inl bad ↦ rw bad (inr (ground arith, le))
    | inr good ↦ rw good (inl refl)
  ]

  body-IsText : (r : Parsed) → InBounds body_size some_room fits r → IsText r.body
  body-IsText r h = elim h.body [ inl (e, status, ret) ↦ rw e tt | inr (b, e, ret, lt) ↦ rw e lt ]

  parsed-IsFine :
      (request bytes : Bytes)
      → socket_recv net request (buffer_size - 1) ≡ got bytes
      → IsFine request (of_parsed (parse_http_response (received bytes) body_size))
  parsed-IsFine request bytes is =
      elim (parse_http_response_bounds body_size some_room fits (received bytes)) [
        | inl (e, (chunked, overran)) ↦ rw e (bytes, is, chunked)
        | inr (p, e, h) ↦ rw e (status-IsCode p.status h.high, body-IsText p h)
      ]

  reply-IsFine :
      (request : Bytes) (reply : Reply)
      → socket_recv net request (buffer_size - 1) ≡ reply
      → IsFine request (of_reply body_size reply)
  reply-IsFine request (lost n) is = (tt, tt)
  reply-IsFine request (got bytes) is = parsed-IsFine request bytes is

  exchange-IsFine : (request : Bytes) → IsFine request (exchange net body_size (some request))
  exchange-IsFine request = elim (Bool-cases (is_neg (socket_send net request))) [
    | inl failed ↦ rw failed (negative (socket_send net request) failed, tt)
    | inr sent ↦ rw sent (reply-IsFine request (socket_recv net request (buffer_size - 1)) refl)
  ]

  guarded :
      (request : Bytes) (failed result : Option Outcome) (b : Bool)
      → IsFine request failed
      → IsFine request result
      → IsFine request (if not b then failed else result)
  guarded request failed result true h k = k
  guarded request failed result false h k = h

  module _ (server : Server) (h : IsServer server) (token method : Bytes)
      (short_token : length token ≤ 2000) (short_method : length method ≤ 16)
      (args : List (Bytes × Bytes)) (few : length args ≤ 3) (short : ShortKeys args) where
    abbrev sent_text : Bytes
    sent_text = request_text server token method (query_params true [] args)

    -- For any memory, connection and reply, where the request fits into its buffer: `vtfs_http_call`
    -- returns a negative number, 0, or a status code from 400 to 599, and leaves the caller's
    -- buffer as it was or with a text that has its NUL inside; it leaves a buffer only where the
    -- reply to its request has the header of a chunked body.
    pub vtfs_http_call_bounds :
        IsFine sent_text (vtfs_http_call server net token method body_size args)
    unfolding vtfs_http_call
    vtfs_http_call_bounds =
        let whole = to_send-whole server h token method short_token short_method args few short in
        guarded _ _ _ server.initialized (tt, tt)
          (guarded _ _ _ net.has_memory (tt, tt)
            (guarded _ _ _ (create_connection server net) (tt, tt)
              (subst (λ (t : Option Bytes). IsFine sent_text (exchange net body_size t)) (sym whole)
                (exchange-IsFine sent_text))))
