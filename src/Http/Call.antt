-- ===== src/Http/Call.antt =====
-- `vtfs_http_call`, module/http.c: the request that it builds, and what it makes of the reply. The
-- kernel's memory and sockets are given by a Net.
pub mod Fits
pub mod Bounds
pub mod Query
use vtfs.Base.{
  ℕ, ◌+◌, ◌-◌, ◌%◌, ◌^◌, Bool, true, false, not, Option, none, some, List, [], ◌∷◌, ◌++◌, ◌==◌, ltb,
  leb, if◌then◌else◌, zero, suc,
}
use vtfs.Base.Int.{ℤ, pos, negsuc, neg, is_neg, einval, enomem, econnrefused}
use vtfs.Base.Lists.{length, take}
use vtfs.Base.Strings.{Bytes, codes, strlcat, clip}
use vtfs.Http.Text.{print_int}
use vtfs.Http.Url.{url_encode}
use vtfs.Http.Server.{Server}
use vtfs.Http.Response.{Parsed, parse_http_response}

-- `VTFS_HTTP_BUFFER_SIZE`
abbrev pub buffer_size : ℕ
buffer_size = 4096

-- What a receive finds: the error -(n + 1), or the bytes that have come in.
pub data Reply : Type 0 where
  lost : (n : ℕ) → Reply
  got : Bytes → Reply

-- What the kernel gives to one call: whether there is memory for the three buffers, what the calls of
-- the network stack return, and what comes in on the connection after a request. `uninit` is what the
-- caller's buffers hold before the call, `has_buffer` whether there is memory for the buffer that a
-- caller allocates.
pub record Net : Type 0 where
  pub has_memory : Bool
  pub sock_create_kern : ℤ
  -- the result, 1 for an address, and the address
  pub in4_pton : Bytes → ℕ × ℕ
  pub kernel_connect : (address port : ℕ) → ℤ
  pub kernel_sendmsg : Bytes → ℤ
  pub incoming : Bytes → Reply
  pub uninit : Bytes
  pub has_buffer : Bool

-- `htons`: the lower 16 bits, whatever their order.
abbrev pub htons : ℤ → ℕ
htons (pos n) = n % 2 ^ 16
htons (negsuc n) = 2 ^ 16 - 1 - n % 2 ^ 16

-- Whether there is a connection.
unfoldable pub create_connection : Server → Net → Bool
create_connection server net =
    let (found, address) = net.in4_pton server.host in
    if is_neg net.sock_create_kern
    then false
    else if not (found == 1)
    then false
    else not (is_neg (net.kernel_connect address (htons server.port)))

abbrev pub socket_send : Net → (request : Bytes) → ℤ
socket_send net request = net.kernel_sendmsg request

-- At most `len` of the bytes that have come in.
abbrev cut_to : (len : ℕ) → Reply → Reply
cut_to len (lost n) = lost n
cut_to len (got bytes) = got (take len bytes)

abbrev pub socket_recv : Net → (request : Bytes) → (len : ℕ) → Reply
socket_recv net request len = cut_to len (net.incoming request)

abbrev encoded_size : ℕ
encoded_size = 512

-- One round of the loop over the arguments.
abbrev add_arg : (first : Bool) → Bytes → Bytes × Bytes → Bytes
add_arg first query (key, value) =
    let query = if first then query else strlcat query (codes "&") buffer_size in
    let query = strlcat (strlcat query key buffer_size) (codes "=") buffer_size in
    strlcat query (url_encode value encoded_size) buffer_size

unfoldable pub query_params : (first : Bool) → Bytes → List (Bytes × Bytes) → Bytes
query_params first query [] = query
query_params first query (arg ∷ args) = query_params false (add_arg first query arg) args

abbrev crlf : Bytes
crlf = b'\r' ∷ b'\n' ∷ []

abbrev pub behind_query : Server → Bytes
behind_query server =
    codes " HTTP/1.1"
    ++ (crlf
        ++ (codes "Host: "
            ++ (server.host
                ++ (codes ":"
                    ++ (print_int server.port
                        ++ (crlf ++ (codes "Connection: close" ++ (crlf ++ crlf))))))))

-- The text of the request, before it is cut to its buffer.
unfoldable pub request_text : Server → (token method query : Bytes) → Bytes
request_text server token method query =
    codes "GET /"
    ++ (method
        ++ (codes "?token="
            ++ (token
                ++ ((if ltb 0 (length query) then codes "&" ++ query else [])
                    ++ behind_query server))))

-- The bytes that are sent: as many as the text has, from a buffer of 4096 that holds a part of it;
-- `none` is a read behind the end of the buffer.
unfoldable pub to_send : Bytes → Option Bytes
to_send text =
    if ltb (length text) buffer_size
    then some text
    else if length text == buffer_size
    then some (clip buffer_size text ++ 0 ∷ [])
    else none

abbrev pub zeros : ℕ → Bytes
zeros zero = []
zeros (suc n) = 0 ∷ zeros n

-- The buffer for the response: cleared, then written to by the receive.
abbrev pub received : Bytes → Bytes
received bytes = bytes ++ zeros (buffer_size - length bytes)

abbrev pub Outcome : Type 0
Outcome = ℤ × Option Bytes

abbrev of_parsed : Option Parsed → Option Outcome
of_parsed none = none
of_parsed (some p) = some (if leb 400 p.status then pos p.status else pos 0, p.body)

abbrev pub of_reply : (body_size : ℕ) → Reply → Option Outcome
of_reply body_size (lost n) = some (negsuc n, none)
of_reply body_size (got bytes) = of_parsed (parse_http_response (received bytes) body_size)

-- From the send of a request on.
abbrev pub exchange : Net → (body_size : ℕ) → Option Bytes → Option Outcome
exchange net body_size none = none
exchange net body_size (some request) =
    if is_neg (socket_send net request)
    then some (socket_send net request, none)
    else of_reply body_size (socket_recv net request (buffer_size - 1))

-- The result, and what is in the caller's buffer, if it has been written to; `none` is an access
-- behind the end of a buffer.
unfoldable pub vtfs_http_call :
    Server → Net → (token method : Bytes) → (body_size : ℕ) → List (Bytes × Bytes) → Option Outcome
vtfs_http_call server net token method body_size args =
    if not server.initialized
    then some (neg einval, none)
    else if not net.has_memory
    then some (neg enomem, none)
    else let request = to_send (request_text server token method (query_params true [] args)) in
      if not (create_connection server net)
      then some (neg econnrefused, none)
      else exchange net body_size request
