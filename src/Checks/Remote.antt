-- ===== src/Checks/Remote.antt =====
-- The client of the server: runs, and the theorems at inputs that meet their hypotheses.
use vtfs.Base.{
  ◌%◌, ◌≤◌, ◌<◌, ◌≡◌, ◌≢◌, refl, sym, ap, ◌∙◌, ◌⊎◌, true, false, none, some, List, [], ◌∷◌, ◌++◌,
  arith,
}
use vtfs.Base.Int.{pos, neg, einval, int_of}
use vtfs.Base.Lists.{length}
use vtfs.Base.Strings.{Bytes, codes, strlcat, clip}
use vtfs.Http.Base64.{output_length, encode, sextet, base64_decode}
use vtfs.Http.Url.{url_encode, quote}
use vtfs.Http.Text.{
  strstr, strchr, starts_with, c_string, scan, simple_strtoul, digits, print, print_int,
}
use vtfs.Http.Server.{Server, initial, scheme, parse_url, vtfs_http_set_server}
use vtfs.Http.Response.{Parsed, done, decode_chunks, parse_http_response}
use vtfs.Http.Call.{
  Net, got, create_connection, buffer_size, query_params, request_text, to_send, vtfs_http_call,
}
use vtfs.Http.Remote.Read.{read_body, vtfs_http_read_bounds, vtfs_http_read-encode}
use vtfs.Http.Server.Parse.{IsHost, parse_url-print}
use vtfs.Http.Server.Limits.{IsServer, Reached, loaded, after, set, Reached-IsServer}
use vtfs.Http.Response.Bounds.{InBounds, Overruns, parse_http_response_bounds}
use vtfs.Http.Response.Chunks.{encode_chunks, decode_chunks-encode_chunks}
use vtfs.Http.Json.{extract_json_field}
use vtfs.Http.Json.Field.{quoted_name, clip_value, extract_json_field_value}
use vtfs.Http.Call.Fits.{to_send-whole}
use vtfs.Http.Call.Bounds.{IsFine, vtfs_http_call_bounds}
use vtfs.Http.Remote.{has, error_field, vtfs_http_read}

abbrev pub local : Server
local = record { host = codes "127.0.0.1"; port = pos 8080; initialized = true }

abbrev answer : Bytes
answer = codes "HTTP/1.1 200 OK" ++ (13 ∷ 10 ∷ 13 ∷ 10 ∷ read_body (codes "YWJj") (codes "}}"))

-- a network on which the server answers so
abbrev pub net_of : Bytes → Net
net_of reply = record {
  has_memory = true;
  sock_create_kern = pos 0;
  in4_pton = λ host. (1, 2130706433);
  kernel_connect = λ address port. pos 0;
  kernel_sendmsg = λ request. pos (length request);
  incoming = λ request. got reply;
  uninit = [];
  has_buffer = true;
}

answered :
    vtfs_http_call local (net_of answer) (codes "t") (codes "read") buffer_size (
      (codes "path", codes "/a")
      ∷ (codes "offset", print_int (pos 0))
      ∷ (codes "size", print 10 5)
      ∷ [])
    ≡ some (pos 0, some (read_body (codes "YWJj") (codes "}}")))
unfolding vtfs_http_call query_params request_text to_send strlcat url_encode parse_http_response
    strstr strchr starts_with c_string scan simple_strtoul digits clip quote create_connection
answered = refl

-- the code of the data, computed
abc_code : encode (codes "abc") ≡ codes "YWJj"
unfolding encode sextet
abc_code = refl

no_error : has (strstr (read_body (codes "YWJj") (codes "}}")) error_field) ≡ false
unfolding strstr starts_with
no_error = refl

vtfs_http_read_bounds_example :
    ((4 % 4 ≢ 0)
      × (vtfs_http_read local (net_of answer) (codes "t") (codes "/a") 5 (pos 0)
          ≡ some (neg einval, [])))
    ⊎ ((4 % 4 ≡ 0)
          × (5 < output_length (codes "YWJj"))
          × (vtfs_http_read local (net_of answer) (codes "t") (codes "/a") 5 (pos 0) ≡ none)
        ⊎ ((bytes : Bytes) × (length bytes ≡ output_length (codes "YWJj"))
            × (length bytes ≤ 5)
            × (base64_decode (codes "YWJj") 5 ≡ some (pos 0, bytes))
            × (vtfs_http_read local (net_of answer) (codes "t") (codes "/a") 5 (pos 0)
                ≡ some (int_of (length bytes), bytes))))
vtfs_http_read_bounds_example =
    vtfs_http_read_bounds local (net_of answer) (codes "t") (codes "/a") (codes "YWJj") (codes "}}")
      5 (pos 0) refl refl (refl, refl) (omega arith) no_error answered

vtfs_http_read-encode_example :
    vtfs_http_read local (net_of answer) (codes "t") (codes "/a") 5 (pos 0)
    ≡ some (pos 3, codes "abc")
vtfs_http_read-encode_example =
    vtfs_http_read-encode local (net_of answer) (codes "t") (codes "/a") (codes "abc") (codes "}}")
      5 (pos 0) refl refl (omega arith, (omega arith, (omega arith, tt))) (omega arith)
      (omega arith)
      (ap (λ (b : Bytes). has (strstr (read_body b (codes "}}")) error_field)) abc_code ∙ no_error)
      (answered ∙ ap (λ (b : Bytes). some (pos 0, some (read_body b (codes "}}")))) (sym abc_code))

local-IsHost : IsHost (codes "10.0.0.2")
local-IsHost = record { no_colon = refl; no_slash = refl; no_nul = refl; short = omega arith }

parse_url-print_example :
    parse_url (some (scheme ++ codes "10.0.0.2" ++ b':' ∷ print 10 9000)) initial
    ≡ (pos 0, record initial { host = codes "10.0.0.2"; port = pos 9000 })
parse_url-print_example = parse_url-print (codes "10.0.0.2") local-IsHost initial 9000 (omega arith)

reached : Reached (vtfs_http_set_server (some (codes "server/")) initial)
reached = after loaded (set (some (codes "server/")))

Reached-IsServer_example : IsServer (vtfs_http_set_server (some (codes "server/")) initial)
Reached-IsServer_example = Reached-IsServer reached

parse_http_response_bounds_example :
    ((parse_http_response answer 4 ≡ none) × Overruns 4 (omega arith) (omega arith) answer)
    ⊎ ((p : Parsed) × (parse_http_response answer 4 ≡ some p)
        × InBounds 4 (omega arith) (omega arith) p)
parse_http_response_bounds_example = parse_http_response_bounds 4 (omega arith) (omega arith) answer

decode_chunks-encode_chunks_example :
    decode_chunks 9 3 (encode_chunks (codes "abc" ∷ codes "defg" ∷ []) []) []
    ≡ done (codes "abcdefg")
decode_chunks-encode_chunks_example =
    decode_chunks-encode_chunks 9 (omega arith) (codes "abc" ∷ codes "defg" ∷ []) [] [] 3
      ((refl, refl), ((refl, refl), tt)) (omega arith) (omega arith)

extract_json_field_value_example :
    extract_json_field
      ([]
        ++ (quoted_name (codes "type") ++ (b':' ∷ [] ++ b'"' ∷ (codes "file" ++ b'"' ∷ codes "}"))))
      (codes "type")
      16
    ≡ (pos 0, some (clip_value 16 (codes "file")))
extract_json_field_value_example =
    extract_json_field_value [] (codes "type") (refl, refl) (omega arith) (b':' ∷ []) (codes "file")
      (codes "}") 16 (refl, refl) (refl, refl)

local-IsServer : IsServer local
local-IsServer = record { host = omega arith; port = omega arith }

abbrev path_only : List (Bytes × Bytes)
path_only = (codes "path", codes "/a") ∷ []

to_send-whole_example :
    to_send (request_text local (codes "t") (codes "stat") (query_params true [] path_only))
    ≡ some (request_text local (codes "t") (codes "stat") (query_params true [] path_only))
to_send-whole_example =
    to_send-whole local local-IsServer (codes "t") (codes "stat") (omega arith) (omega arith)
      path_only (omega arith) (omega arith, tt)

vtfs_http_call_bounds_example :
    IsFine
      (net_of answer)
      64
      (omega arith)
      (omega arith)
      (request_text local (codes "t") (codes "stat") (query_params true [] path_only))
      (vtfs_http_call local (net_of answer) (codes "t") (codes "stat") 64 path_only)
vtfs_http_call_bounds_example =
    vtfs_http_call_bounds (net_of answer) 64 (omega arith) (omega arith) local local-IsServer
      (codes "t") (codes "stat") (omega arith) (omega arith) path_only (omega arith)
      (omega arith, tt)
