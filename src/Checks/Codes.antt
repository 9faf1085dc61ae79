-- ===== src/Checks/Codes.antt =====
-- The theorems on the codes of the remote protocol, each at a short text.
use vtfs.Base.{ℕ, ◌≡◌, ◌≤◌, ◌<◌, ◌+◌, ◌%◌, ◌⊎◌, ◌≢◌, none, some, [], ◌∷◌, arith}
use vtfs.Base.Int.{pos, neg, einval}
use vtfs.Base.Lists.{length, take}
use vtfs.Base.Strings.{Bytes, codes}
use vtfs.Http.Base64.{bytes_to_base64, base64_decode, output_length}
use vtfs.Http.Base64.RoundTrip.{decode-encode_round_trip}
use vtfs.Http.Base64.Overflow.{base64_decode_bounds}
use vtfs.Http.Url.{url_encode}
use vtfs.Http.Url.Bounds.{quoted, url_encode_bounds}

abbrev text : Bytes
text = 0 ∷ 255 ∷ 65 ∷ 66 ∷ []

decode-encode_round_trip_example :
    ((bytes_to_base64 text 16).0 ≡ pos 0)
    × (base64_decode (bytes_to_base64 text 16).1 4 ≡ some (pos 0, text))
decode-encode_round_trip_example =
    decode-encode_round_trip text 16 4
      (omega arith, (omega arith, (omega arith, (omega arith, tt)))) (omega arith) (omega arith)

base64_decode_bounds_example :
    ((length (codes "QUJD") % 4 ≢ 0) × (base64_decode (codes "QUJD") 2 ≡ some (neg einval, [])))
    ⊎ ((length (codes "QUJD") % 4 ≡ 0)
          × (2 < output_length (codes "QUJD"))
          × (base64_decode (codes "QUJD") 2 ≡ none)
        ⊎ ((out : Bytes) × (output_length (codes "QUJD") ≤ 2)
            × (length out ≡ output_length (codes "QUJD"))
            × (base64_decode (codes "QUJD") 2 ≡ some (pos 0, out))))
base64_decode_bounds_example = base64_decode_bounds (codes "QUJD") 2

url_encode_bounds_example :
    (k : ℕ) × (k ≤ 3)
    × (url_encode (codes "a b") 6 ≡ quoted (take k (codes "a b")))
    × (length (url_encode (codes "a b") 6) < 6)
    × ((k ≡ 3) ⊎ (6 ≤ length (url_encode (codes "a b") 6) + 3))
url_encode_bounds_example = url_encode_bounds (codes "a b") 6 (omega arith) (omega arith)
