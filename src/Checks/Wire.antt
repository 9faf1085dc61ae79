-- ===== src/Checks/Wire.antt =====
-- What a server reads of a request, at a remote write of three bytes.
use vtfs.Base.{◌+◌, ◌-◌, ◌^◌, ◌<◌, ◌≡◌, refl, arith, true, some, List, [], ◌∷◌}
use vtfs.Base.Int.{pos, int_of}
use vtfs.Base.Lists.{length}
use vtfs.Base.Strings.{Bytes, codes}
use vtfs.Http.Base64.{base64_decode}
use vtfs.Http.Base64.RoundTrip.{AreBytes}
use vtfs.Http.Text.{kstrto}
use vtfs.Http.Url.{quote}
use vtfs.Http.Url.Bounds.{quoted}
use vtfs.Http.Call.{buffer_size, query_params, vtfs_http_call}
use vtfs.Http.Call.Query.{parse_query, parse_query-query_params}
use vtfs.Http.Remote.{checked, vtfs_http_write}
use vtfs.Http.Remote.Write.{vtfs_http_write-parse_query}
use vtfs.Checks.Remote.{local, net_of}

path_fits : length (quoted (codes "/a b")) + 3 < 512
unfolding quoted quote
path_fits = omega arith

path_bytes : AreBytes (codes "/a b")
path_bytes = (omega arith, (omega arith, (omega arith, (omega arith, tt))))

five_fits : length (quoted (codes "5")) + 3 < 512
unfolding quoted quote
five_fits = omega arith

parse_query-query_params_example :
    parse_query
      (query_params true [] ((codes "path", codes "/a b") ∷ (codes "size", codes "5") ∷ []))
    ≡ (codes "path", codes "/a b") ∷ (codes "size", codes "5") ∷ []
parse_query-query_params_example =
    parse_query-query_params (codes "path", codes "/a b") ((codes "size", codes "5") ∷ [])
      (omega arith, refl, refl, path_bytes, path_fits)
      ((omega arith, refl, refl, (omega arith, tt), five_fits), tt) (omega arith)

abbrev named : (offset_text code : Bytes) → List (Bytes × Bytes)
named offset_text code =
    (codes "path", codes "/a b") ∷ (codes "offset", offset_text) ∷ (codes "data", code) ∷ []

vtfs_http_write-parse_query_example :
    (offset_text code : Bytes) × (vtfs_http_write local
        (net_of [])
        (codes "t")
        (codes "/a b")
        (codes "abc")
        (pos 9)
      ≡ checked (net_of []) (int_of 3) (
          vtfs_http_call local
            (net_of [])
            (codes "t")
            (codes "write")
            buffer_size
            (named offset_text code)))
    × (parse_query (query_params true [] (named offset_text code)) ≡ named offset_text code)
    × (kstrto (2 ^ 63 - 1) offset_text ≡ some (pos 9))
    × (base64_decode code 3 ≡ some (pos 0, codes "abc"))
vtfs_http_write-parse_query_example =
    vtfs_http_write-parse_query local (net_of []) (codes "t") (codes "/a b") (codes "abc") 9 refl
      refl path_bytes path_fits (omega arith, (omega arith, (omega arith, tt))) (omega arith)
      (omega arith)
