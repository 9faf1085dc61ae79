-- ===== src/Checks/Fetched.antt =====
-- A lookup of a file that only the server has.
use vtfs.Base.{◌≡◌, refl, arith, true, false, some, [], ◌∷◌, ◌++◌}
use vtfs.Base.Int.{pos}
use vtfs.Base.Strings.{Bytes, codes, strlcat, clip, str_eq}
use vtfs.Storage.State.{Store, file_mode}
use vtfs.Http.Text.{kstrto}
use vtfs.Storage.Path.{build_path, slash}
use vtfs.Http.Base64.{base64_decode, decode, output_length, digit}
use vtfs.Http.Call.{create_connection, query_params, request_text, to_send, vtfs_http_call}
use vtfs.Http.Json.{
  extract_json_field, extract_json_number, number_length, skip_blanks, ends_number,
}
use vtfs.Http.Remote.{vtfs_http_stat, vtfs_http_read, result_end}
use vtfs.Http.Remote.Read.{read_body}
use vtfs.Http.Response.{parse_http_response}
use vtfs.Http.Text.{strstr, strchr, starts_with, c_string, scan, simple_strtoul, digits}
use vtfs.Http.Url.{url_encode, quote}
use vtfs.Ops.Lookup.{Remote, full_path}
use vtfs.Ops.Lookup.Fetched.{Fetched, vtfs_lookup-Fetched}
use vtfs.Checks.Small.{small, env, small-IsTree, Unnamed-but}
use vtfs.Checks.Remote.{local, net_of}

abbrev header : Bytes
header = codes "HTTP/1.1 200 OK" ++ (13 ∷ 10 ∷ 13 ∷ 10 ∷ [])

abbrev remote : Remote
remote = record {
  server = local;
  token = codes "t";
  stat_net = net_of (header ++ codes "{\"result\":{\"type\":\"file\",\"size\":3}}");
  read_net = net_of (header ++ read_body (codes "YWJj") (codes "}}"));
  has_buffer = true;
}

said :
    vtfs_http_stat local remote.stat_net (codes "t") (full_path slash (codes "b"))
    ≡ some (pos 0, some (file_mode, pos 3))
unfolding vtfs_http_stat vtfs_http_call query_params request_text to_send strlcat url_encode
    parse_http_response strstr strchr starts_with c_string scan simple_strtoul digits clip quote
    create_connection extract_json_field extract_json_number result_end number_length skip_blanks
    ends_number kstrto str_eq
said = refl

sent :
    vtfs_http_read local remote.read_net (codes "t") (full_path slash (codes "b")) 3 (pos 0)
    ≡ some (pos 3, codes "abc")
unfolding vtfs_http_read vtfs_http_call query_params request_text to_send strlcat url_encode
    parse_http_response strstr strchr starts_with c_string scan simple_strtoul digits clip quote
    create_connection extract_json_field base64_decode decode output_length digit str_eq
sent = refl

home_path : build_path 1 512 small ≡ some (slash, small)
unfolding build_path clip
home_path = refl

b_differs : str_eq (codes "a") (codes "b") ≡ false
unfolding str_eq
b_differs = refl

vtfs_lookup-Fetched_example :
    (s' : Store) × Fetched
      (env 4 7)
      remote
      small
      1
      1000
      (codes "b")
      slash
      small-IsTree
      refl
      refl
      refl
      (Unnamed-but (codes "b") b_differs)
      refl
      home_path
      refl
      refl
      file_mode
      2
      b'a'
      (codes "bc")
      said
      refl
      refl
      sent
      refl
      refl
      (omega arith)
      s'
vtfs_lookup-Fetched_example =
    vtfs_lookup-Fetched (env 4 7) remote small 1 1000 (codes "b") slash small-IsTree refl refl refl
      (Unnamed-but (codes "b") b_differs) refl home_path refl refl file_mode 2 b'a' (codes "bc")
      said refl refl sent refl refl (omega arith)
