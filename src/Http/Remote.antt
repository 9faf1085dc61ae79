-- ===== src/Http/Remote.antt =====
-- The calls on remote files: `vtfs_http_create`, `vtfs_http_write`, `vtfs_http_read`,
-- `vtfs_http_delete` and `vtfs_http_stat`, module/http.c.
pub mod Read
pub mod Write
use vtfs.Base.{
  ℕ, zero, suc, ◌+◌, ◌-◌, ◌*◌, ◌/◌, ◌^◌, Bool, true, false, not, Option, none, some, List, [], ◌∷◌,
  ◌++◌, ◌==◌, ltb, leb, if◌then◌else◌,
}
use vtfs.Base.Int.{ℤ, pos, negsuc, neg, is_neg, is_zero, int_of, enoent, eio, enomem}
use vtfs.Base.Lists.{length, take}
use vtfs.Base.Strings.{Bytes, codes, clip, str_eq}
use vtfs.Storage.State.{file_mode, dir_mode}
use vtfs.Http.Base64.{bytes_to_base64, base64_decode}
use vtfs.Http.Text.{strstr, strchr, print, print_int, kstrto}
use vtfs.Http.Server.{Server}
use vtfs.Http.Json.{extract_json_field, extract_json_number}
use vtfs.Http.Call.{Net, buffer_size, vtfs_http_call}

abbrev pub has : Option Bytes → Bool
has none = false
has (some s) = true

-- The name of a field of the response, in its quotes.
abbrev pub quoted : Bytes → Bytes
quoted name = b'"' ∷ (name ++ b'"' ∷ [])

abbrev pub error_field : Bytes
error_field = quoted (codes "error")

-- What stands in the caller's buffer after a call.
abbrev pub response_of : Net → Option Bytes → Bytes
response_of net none = net.uninit
response_of net (some body) = body

-- One that fails as negative numbers do, or with an error in the response.
abbrev pub checked : Net → (on_success : ℤ) → Option (ℤ × Option Bytes) → Option ℤ
checked net on_success none = none
checked net on_success (some (ret, body)) =
    if is_neg ret
    then some ret
    else if has (strstr (response_of net body) error_field)
    then some (neg eio)
    else some on_success

module _ (server : Server) (net : Net) (token : Bytes) where
  unfoldable pub vtfs_http_create : (path kind : Bytes) → (mode : ℕ) → Option ℤ
  vtfs_http_create path kind mode =
      if not server.initialized
      then some (pos 0)
      else checked net (pos 0) (
          vtfs_http_call server net token (codes "create") buffer_size
            ((codes "path", path) ∷ (codes "type", kind) ∷ (codes "mode", print 8 mode) ∷ []))

  unfoldable pub vtfs_http_write : (path bytes : Bytes) → (offset : ℤ) → Option ℤ
  vtfs_http_write path bytes offset =
      if not server.initialized
      then some (pos 0)
      else if not net.has_buffer
      then some (neg enomem)
      else let encoded = bytes_to_base64 bytes ((length bytes + 2) / 3 * 4 + 1) in
        if not (is_zero encoded.0)
        then some encoded.0
        else checked net (int_of (length bytes)) (
            vtfs_http_call server net token (codes "write") buffer_size (
              (codes "path", path)
              ∷ (codes "offset", print_int offset)
              ∷ (codes "data", encoded.1)
              ∷ []))

  unfoldable pub vtfs_http_delete : (path : Bytes) → Option ℤ
  vtfs_http_delete path =
      if not server.initialized
      then some (pos 0)
      else checked net (pos 0)
          (vtfs_http_call server net token (codes "delete") buffer_size ((codes "path", path) ∷ []))

-- The decoded bytes are copied to the reader's buffer.
abbrev of_decoded : Option (ℤ × Bytes) → Option (ℤ × Bytes)
of_decoded none = none
of_decoded (some (ret, bytes)) =
    if not (is_zero ret) then some (ret, []) else some (int_of (length bytes), bytes)

-- From the value of the field `data` on: a buffer of the size asked for, and the decoder.
abbrev of_data : Net → (size : ℕ) → ℤ × Option Bytes → Option (ℤ × Bytes)
of_data net size (ret, none) = some (ret, [])
of_data net size (ret, some data_str) =
    if not (is_zero ret)
    then some (ret, [])
    else if not net.has_buffer
    then some (neg enomem, [])
    else of_decoded (base64_decode data_str size)

abbrev of_data_field : Net → (size : ℕ) → Option Bytes → Option (ℤ × Bytes)
of_data_field net size none = some (neg enoent, [])
of_data_field net size (some found) =
    of_data net size (extract_json_field found (codes "data") buffer_size)

abbrev of_result_field : Net → (size : ℕ) → Option Bytes → Option (ℤ × Bytes)
of_result_field net size none = some (neg enoent, [])
of_result_field net size (some found) =
    of_data_field net size (strstr found (quoted (codes "data")))

abbrev of_response : Net → (size : ℕ) → Bytes → Option (ℤ × Bytes)
of_response net size response =
    if has (strstr response error_field)
    then some (neg enoent, [])
    else of_result_field net size (strstr response (quoted (codes "result")))

abbrev of_read : Net → (size : ℕ) → Option (ℤ × Option Bytes) → Option (ℤ × Bytes)
of_read net size none = none
of_read net size (some (ret, body)) =
    if not (is_zero ret) then some (neg enoent, []) else of_response net size (response_of net body)

-- The result, and the bytes that are copied to the reader's buffer.
unfoldable pub vtfs_http_read :
    Server → Net → (token path : Bytes) → (size : ℕ) → (offset : ℤ) → Option (ℤ × Bytes)
vtfs_http_read server net token path size offset =
    if not server.initialized
    then some (neg enoent, [])
    else of_read net size (
        vtfs_http_call server net token (codes "read") buffer_size (
          (codes "path", path)
          ∷ (codes "offset", print_int offset)
          ∷ (codes "size", print 10 size)
          ∷ []))

-- What stands behind the brace that closes the one in front; `none` where there is none.
unfoldable pub result_end : (brace_count : ℕ) → Bytes → Option Bytes
result_end zero s = some s
result_end (suc n) [] = none
result_end (suc n) (c ∷ s) = elim (c == 0) [
  | true ↦ none
  | false ↦ result_end (if c == b'{' then suc (suc n) else if c == b'}' then n else suc n) s
]

-- The mode and the size of a remote file.
abbrev pub Stat : Type 0
Stat = ℕ × ℤ

abbrev failed : Option (ℤ × Option Stat)
failed = some (neg eio, none)

abbrev of_type : (size : ℤ) → Bytes → Option (ℤ × Option Stat)
of_type size type_str =
    if str_eq type_str (codes "file")
    then some (pos 0, some (file_mode, size))
    else if str_eq type_str (codes "dir")
    then some (pos 0, some (dir_mode, size))
    else failed

abbrev of_number : (type_str : Bytes) → Option ℤ → Option (ℤ × Option Stat)
of_number type_str none = failed
of_number type_str (some size) = of_type size type_str

abbrev of_size : (type_str : Bytes) → ℤ × Option Bytes → Option (ℤ × Option Stat)
of_size type_str (ret, none) = failed
of_size type_str (ret, some size_str) =
    if not (is_zero ret) then failed else of_number type_str (kstrto 0x7FFFFFFFFFFFFFFF size_str)

abbrev of_fields : (result_json : Bytes) → ℤ × Option Bytes → Option (ℤ × Option Stat)
of_fields result_json (ret, none) = failed
of_fields result_json (ret, some type_str) =
    if not (is_zero ret)
    then failed
    else of_size type_str (extract_json_number result_json (codes "size") 32)

abbrev of_end : (start : Bytes) → Option Bytes → Option (ℤ × Option Stat)
of_end start none = failed
of_end start (some end) =
    let result_json = clip buffer_size (take (length start - length end) start) in
    of_fields result_json (extract_json_field result_json (codes "type") 16)

abbrev of_brace : Option Bytes → Option (ℤ × Option Stat)
of_brace none = failed
of_brace (some []) = failed
of_brace (some (brace ∷ s)) = of_end (brace ∷ s) (result_end 1 s)

abbrev of_result : Option Bytes → Option (ℤ × Option Stat)
of_result none = failed
of_result (some found) = of_brace (strchr found b'{')

abbrev of_stat : Net → Option (ℤ × Option Bytes) → Option (ℤ × Option Stat)
of_stat net none = none
of_stat net (some (ret, body)) =
    if is_neg ret
    then some (ret, none)
    else if has (strstr (response_of net body) error_field)
    then some (neg enoent, none)
    else of_result (strstr (response_of net body) (quoted (codes "result")))

unfoldable pub vtfs_http_stat : Server → Net → (token path : Bytes) → Option (ℤ × Option Stat)
vtfs_http_stat server net token path =
    if not server.initialized
    then some (neg enoent, none)
    else of_stat net
        (vtfs_http_call server net token (codes "stat") buffer_size ((codes "path", path) ∷ []))
