-- ===== src/Http/Server.antt =====
-- The server that the client talks to: `parse_url`, `vtfs_http_init`, `vtfs_http_cleanup` and
-- `vtfs_http_set_server`, module/http.c, over its three static variables.
pub mod Parse
pub mod Limits
use vtfs.Base.{
  ℕ, ◌-◌, Bool, true, false, not, Option, none, some, List, [], ◌∷◌, ltb, leb, if◌then◌else◌,
}
use vtfs.Base.Int.{ℤ, pos, neg, einval, is_zero}
use vtfs.Base.Lists.{length, take, drop}
use vtfs.Base.Strings.{Bytes, codes}
use vtfs.Http.Text.{starts_with, strchr, kstrto}

pub record Server : Type 0 where
  pub host : Bytes
  pub port : ℤ
  pub initialized : Bool

abbrev pub initial : Server
initial = record { host = codes "127.0.0.1"; port = pos 8080; initialized = false }

-- `sizeof(server_host)`
abbrev pub host_size : ℕ
host_size = 256

abbrev pub scheme : Bytes
scheme = codes "http://"

abbrev pub host_start : Bytes → Bytes
host_start url = if starts_with scheme url then drop 7 url else url

-- The bytes in front of a place in a string that `strchr` may have found; the default otherwise.
abbrev pub before : Bytes → Option Bytes → ℕ → ℕ
before s none default = default
before s (some found) default = length s - length found

-- The port behind a colon; 8080 where there is none or what follows is no number.
abbrev pub port_of : Option Bytes → ℤ
port_of none = pos 8080
port_of (some []) = pos 8080
port_of (some (colon ∷ s)) = elim (kstrto 0x7FFFFFFF s) [ none ↦ pos 8080 | some n ↦ n ]

abbrev smaller : ℕ → ℕ → ℕ
smaller a b = if ltb a b then a else b

unfoldable pub parse_url : Option Bytes → Server → ℤ × Server
parse_url none server = (neg einval, server)
parse_url (some url) server =
    let s = host_start url in
    let colon = strchr s b':' in
    let host_len = before s colon (length s) in
    let host_len = smaller (before s (strchr s b'/') host_len) host_len in
    let host_len = if leb host_size host_len then host_size - 1 else host_len in
    (pos 0, record server { host = take host_len s; port = port_of colon })

unfoldable pub vtfs_http_init : Option Bytes → Server → ℤ × Server
unfolding parse_url
vtfs_http_init none server = (pos 0, record server { initialized = true })
vtfs_http_init (some url) server =
    let (ret, parsed) = parse_url (some url) server in
    if not (is_zero ret) then (ret, parsed) else (pos 0, record parsed { initialized = true })

abbrev pub vtfs_http_cleanup : Server → Server
vtfs_http_cleanup server = record server { initialized = false }

unfoldable pub vtfs_http_set_server : Option Bytes → Server → Server
unfolding parse_url
vtfs_http_set_server none server = server
vtfs_http_set_server (some url) server = (parse_url (some url) server).1
