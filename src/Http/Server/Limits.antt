-- ===== src/Http/Server/Limits.antt =====
-- What `parse_url` leaves in the variables of the server.
use vtfs.Base.{
  ℕ, zero, suc, ◌-◌, ◌≤◌, ◌<◌, Option, none, some, [], ◌∷◌, ◌==◌, leb, arith, if◌then◌else◌,
  Bool-cases, inl, inr,
}
use vtfs.Base.Int.{ℤ, pos, negsuc, neg}
use vtfs.Base.Lists.{length, take, length-take}
use vtfs.Base.Strings.{Bytes}
use vtfs.Http.Text.{strchr, kstrto, natural, at_most}
use vtfs.Http.Server.{
  Server, initial, host_start, host_size, before, smaller, port_of, parse_url, vtfs_http_init,
  vtfs_http_set_server, vtfs_http_cleanup,
}

-- An `int`.
abbrev pub IsInt : ℤ → Type 0
IsInt (pos n) = n < 2147483648
IsInt (negsuc n) = n < 2147483648

-- The host has its NUL in `server_host`, the port is an `int`.
pub record IsServer (server : Server) : Type 0 where
  pub host : length server.host ≤ 255
  pub port : IsInt server.port

abbrev IsSmall : Option ℤ → Type 0
IsSmall none = Unit
IsSmall (some n) = IsInt n

positive-IsSmall : (o : Option ℕ) → IsSmall (at_most 2147483647 pos o)
positive-IsSmall none = tt
positive-IsSmall (some n) = elim (Bool-cases (leb n 2147483647)) [
  | inl small ↦ rw small (ground arith)
  | inr large ↦ rw large tt
]

neg_small : (n : ℕ) → n ≤ 2147483648 → IsInt (neg n)
neg_small zero le = omega arith
neg_small (suc n) le = omega arith

negative-IsSmall : (o : Option ℕ) → IsSmall (at_most 2147483648 neg o)
negative-IsSmall none = tt
negative-IsSmall (some n) = elim (Bool-cases (leb n 2147483648)) [
  | inl small ↦ rw small (neg_small n (ground arith))
  | inr large ↦ rw large tt
]

kstrto-IsSmall : (s : Bytes) → IsSmall (kstrto 0x7FFFFFFF s)
unfolding kstrto
kstrto-IsSmall [] = tt
kstrto-IsSmall (c ∷ s) = elim (Bool-cases (c == b'-')) [
  | inl minus ↦ rw minus (negative-IsSmall (natural s))
  | inr other ↦ rw other (positive-IsSmall (natural (if c == b'+' then s else c ∷ s)))
]

parsed-IsInt : (o : Option ℤ) → IsSmall o → IsInt (elim o [ none ↦ pos 8080 | some n ↦ n ])
parsed-IsInt none h = omega arith
parsed-IsInt (some n) h = h

port_of-IsInt : (o : Option Bytes) → IsInt (port_of o)
port_of-IsInt none = omega arith
port_of-IsInt (some []) = omega arith
port_of-IsInt (some (colon ∷ s)) = parsed-IsInt (kstrto 0x7FFFFFFF s) (kstrto-IsSmall s)

cut-length :
    (n : ℕ) (s : Bytes) → length (take (if leb host_size n then host_size - 1 else n) s) ≤ 255
cut-length n s = elim (Bool-cases (leb host_size n)) [
  | inl long ↦ rw long (omega (arith, length-take {0} 255 s))
  | inr short ↦ rw short (ground (arith, length-take {0} n s))
]

parse_url-IsServer : (url : Bytes) (server : Server) → IsServer (parse_url (some url) server).1
unfolding parse_url
parse_url-IsServer url server =
    let s = host_start url in
    let colon = strchr s b':' in
    let host_len = before s colon (length s) in
    record {
      host = cut-length (smaller (before s (strchr s b'/') host_len) host_len) s;
      port = port_of-IsInt colon;
    }

-- The operations that change the variables of the server.
pub data Step : Server → Server → Type 0 where
  set : {server : Server} (url : Option Bytes) → Step server (vtfs_http_set_server url server)
  start : {server : Server} (url : Option Bytes) → Step server (vtfs_http_init url server).1
  stop : {server : Server} → Step server (vtfs_http_cleanup server)

-- What these variables are in some order of these operations, from the module's load on.
pub data Reached : Server → Type 0 where
  loaded : Reached initial
  after : {server next : Server} → Reached server → Step server next → Reached next

set-IsServer :
    (url : Option Bytes) (server : Server)
    → IsServer server
    → IsServer (vtfs_http_set_server url server)
unfolding vtfs_http_set_server
set-IsServer none server h = h
set-IsServer (some url) server h = parse_url-IsServer url server

start-IsServer :
    (url : Option Bytes) (server : Server)
    → IsServer server
    → IsServer (vtfs_http_init url server).1
unfolding vtfs_http_init
start-IsServer none server h = record { host = h.host; port = h.port }
start-IsServer (some url) server h =
    let p = parse_url-IsServer url server in record { host = p.host; port = p.port }

step-IsServer : {server next : Server} → IsServer server → Step server next → IsServer next
step-IsServer {server} h (set url) = set-IsServer url server h
step-IsServer {server} h (start url) = start-IsServer url server h
step-IsServer h stop = record { host = h.host; port = h.port }

-- Whatever URLs the server has been set to, one after the other, and whether the client was
-- started or stopped: the host is at most 255 bytes long, so it has its NUL in its variable, and the
-- port is an `int`.
pub Reached-IsServer : {server : Server} → Reached server → IsServer server
Reached-IsServer loaded = record { host = omega arith; port = omega arith }
Reached-IsServer (after r s) = step-IsServer (Reached-IsServer r) s
