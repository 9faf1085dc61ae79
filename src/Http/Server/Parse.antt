-- ===== src/Http/Server/Parse.antt =====
-- What `parse_url` takes from a URL.
use vtfs.Base.{
  ℕ, ◌+◌, ◌-◌, ◌≤◌, ◌≡◌, refl, sym, ap, ◌∙◌, false, Option, none, some, ◌∷◌, ◌++◌, leb, arith,
}
use vtfs.Base.Int.{ℤ, pos}
use vtfs.Base.Lists.{length, take, mem, length-append, take-append_le, take_all}
use vtfs.Base.Strings.{Bytes}
use vtfs.Http.Text.{starts_with, strchr, print}
use vtfs.Http.Text.Numbers.{kstrto-print, kstrto-slash}
use vtfs.Http.Text.Search.{strchr_skip, strchr_here, strchr_pass, strchr-length-le}
use vtfs.Http.Server.{Server, scheme, before, smaller, port_of, host_size, parse_url}

-- A name or an address of a host: no colon, no slash, no NUL, and short enough for the variable.
pub record IsHost (host : Bytes) : Type 0 where
  pub no_colon : mem b':' host ≡ false
  pub no_slash : mem b'/' host ≡ false
  pub no_nul : mem 0 host ≡ false
  pub short : length host ≤ 255

module _ (host : Bytes) (h : IsHost host) (server : Server) where
  -- The slash, if there is one, stands behind the colon.
  slash_behind :
      (tail : Bytes) (found : Option Bytes)
      → strchr (host ++ b':' ∷ tail) b'/' ≡ found
      → smaller (before (host ++ b':' ∷ tail) found (length host)) (length host) ≡ length host
  slash_behind tail none e = ground arith
  slash_behind tail (some f) e =
      let total : length (host ++ b':' ∷ tail) ≡ length host + (length tail + 1) =
        omega (arith, length-append {0} host (b':' ∷ tail)) in
      let skipped : strchr (host ++ b':' ∷ tail) b'/' ≡ strchr (b':' ∷ tail) b'/' =
        strchr_skip b'/' host (b':' ∷ tail) h.no_nul h.no_slash in
      let rest : length f ≤ length tail =
        strchr-length-le b'/' tail f (strchr_pass b'/' b':' tail refl refl ∙ sym skipped ∙ e) in
      ground arith

  with_colon :
      (tail : Bytes)
      → parse_url (some (scheme ++ host ++ b':' ∷ tail)) server
        ≡ (pos 0, record server { host = host; port = port_of (some (b':' ∷ tail)) })
  unfolding parse_url starts_with
  with_colon tail =
      let colon : strchr (host ++ b':' ∷ tail) b':' ≡ some (b':' ∷ tail) =
        strchr_skip b':' host (b':' ∷ tail) h.no_nul h.no_colon ∙ strchr_here b':' tail in
      let place : length (host ++ b':' ∷ tail) - length (b':' ∷ tail) ≡ length host =
        omega (arith, length-append {0} host (b':' ∷ tail)) in
      let small : leb host_size (length host) ≡ false = ground (arith, h.short) in
      let cut : take (length host) (host ++ b':' ∷ tail) ≡ host =
        take-append_le (length host) host (b':' ∷ tail) (omega arith)
        ∙ take_all (length host) host (omega arith) in
      rw colon (
        rw place
          (rw (slash_behind tail (strchr (host ++ b':' ∷ tail) b'/') refl) (rw small (rw cut))))

  -- From `http://host:port` with a port of at most 2147483647, `parse_url` takes the host and the
  -- port, whatever server it had before.
  pub parse_url-print :
      (n : ℕ)
      → n ≤ 0x7FFFFFFF
      → parse_url (some (scheme ++ host ++ b':' ∷ print 10 n)) server
        ≡ (pos 0, record server { host = host; port = pos n })
  parse_url-print n le =
      let port : port_of (some (b':' ∷ print 10 n)) ≡ pos n =
        ground (arith, kstrto-print 0x7FFFFFFF n le) in
      with_colon (print 10 n)
      ∙ ap (λ (k : ℤ). (pos 0, record server { host = host; port = k })) port

  -- With a slash behind the port, as in `http://host:port/` and `http://host:port/path`, the port
  -- is lost: `parse_url` takes the host and 8080, and reports no error.
  pub parse_url-slash :
      (n : ℕ) (path : Bytes)
      → parse_url (some (scheme ++ host ++ b':' ∷ (print 10 n ++ b'/' ∷ path))) server
        ≡ (pos 0, record server { host = host; port = pos 8080 })
  parse_url-slash n path =
      let tail = print 10 n ++ b'/' ∷ path in
      let port : port_of (some (b':' ∷ tail)) ≡ pos 8080 =
        ground (arith, kstrto-slash 0x7FFFFFFF n path) in
      with_colon tail ∙ ap (λ (k : ℤ). (pos 0, record server { host = host; port = k })) port
