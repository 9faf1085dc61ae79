-- ===== src/Http/Url.antt =====
-- `url_encode`, module/http.c.
pub mod Bounds
pub mod RoundTrip
use Prim.Native.Nat.{bit_and}
use vtfs.Base.{
  ℕ, ◌+◌, ◌-◌, ◌/◌, ◌%◌, ◌^◌, Bool, ◌&&◌, ◌||◌, List, [], ◌∷◌, ◌++◌, ◌==◌, ltb, leb, if◌then◌else◌,
}
use vtfs.Base.Lists.{length, get_or}
use vtfs.Base.Strings.{Bytes, codes}

abbrev pub hex : Bytes
hex = codes "0123456789ABCDEF"

-- The characters that stand for themselves. A byte above 127 is a negative `char`, and none of them.
unfoldable pub is_plain : ℕ → Bool
is_plain c =
    (leb b'A' c && leb c b'Z')
    || (leb b'a' c && leb c b'z')
    || (leb b'0' c && leb c b'9')
    || (c == b'-')
    || (c == b'_')
    || (c == b'.')
    || (c == b'~')

-- What one round of the loop writes.
unfoldable pub quote : ℕ → Bytes
unfolding is_plain
quote c =
    if is_plain c
    then c ∷ []
    else b'%' ∷ get_or hex (bit_and (c / 16) 0x0F) 0 ∷ get_or hex (bit_and c 0x0F) 0 ∷ []

url_loop : ℕ → Bytes → Bytes → Bytes
url_loop limit [] dst = dst
url_loop limit (c ∷ src) dst =
    if ltb (length dst) limit then url_loop limit src (dst ++ quote c) else dst

-- `dst_size - 3` is a `size_t`. The result is what is in the buffer; the code returns its length.
unfoldable pub url_encode : Bytes → ℕ → Bytes
unfolding url_loop
url_encode src dst_size = url_loop ((dst_size + 2 ^ 64 - 3) % 2 ^ 64) src []
