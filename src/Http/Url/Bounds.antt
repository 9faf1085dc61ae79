-- ===== src/Http/Url/Bounds.antt =====
-- How much of the text is encoded, and how long the code is.
use vtfs.Base.{
  ℕ, suc, ◌+◌, ◌-◌, ◌%◌, ◌^◌, ◌≤◌, ◌<◌, ◌≡◌, sym, ◌∙◌, [], ◌∷◌, ◌++◌, append_assoc, append-nil, ltb,
  arith, ◌⊎◌, inl, inr, ltb→lt, Bool-cases,
}
use vtfs.Base.Lists.{length, take, length-append}
use vtfs.Base.Strings.{Bytes}
use vtfs.Http.Url.{quote, url_loop, url_encode}

-- The code of a whole text.
unfoldable pub quoted : Bytes → Bytes
quoted [] = []
quoted (c ∷ src) = quote c ++ quoted src

pub length-quote : (c : ℕ) → (1 ≤ length (quote c)) × (length (quote c) ≤ 3)
unfolding quote
length-quote c = ground arith

-- The loop encodes the front of the text, and stops early only when the limit is reached.
abbrev Stopped : ℕ → Bytes → Bytes → Bytes → Type 0
Stopped limit src dst result =
    (k : ℕ) × (k ≤ length src)
    × (result ≡ dst ++ quoted (take k src))
    × (length result ≤ limit + 2)
    × (k < length src → limit ≤ length result)

url_loop-Stopped :
    (limit : ℕ) (src dst : Bytes)
    → length dst ≤ limit + 2
    → Stopped limit src dst (url_loop limit src dst)
unfolding url_loop quoted
url_loop-Stopped limit [] dst le = (0, omega arith, sym (append-nil dst), le, λ h. omega arith)
url_loop-Stopped limit (c ∷ src) dst le = elim (Bool-cases (ltb (length dst) limit)) [
  | inl below ↦
      let n = length-append dst (quote c) in
      let (k, k_le, is, size, early) =
        url_loop-Stopped limit src (dst ++ quote c) (ground (arith, length-quote c)) in
      rw below (
        suc k,
        omega arith,
        is ∙ append_assoc dst (quote c) (quoted (take k src)),
        size,
        λ h. early (omega arith),
      )
  | inr full ↦ rw full (0, omega arith, sym (append-nil dst), le, λ h. ground arith)
]

-- In a buffer of 4 bytes or more the code and its NUL fit; it is the code of the front of the text,
-- and of all of it unless three bytes or fewer are left.
pub url_encode_bounds :
    (src : Bytes) (dst_size : ℕ)
    → 4 ≤ dst_size
    → dst_size < 2 ^ 64
    → (k : ℕ) × (k ≤ length src)
      × (url_encode src dst_size ≡ quoted (take k src))
      × (length (url_encode src dst_size) < dst_size)
      × ((k ≡ length src) ⊎ (dst_size ≤ length (url_encode src dst_size) + 3))
unfolding url_encode
url_encode_bounds src dst_size lo hi =
    let limit = (dst_size + 2 ^ 64 - 3) % 2 ^ 64 in
    let exact : limit ≡ dst_size - 3 = omega arith in
    let (k, k_le, is, size, early) = url_loop-Stopped limit src [] (omega arith) in
    (
      k,
      k_le,
      is,
      omega arith,
      elim (Bool-cases (ltb k (length src))) [
        | inl cut ↦ inr (omega (arith, early (ltb→lt k (length src) cut)))
        | inr whole ↦ inl (ground arith)
      ],
    )
