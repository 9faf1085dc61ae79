-- ===== src/Http/Call/Query.antt =====
-- What a server reads in the query of a request.
use Prim.Native.Nat.{bit_and}
use vtfs.Base.{
  ℕ, ◌+◌, ◌-◌, ◌*◌, ◌/◌, ◌%◌, ◌≤◌, ◌<◌, ◌≡◌, refl, sym, ap, ◌∙◌, true, false, not, List, [], ◌∷◌,
  ◌++◌, append_assoc, append-nil, ◌==◌, arith, if◌then◌else◌, Bool-cases, inl, inr,
}
use vtfs.Base.Bits.{bit_and_fifteen}
use vtfs.Base.Tables.{passes, passes_lem}
use vtfs.Base.Lists.{length, length-append, take_all, mem, get_or}
use vtfs.Base.Strings.{Bytes, codes, strlcat}
use vtfs.Http.Base64.RoundTrip.{AreBytes}
use vtfs.Http.Url.{hex, is_plain, quote}
use vtfs.Http.Url.Bounds.{quoted}
use vtfs.Http.Url.RoundTrip.{pct_decode, pct_decode-quoted, url_encode_whole}
use vtfs.Http.Call.{add_arg, query_params, buffer_size}

-- The reading of a query: fields between ampersands, each a key, an equals sign and a value in
-- percent code.
push : ℕ → List Bytes → List Bytes
push x [] = (x ∷ []) ∷ []
push x (f ∷ fs) = (x ∷ f) ∷ fs

unfoldable pub split : ℕ → Bytes → List Bytes
unfolding push
split c [] = [] ∷ []
split c (x ∷ s) = let rest = split c s in if x == c then [] ∷ rest else push x rest

unfoldable pub before : ℕ → Bytes → Bytes
before c [] = []
before c (x ∷ s) = let rest = before c s in if x == c then [] else x ∷ rest

unfoldable pub behind : ℕ → Bytes → Bytes
behind c [] = []
behind c (x ∷ s) = let rest = behind c s in if x == c then s else rest

unfoldable pub parse_fields : List Bytes → List (Bytes × Bytes)
parse_fields [] = []
parse_fields (f ∷ fs) = (before b'=' f, pct_decode (behind b'=' f)) ∷ parse_fields fs

abbrev pub parse_query : Bytes → List (Bytes × Bytes)
parse_query s = parse_fields (split b'&' s)

split_one : (c : ℕ) (f : Bytes) → mem c f ≡ false → split c f ≡ f ∷ []
unfolding split push
split_one c [] h = refl
split_one c (x ∷ f) h = ground (arith, split_one c f)

split_next : (c : ℕ) (f s : Bytes) → mem c f ≡ false → split c (f ++ c ∷ s) ≡ f ∷ split c s
unfolding split push
split_next c [] s h = ground arith
split_next c (x ∷ f) s h = ground (arith, split_next c f s)

before_key : (c : ℕ) (k v : Bytes) → mem c k ≡ false → before c (k ++ c ∷ v) ≡ k
unfolding before
before_key c [] v h = ground arith
before_key c (x ∷ k) v h = ground (arith, before_key c k v)

behind_key : (c : ℕ) (k v : Bytes) → mem c k ≡ false → behind c (k ++ c ∷ v) ≡ v
unfolding behind
behind_key c [] v h = ground arith
behind_key c (x ∷ k) v h = ground (arith, behind_key c k v)

mem-append : (c : ℕ) (f s : Bytes) → mem c f ≡ false → mem c s ≡ false → mem c (f ++ s) ≡ false
mem-append c [] s h k = k
mem-append c (x ∷ f) s h k = ground (arith, mem-append c f s)

hex_table : passes (λ v. not (b'&' == get_or hex v 0)) 16 ≡ true
unfolding passes
hex_table = refl

hex_digit : (v : ℕ) → (b'&' == get_or hex (bit_and v 0x0F) 0) ≡ false
hex_digit v = rw (bit_and_fifteen v) (
    let ok = passes_lem (λ w. not (b'&' == get_or hex w 0)) 16 (v % 16) (omega arith) hex_table in
    ground (arith, ok))

-- The code of a text has no ampersand.
mem-quote : (c : ℕ) → mem b'&' (quote c) ≡ false
unfolding quote is_plain
mem-quote c = elim (Bool-cases (is_plain c)) [
  | inl plain ↦ rw plain (ground arith)
  | inr other ↦ rw other (ground (arith, hex_digit (c / 16), hex_digit c))
]

mem-quoted : (v : Bytes) → mem b'&' (quoted v) ≡ false
unfolding quoted
mem-quoted [] = refl
mem-quoted (c ∷ v) = mem-append b'&' (quote c) (quoted v) (mem-quote c) (mem-quoted v)

-- A key of at most eight bytes without separators, and a value whose code fits the buffer for it.
abbrev pub IsArg : Bytes × Bytes → Type 0
IsArg (key, value) =
    (length key ≤ 8)
    × (mem b'&' key ≡ false)
    × (mem b'=' key ≡ false)
    × AreBytes value
    × (length (quoted value) + 3 < 512)

abbrev pub AreArgs : List (Bytes × Bytes) → Type 0
AreArgs [] = Unit
AreArgs (arg ∷ args) = IsArg arg × AreArgs args

-- The text of the arguments, uncut.
abbrev print_arg : Bytes × Bytes → Bytes
print_arg (key, value) = key ++ b'=' ∷ quoted value

abbrev print_more : List (Bytes × Bytes) → Bytes
print_more [] = []
print_more (arg ∷ args) = b'&' ∷ (print_arg arg ++ print_more args)

mem-print_arg : (arg : Bytes × Bytes) → IsArg arg → mem b'&' (print_arg arg) ≡ false
mem-print_arg (key, value) (short, no_amp, no_eq, bytes, room) =
    mem-append b'&' key (b'=' ∷ quoted value) no_amp (ground (arith, mem-quoted value))

parse_arg :
    (arg : Bytes × Bytes) (fs : List Bytes)
    → IsArg arg
    → parse_fields (print_arg arg ∷ fs) ≡ arg ∷ parse_fields fs
unfolding parse_fields
parse_arg (key, value) fs (short, no_amp, no_eq, bytes, room) =
    let k = before_key b'=' key (quoted value) no_eq in
    let v =
      ap pct_decode (behind_key b'=' key (quoted value) no_eq) ∙ pct_decode-quoted value bytes in
    rw k (rw v refl)

-- A printed query is read as it was meant.
parse-print :
    (arg : Bytes × Bytes) (args : List (Bytes × Bytes))
    → IsArg arg
    → AreArgs args
    → parse_query (print_arg arg ++ print_more args) ≡ arg ∷ args
parse-print arg [] h hs =
    ap parse_query (append-nil (print_arg arg))
    ∙ ap parse_fields (split_one b'&' (print_arg arg) (mem-print_arg arg h))
    ∙ parse_arg arg [] h
    ∙ unfold parse_fields in refl
parse-print arg (next ∷ args) h (n, hs) =
    ap parse_fields
      (split_next b'&' (print_arg arg) (print_arg next ++ print_more args) (mem-print_arg arg h))
    ∙ parse_arg arg (split b'&' (print_arg next ++ print_more args)) h
    ∙ ap (λ r. arg ∷ r) (parse-print next args n hs)

strlcat_whole :
    (dst src : Bytes) (size : ℕ)
    → length dst + length src ≤ size - 1
    → strlcat dst src size ≡ dst ++ src
unfolding strlcat
strlcat_whole dst src size fits =
    ap (λ s. dst ++ s) (take_all (size - 1 - length dst) src (omega arith))

-- Where there is room for it an argument is added whole.
add_key :
    (query : Bytes) (arg : Bytes × Bytes)
    → IsArg arg
    → length query + 517 < buffer_size
    → add_arg true query arg ≡ query ++ print_arg arg
add_key query (key, value) (short, no_amp, no_eq, bytes, room) fits =
    let a = strlcat_whole query key buffer_size (omega arith) in
    let b =
      strlcat_whole (query ++ key) (codes "=") buffer_size
        (omega (arith, length-append query key)) in
    let e = url_encode_whole value 512 (omega arith) (omega arith) room in
    let c =
      strlcat_whole ((query ++ key) ++ codes "=") (quoted value) buffer_size
        (omega (arith, length-append query key, length-append (query ++ key) (codes "="))) in
    rw a (rw b (rw e (rw c (simp append_assoc))))

add_more :
    (query : Bytes) (arg : Bytes × Bytes)
    → IsArg arg
    → length query + 518 < buffer_size
    → add_arg false query arg ≡ query ++ b'&' ∷ print_arg arg
add_more query (key, value) h fits =
    let a = strlcat_whole query (codes "&") buffer_size (omega arith) in
    rw a (
      add_key (query ++ codes "&") (key, value) h (omega (arith, length-append query (codes "&")))
      ∙ append_assoc query (codes "&") (print_arg (key, value)))

length-print_arg : (arg : Bytes × Bytes) → IsArg arg → length (print_arg arg) ≤ 517
length-print_arg (key, value) (short, no_amp, no_eq, bytes, room) =
    omega (arith, length-append key (b'=' ∷ quoted value))

query_params-print :
    (query : Bytes) (args : List (Bytes × Bytes))
    → AreArgs args
    → length query + 518 * length args < buffer_size
    → query_params false query args ≡ query ++ print_more args
unfolding query_params
query_params-print query [] h fits = sym (append-nil query)
query_params-print query (arg ∷ args) (h, hs) fits =
    let longer = length-append query (b'&' ∷ print_arg arg) in
    ap (λ q. query_params false q args) (add_more query arg h (omega arith))
    ∙ query_params-print (query ++ b'&' ∷ print_arg arg) args hs
        (omega (arith, longer, length-print_arg arg h))
    ∙ append_assoc query (b'&' ∷ print_arg arg) (print_more args)

-- For one to three arguments with keys of at most eight bytes without separators, and values whose
-- code is shorter than its buffer by more than three bytes: a server that splits the query at the
-- ampersands, splits each field at its first equals sign and decodes the percent signs reads the
-- keys and the values that the client means.
pub parse_query-query_params :
    (arg : Bytes × Bytes) (args : List (Bytes × Bytes))
    → IsArg arg
    → AreArgs args
    → length args ≤ 2
    → parse_query (query_params true [] (arg ∷ args)) ≡ arg ∷ args
unfolding query_params
parse_query-query_params arg args h hs few =
    ap parse_query (
      ap (λ q. query_params false q args) (add_key [] arg h (omega arith))
      ∙ query_params-print (print_arg arg) args hs (omega (arith, length-print_arg arg h)))
    ∙ parse-print arg args h hs
