-- ===== src/Http/Text.antt =====
-- The string functions of the kernel that module/http.c calls, on buffers: a list of bytes is what
-- stands from a pointer on, and the string in it ends at the first NUL or at the end of the list.
pub mod Search
pub mod Numbers
use vtfs.Base.{
  ℕ, zero, suc, ◌+◌, ◌-◌, ◌*◌, ◌/◌, ◌%◌, ◌^◌, Bool, true, false, not, ◌&&◌, ◌||◌, Option, none,
  some, List, [], ◌∷◌, ◌++◌, ◌==◌, ltb, leb, if◌then◌else◌,
}
use vtfs.Base.Int.{ℤ, pos, negsuc, neg}
use vtfs.Base.Lists.{length}
use vtfs.Base.Strings.{Bytes}

-- `strncmp(s, prefix, strlen(prefix)) == 0`
unfoldable pub starts_with : Bytes → Bytes → Bool
starts_with [] s = true
starts_with (a ∷ prefix) [] = false
starts_with (a ∷ prefix) (b ∷ s) = (a == b) && starts_with prefix s

-- `strstr(s, needle)`: the buffer from the first place on where the needle stands.
unfoldable pub strstr : Bytes → Bytes → Option Bytes
strstr [] needle = none
strstr (c ∷ s) needle =
    let later = strstr s needle in
    if c == 0 then none else if starts_with needle (c ∷ s) then some (c ∷ s) else later

unfoldable pub strchr : Bytes → ℕ → Option Bytes
strchr [] c = none
strchr (d ∷ s) c =
    let later = strchr s c in if d == c then some (d ∷ s) else if d == 0 then none else later

-- The string that a buffer holds.
unfoldable pub c_string : Bytes → Bytes
c_string [] = []
c_string (c ∷ s) = let rest = c_string s in if c == 0 then [] else c ∷ rest

-- The value of a digit; 99 for what is none.
abbrev pub digit_value : ℕ → ℕ
digit_value c =
    if leb b'0' c && leb c b'9'
    then c - b'0'
    else if leb b'a' c && leb c b'f'
    then c - b'a' + 10
    else if leb b'A' c && leb c b'F'
    then c - b'A' + 10
    else 99

-- The digits in front of a buffer, as a number, and what follows them.
unfoldable pub scan : (base : ℕ) → Bytes → ℕ → ℕ × Bytes
scan base [] acc = (acc, [])
scan base (c ∷ s) acc =
    let rest = scan base s (acc * base + digit_value c) in
    if ltb (digit_value c) base then rest else (acc, c ∷ s)

abbrev skip_radix : (base : ℕ) → Bytes → Bytes
skip_radix base [] = []
skip_radix base (z ∷ []) = z ∷ []
skip_radix base (z ∷ x ∷ s) =
    if base == 16 && (z == b'0') && (x == b'x' || x == b'X') then s else z ∷ x ∷ s

-- `simple_strtoul(s, &end, base)`: the value wraps at 64 bits.
unfoldable pub simple_strtoul : Bytes → (base : ℕ) → ℕ × Bytes
unfolding scan
simple_strtoul s base = let r = scan base (skip_radix base s) 0 in (r.0 % 2 ^ 64, r.1)

-- The end of a number that `kstrtoint` and `kstrtoll` accept: one newline may follow.
abbrev pub ends : Bytes → Bool
ends [] = true
ends (c ∷ []) = c == b'\n'
ends (c ∷ d ∷ s) = false

abbrev pub natural : Bytes → Option ℕ
natural s =
    let r = scan 10 s 0 in if not (length r.1 == length s) && ends r.1 then some r.0 else none

abbrev pub at_most : (most : ℕ) → (ℕ → ℤ) → Option ℕ → Option ℤ
at_most most f none = none
at_most most f (some n) = if leb n most then some (f n) else none

-- `kstrtoint` and `kstrtoll` in base 10, with the greatest value of the type.
unfoldable pub kstrto : (greatest : ℕ) → Bytes → Option ℤ
unfolding scan
kstrto greatest [] = none
kstrto greatest (c ∷ s) =
    if c == b'-'
    then at_most (greatest + 1) neg (natural s)
    else at_most greatest pos (natural (if c == b'+' then s else c ∷ s))

-- `%u`, `%zu` and `%o`: the digits of a number, on fuel.
unfoldable pub digits : (base fuel n : ℕ) → Bytes
digits base zero n = []
digits base (suc fuel) n = elim (ltb n base) [
  | true ↦ (b'0' + n) ∷ []
  | false ↦ digits base fuel (n / base) ++ (b'0' + n % base) ∷ []
]

-- The base is 10 or 8, so a number has fewer digits than the fuel here.
abbrev pub print : (base n : ℕ) → Bytes
print base n = digits base (suc n) n

-- `%d` and `%lld`
abbrev pub print_int : ℤ → Bytes
print_int (pos n) = print 10 n
print_int (negsuc n) = b'-' ∷ print 10 (suc n)
