-- ===== src/Http/Json.antt =====
-- `extract_json_field` and `extract_json_number`, module/http.c. The result comes with what is in the
-- value's buffer, if it has been written to.
pub mod Field
use vtfs.Base.{
  ℕ, suc, ◌-◌, Bool, true, false, ◌||◌, Option, none, some, List, [], ◌∷◌, ◌++◌, ◌==◌, leb,
  if◌then◌else◌,
}
use vtfs.Base.Int.{ℤ, pos, neg, enoent, einval}
use vtfs.Base.Lists.{length, take, drop}
use vtfs.Base.Strings.{Bytes, clip}
use vtfs.Http.Text.{strstr, strchr}

-- `snprintf(pattern, sizeof(pattern), "\"%s\"", field)`
abbrev pub pattern_of : Bytes → Bytes
pattern_of field = clip 128 (b'"' ∷ field ++ b'"' ∷ [])

-- `memcpy` of so many bytes, as far as the buffer has room for them and the NUL.
abbrev pub copied : (value_size value_len : ℕ) → Bytes → Bytes
copied value_size value_len from =
    take (if leb value_size value_len then value_size - 1 else value_len) from

-- From the quote behind the field on: the value stands between it and the next one.
abbrev value_end : (value_size : ℕ) → Bytes → Option Bytes → ℤ × Option Bytes
value_end value_size start none = (neg einval, none)
value_end value_size start (some end) =
    (pos 0, some (copied value_size (length start - length end) start))

abbrev value_start : (value_size : ℕ) → Option Bytes → ℤ × Option Bytes
value_start value_size none = (neg einval, none)
value_start value_size (some quote) =
    value_end value_size (drop 1 quote) (strchr (drop 1 quote) b'"')

abbrev field_start : (pattern : Bytes) → (value_size : ℕ) → Option Bytes → ℤ × Option Bytes
field_start pattern value_size none = (neg enoent, none)
field_start pattern value_size (some start) =
    value_start value_size (strchr (drop (length pattern) start) b'"')

unfoldable pub extract_json_field : (json field : Bytes) → (value_size : ℕ) → ℤ × Option Bytes
extract_json_field json field value_size =
    field_start (pattern_of field) value_size (strstr json (pattern_of field))

unfoldable pub skip_blanks : Bytes → Bytes
skip_blanks [] = []
skip_blanks (c ∷ s) = let rest = skip_blanks s in if c == b' ' || c == b'\t' then rest else c ∷ s

-- What ends a number: NUL, a comma, a closing bracket, or white space.
unfoldable pub ends_number : ℕ → Bool
ends_number c =
    c == 0
    || c == b','
    || c == b'}'
    || c == b']'
    || c == b' '
    || c == b'\t'
    || c == b'\n'
    || c == b'\r'

unfoldable pub number_length : Bytes → ℕ
number_length [] = 0
number_length (c ∷ s) = if ends_number c then 0 else suc (number_length s)

abbrev number_value : (value_size : ℕ) → Bytes → ℤ × Option Bytes
number_value value_size start =
    if number_length start == 0
    then (neg einval, none)
    else (pos 0, some (copied value_size (number_length start) start))

abbrev number_colon : (value_size : ℕ) → Option Bytes → ℤ × Option Bytes
number_colon value_size none = (neg einval, none)
number_colon value_size (some colon) = number_value value_size (skip_blanks (drop 1 colon))

abbrev number_start : (pattern : Bytes) → (value_size : ℕ) → Option Bytes → ℤ × Option Bytes
number_start pattern value_size none = (neg enoent, none)
number_start pattern value_size (some start) =
    number_colon value_size (strchr (drop (length pattern) start) b':')

unfoldable pub extract_json_number : (json field : Bytes) → (value_size : ℕ) → ℤ × Option Bytes
extract_json_number json field value_size =
    number_start (pattern_of field) value_size (strstr json (pattern_of field))
