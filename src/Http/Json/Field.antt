-- ===== src/Http/Json/Field.antt =====
-- What the two functions find in an object that a server prints.
use vtfs.Base.{
  ℕ, suc, ◌-◌, ◌≤◌, ◌≡◌, refl, ap, ◌∙◌, true, false, ◌||◌, some, [], ◌∷◌, ◌++◌, ◌==◌, leb, arith,
  if◌then◌else◌, Bool-cases, inl, inr,
}
use vtfs.Base.Int.{pos}
use vtfs.Base.Lists.{
  length, take, drop, mem, length-append, take-append_le, take-append_self, drop-append_self,
}
use vtfs.Base.Strings.{Bytes, clip_all}
use vtfs.Http.Text.{strstr, strchr}
use vtfs.Http.Text.Search.{strstr-append, strstr_skip, strchr_skip, strchr_here}
use vtfs.Http.Json.{
  pattern_of, copied, skip_blanks, ends_number, number_length, extract_json_field,
  extract_json_number,
}

-- Bytes in which neither a NUL nor a quote stands.
abbrev pub Plain : Bytes → Type 0
Plain s = (mem 0 s ≡ false) × (mem b'"' s ≡ false)

-- A value cut to a buffer: all of it, if there is room for a NUL behind it.
abbrev pub clip_value : (value_size : ℕ) → Bytes → Bytes
clip_value value_size value =
    if leb value_size (length value) then take (value_size - 1) value else value

copied_value :
    (value_size : ℕ) (value after : Bytes)
    → copied value_size (length value) (value ++ after) ≡ clip_value value_size value
copied_value value_size value after = elim (Bool-cases (leb value_size (length value))) [
  | inl long ↦ rw long (take-append_le (value_size - 1) value after (ground arith))
  | inr short ↦ rw short (take-append_self value after)
]

-- White space in front of a number.
abbrev pub AreBlanks : Bytes → Type 0
AreBlanks [] = Unit
AreBlanks (c ∷ s) = ((c == b' ' || c == b'\t') ≡ true) × AreBlanks s

-- Bytes of which none ends a number.
abbrev pub IsNumberText : Bytes → Type 0
IsNumberText [] = Unit
IsNumberText (c ∷ s) = (ends_number c ≡ false) × IsNumberText s

number_length-append :
    (number after : Bytes) (c : ℕ)
    → IsNumberText number
    → ends_number c ≡ true
    → number_length (number ++ c ∷ after) ≡ length number
unfolding number_length
number_length-append [] after c h e = rw e
number_length-append (d ∷ number) after c (hd, h) e =
    rw hd (ap suc (number_length-append number after c h e))

not_blank : (d : ℕ) (s : Bytes) → ends_number d ≡ false → skip_blanks (d ∷ s) ≡ d ∷ s
unfolding skip_blanks ends_number
not_blank d s h = ground arith

skip_blanks-append :
    (blanks : Bytes) (d : ℕ) (s : Bytes)
    → AreBlanks blanks
    → ends_number d ≡ false
    → skip_blanks (blanks ++ d ∷ s) ≡ d ∷ s
unfolding skip_blanks
skip_blanks-append [] d s h n = not_blank d s n
skip_blanks-append (c ∷ blanks) d s (hc, h) n = rw hc (skip_blanks-append blanks d s h n)

-- The name of a field in its quotes.
abbrev pub quoted_name : Bytes → Bytes
quoted_name field = b'"' ∷ (field ++ b'"' ∷ [])

module _ (front field : Bytes) (f : Plain front) (short : length field ≤ 125) where
  pattern_whole : pattern_of field ≡ quoted_name field
  pattern_whole =
      clip_all 128 (quoted_name field) (omega (arith, length-append {0} field (b'"' ∷ [])))

  -- The field's name is found behind what stands in front of it.
  found :
      (s : Bytes)
      → strstr (front ++ (quoted_name field ++ s)) (pattern_of field)
        ≡ some (quoted_name field ++ s)
  found s =
      ap (strstr (front ++ (quoted_name field ++ s))) pattern_whole
      ∙ strstr_skip b'"' (field ++ b'"' ∷ []) front (quoted_name field ++ s) f.0 f.1
      ∙ strstr-append b'"' (field ++ b'"' ∷ []) s refl

  behind : (s : Bytes) → drop (length (pattern_of field)) (quoted_name field ++ s) ≡ s
  behind s = rw pattern_whole (drop-append_self (quoted_name field) s)

  -- The value of a field that is a string, `"field" between "value"`, with no quote in front of the
  -- field, is what `extract_json_field` writes, cut to the size of its buffer.
  pub extract_json_field_value :
      (between value after : Bytes) (value_size : ℕ)
      → Plain between
      → Plain value
      → extract_json_field
          (front ++ (quoted_name field ++ (between ++ b'"' ∷ (value ++ b'"' ∷ after))))
          field
          value_size
        ≡ (pos 0, some (clip_value value_size value))
  unfolding extract_json_field
  extract_json_field_value between value after value_size b v =
      let tail = value ++ b'"' ∷ after in
      let quote : strchr (between ++ b'"' ∷ tail) b'"' ≡ some (b'"' ∷ tail) =
        strchr_skip b'"' between (b'"' ∷ tail) b.0 b.1 ∙ strchr_here b'"' tail in
      let end : strchr tail b'"' ≡ some (b'"' ∷ after) =
        strchr_skip b'"' value (b'"' ∷ after) v.0 v.1 ∙ strchr_here b'"' after in
      let long : length tail - length (b'"' ∷ after) ≡ length value =
        omega (arith, length-append {0} value (b'"' ∷ after)) in
      rw (found (between ++ b'"' ∷ tail)) (
        rw (behind (between ++ b'"' ∷ tail)) (
          rw quote (
            rw end (
              rw long (
                ap (λ (r : Bytes). (pos 0, some r))
                  (copied_value value_size value (b'"' ∷ after)))))))

  -- The value of a field that is a number, `"field" between : number`, with no quote in front of the
  -- field and no colon between, is what `extract_json_number` writes, cut to the size of its buffer.
  pub extract_json_number_value :
      (between blanks : Bytes) (d : ℕ) (number : Bytes) (c : ℕ) (after : Bytes) (value_size : ℕ)
      → mem 0 between ≡ false
      → mem b':' between ≡ false
      → AreBlanks blanks
      → IsNumberText (d ∷ number)
      → ends_number c ≡ true
      → extract_json_number
          (front
            ++ (quoted_name field ++ (between ++ b':' ∷ (blanks ++ (d ∷ number ++ c ∷ after)))))
          field
          value_size
        ≡ (pos 0, some (clip_value value_size (d ∷ number)))
  unfolding extract_json_number
  extract_json_number_value between blanks d number c after value_size b0 bc hb hn e =
      let tail = d ∷ number ++ c ∷ after in
      let colon : strchr (between ++ b':' ∷ (blanks ++ tail)) b':'
          ≡ some (b':' ∷ (blanks ++ tail)) =
        strchr_skip b':' between (b':' ∷ (blanks ++ tail)) b0 bc
        ∙ strchr_here b':' (blanks ++ tail) in
      let start : skip_blanks (blanks ++ tail) ≡ tail =
        skip_blanks-append blanks d (number ++ c ∷ after) hb hn.0 in
      let long : number_length tail ≡ length (d ∷ number) =
        number_length-append (d ∷ number) after c hn e in
      let some_digit : (length (d ∷ number) == 0) ≡ false = ground arith in
      rw (found (between ++ b':' ∷ (blanks ++ tail))) (
        rw (behind (between ++ b':' ∷ (blanks ++ tail))) (
          rw colon (
            rw start (
              rw long (
                rw some_digit (
                  ap (λ (r : Bytes). (pos 0, some r))
                    (copied_value value_size (d ∷ number) (c ∷ after))))))))
