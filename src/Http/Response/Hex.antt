-- ===== src/Http/Response/Hex.antt =====
-- The sizes of chunks in hexadecimal, as a server prints them and `simple_strtoul` reads them.
use vtfs.Base.{
  ℕ, zero, suc, ◌+◌, ◌-◌, ◌*◌, ◌/◌, ◌%◌, ◌^◌, ◌<◌, ◌≡◌, refl, sym, ap, ◌∙◌, true, false, [], ◌∷◌,
  ◌++◌, append_assoc, ◌==◌, ltb, arith, if◌then◌else◌, Bool-cases, inl, inr,
}
use vtfs.Base.Strings.{Bytes}
use vtfs.Http.Text.{scan, digit_value, simple_strtoul}

-- The hexadecimal digits of a size, as a server prints them, on fuel.
abbrev hex_digit : ℕ → ℕ
hex_digit d = if ltb d 10 then b'0' + d else b'a' + (d - 10)

unfoldable pub hex : (fuel n : ℕ) → Bytes
hex zero n = []
hex (suc fuel) n = elim (ltb n 16) [
  | true ↦ hex_digit n ∷ []
  | false ↦ hex fuel (n / 16) ++ hex_digit (n % 16) ∷ []
]

hex_one : (fuel n : ℕ) → ltb n 16 ≡ true → hex (suc fuel) n ≡ hex_digit n ∷ []
unfolding hex
hex_one fuel n h = ground arith

hex_more :
    (fuel n : ℕ)
    → ltb n 16 ≡ false
    → hex (suc fuel) n ≡ hex fuel (n / 16) ++ hex_digit (n % 16) ∷ []
unfolding hex
hex_more fuel n h = ground arith

scan_one :
    (d acc : ℕ) (rest : Bytes)
    → d < 16
    → scan 16 (hex_digit d ∷ rest) acc ≡ scan 16 rest (acc * 16 + d)
unfolding scan
scan_one d acc rest lt =
    let value : digit_value (hex_digit d) ≡ d = ground arith in
    let low : ltb d 16 ≡ true = ground arith in rw value (rw low)

scan-hex : (fuel n : ℕ) (rest : Bytes) → n < fuel → scan 16 (hex fuel n ++ rest) 0 ≡ scan 16 rest n
scan-hex zero n rest lt = absurd (omega arith)
scan-hex (suc fuel) n rest lt = elim (Bool-cases (ltb n 16)) [
  | inl one ↦
      rw (hex_one fuel n one)
        (scan_one n 0 rest (ground arith) ∙ ap (λ (k : ℕ). scan 16 rest k) (omega arith))
  | inr more ↦ rw (hex_more fuel n more) (
      ap (λ (l : Bytes). scan 16 l 0)
        (append_assoc (hex fuel (n / 16)) (hex_digit (n % 16) ∷ []) rest)
      ∙ scan-hex fuel (n / 16) (hex_digit (n % 16) ∷ rest) (ground arith)
      ∙ scan_one (n % 16) (n / 16) rest (omega arith)
      ∙ ap (λ (k : ℕ). scan 16 rest k) (omega arith))
]

-- The first digit of a positive size is no zero, and no newline.
pub hex_head :
    (fuel n : ℕ) → n < fuel → 0 < n → (d : ℕ) × (ds : Bytes) × (hex fuel n ≡ d ∷ ds) × (b'0' < d)
hex_head zero n lt pos = absurd (omega arith)
hex_head (suc fuel) n lt pos = elim (Bool-cases (ltb n 16)) [
  | inl one ↦ (hex_digit n, [], hex_one fuel n one, ground arith)
  | inr more ↦
      let (d, ds, e, lo) = hex_head fuel (n / 16) (ground arith) (ground arith) in
      (
        d,
        ds ++ hex_digit (n % 16) ∷ [],
        hex_more fuel n more ∙ ap (λ (l : Bytes). l ++ hex_digit (n % 16) ∷ []) e,
        lo,
      )
]

no_radix :
    (d : ℕ) (s : Bytes)
    → b'0' < d
    → simple_strtoul (d ∷ s) 16 ≡ ((scan 16 (d ∷ s) 0).0 % 2 ^ 64, (scan 16 (d ∷ s) 0).1)
unfolding simple_strtoul
no_radix d [] lo = refl
no_radix d (x ∷ s) lo = let other : (d == b'0') ≡ false = ground arith in rw other

abbrev pub after_size : Bytes → Bytes
after_size s = b'\r' ∷ b'\n' ∷ s

scan_stops : (n : ℕ) (s : Bytes) → scan 16 (after_size s) n ≡ (n, after_size s)
unfolding scan
scan_stops n s = refl

pub simple_strtoul-hex :
    (n : ℕ) (s : Bytes)
    → 0 < n
    → n < 2 ^ 64
    → simple_strtoul (hex (suc n) n ++ after_size s) 16 ≡ (n, after_size s)
simple_strtoul-hex n s pos fits =
    let (d, ds, e, lo) = hex_head (suc n) n (omega arith) pos in
    let read : scan 16 (d ∷ ds ++ after_size s) 0 ≡ (n, after_size s) =
      ap (λ (l : Bytes). scan 16 (l ++ after_size s) 0) (sym e)
      ∙ scan-hex (suc n) n (after_size s) (omega arith)
      ∙ scan_stops n s in
    let small : n % 2 ^ 64 ≡ n = omega arith in
    ap (λ (l : Bytes). simple_strtoul (l ++ after_size s) 16) e
    ∙ no_radix d (ds ++ after_size s) lo
    ∙ ap (λ (r : ℕ × Bytes). (r.0 % 2 ^ 64, r.1)) read
    ∙ ap (λ (k : ℕ). (k, after_size s)) small
