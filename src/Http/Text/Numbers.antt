-- ===== src/Http/Text/Numbers.antt =====
-- Numbers that are printed and read.
use vtfs.Base.{
  ℕ, zero, suc, ◌+◌, ◌*◌, ◌/◌, ◌%◌, ◌≤◌, ◌<◌, ◌≡◌, refl, sym, ap, ◌∙◌, true, false, none, some, [],
  ◌∷◌, ◌++◌, append_assoc, append-nil, ltb, arith, Bool-cases, inl, inr,
}
use vtfs.Base.Int.{pos}
use vtfs.Base.Lists.{length, length-append}
use vtfs.Base.Strings.{Bytes}
use vtfs.Http.Text.{digit_value, scan, ends, kstrto, digits, print}

-- A decimal or octal digit is read as itself.
scan_digit :
    (base d acc : ℕ) (rest : Bytes)
    → base ≤ 10
    → d < base
    → scan base ((b'0' + d) ∷ rest) acc ≡ scan base rest (acc * base + d)
unfolding scan
scan_digit base d acc rest le lt =
    let value : digit_value (b'0' + d) ≡ d = ground arith in
    let low : ltb d base ≡ true = ground arith in rw value (rw low)

pub digits_one : (base fuel n : ℕ) → ltb n base ≡ true → digits base (suc fuel) n ≡ (b'0' + n) ∷ []
unfolding digits
digits_one base fuel n h = ground arith

pub digits_more :
    (base fuel n : ℕ)
    → ltb n base ≡ false
    → digits base (suc fuel) n ≡ digits base fuel (n / base) ++ (b'0' + n % base) ∷ []
unfolding digits
digits_more base fuel n h = ground arith

pub scan-digits :
    (fuel n : ℕ) (rest : Bytes) → n < fuel → scan 10 (digits 10 fuel n ++ rest) 0 ≡ scan 10 rest n
scan-digits zero n rest lt = absurd (omega arith)
scan-digits (suc fuel) n rest lt = elim (Bool-cases (ltb n 10)) [
  | inl one ↦ rw (digits_one 10 fuel n one) (
      scan_digit 10 n 0 rest (omega arith) (ground arith)
      ∙ ap (λ (k : ℕ). scan 10 rest k) (omega arith))
  | inr more ↦ rw (digits_more 10 fuel n more) (
      ap (λ (l : Bytes). scan 10 l 0)
        (append_assoc (digits 10 fuel (n / 10)) ((b'0' + n % 10) ∷ []) rest)
      ∙ scan-digits fuel (n / 10) ((b'0' + n % 10) ∷ rest) (ground arith)
      ∙ scan_digit 10 (n % 10) (n / 10) rest (omega arith) (omega arith)
      ∙ ap (λ (k : ℕ). scan 10 rest k) (omega arith))
]

-- The first digit of a number is no sign, and there is one.
pub digits_head :
    (fuel n : ℕ)
    → n < fuel
    → (d : ℕ) × (ds : Bytes) × (digits 10 fuel n ≡ d ∷ ds) × (b'0' ≤ d) × (d ≤ b'9')
digits_head zero n lt = absurd (omega arith)
digits_head (suc fuel) n lt = elim (Bool-cases (ltb n 10)) [
  | inl one ↦ (b'0' + n, [], digits_one 10 fuel n one, omega arith, ground arith)
  | inr more ↦
      let (d, ds, e, lo, hi) = digits_head fuel (n / 10) (ground arith) in
      (
        d,
        ds ++ (b'0' + n % 10) ∷ [],
        digits_more 10 fuel n more ∙ ap (λ (l : Bytes). l ++ (b'0' + n % 10) ∷ []) e,
        lo,
        hi,
      )
]

-- `kstrtoint` and `kstrtoll` read a printed number of their type.
pub kstrto-print : (greatest n : ℕ) → n ≤ greatest → kstrto greatest (print 10 n) ≡ some (pos n)
unfolding kstrto
kstrto-print greatest n le =
    let (d, ds, e, lo, hi) = digits_head (suc n) n (omega arith) in
    let read : scan 10 (d ∷ ds) 0 ≡ (n, []) =
      ap (λ (l : Bytes). scan 10 l 0)
        (sym (append-nil (d ∷ ds)) ∙ ap (λ (l : Bytes). l ++ []) (sym e))
      ∙ scan-digits (suc n) n [] (omega arith) in
    rw e (ground (arith, read))

kstrto_refused :
    (greatest d k : ℕ) (s rest : Bytes)
    → b'0' ≤ d
    → d ≤ b'9'
    → scan 10 (d ∷ s) 0 ≡ (k, rest)
    → ends rest ≡ false
    → kstrto greatest (d ∷ s) ≡ none
unfolding kstrto
kstrto_refused greatest d k s rest lo hi read bad = ground arith

slash_ends : (path : Bytes) → ends (b'/' ∷ path) ≡ false
slash_ends [] = refl
slash_ends (c ∷ path) = refl

scan_slash : (n : ℕ) (path : Bytes) → scan 10 (b'/' ∷ path) n ≡ (n, b'/' ∷ path)
unfolding scan
scan_slash n path = refl

-- A number with a slash behind it is refused.
pub kstrto-slash :
    (greatest n : ℕ) (path : Bytes) → kstrto greatest (print 10 n ++ b'/' ∷ path) ≡ none
kstrto-slash greatest n path =
    let (d, ds, e, lo, hi) = digits_head (suc n) n (omega arith) in
    let tail = b'/' ∷ path in
    let whole : print 10 n ++ tail ≡ d ∷ ds ++ tail = ap (λ (l : Bytes). l ++ tail) e in
    let read : scan 10 (d ∷ ds ++ tail) 0 ≡ (n, tail) =
      ap (λ (l : Bytes). scan 10 l 0) (sym whole)
      ∙ scan-digits (suc n) n tail (omega arith)
      ∙ scan_slash n path in
    ap (kstrto greatest) whole
    ∙ kstrto_refused greatest d n (ds ++ tail) tail lo hi read (slash_ends path)

-- The numbers of so many digits.
abbrev pub power_of_ten : ℕ → ℕ
power_of_ten zero = 1
power_of_ten (suc k) = power_of_ten k * 10

pub length-digits : (k fuel n : ℕ) → n < power_of_ten (suc k) → length (digits 10 fuel n) ≤ suc k
length-digits k zero n lt = unfold digits in omega arith
length-digits zero (suc fuel) n lt = rw (digits_one 10 fuel n (ground arith)) (omega arith)
length-digits (suc k) (suc fuel) n lt = elim (Bool-cases (ltb n 10)) [
  | inl one ↦ rw (digits_one 10 fuel n one) (omega arith)
  | inr more ↦ rw (digits_more 10 fuel n more) (
      omega (
        arith,
        length-append {0} (digits 10 fuel (n / 10)) ((b'0' + n % 10) ∷ []),
        length-digits k fuel (n / 10) (omega arith),
      ))
]
