-- ===== src/Base/Bits.antt =====
-- The bit operations of C on numbers that are variables: `&` with a mask of ones is a remainder,
-- and `|` of numbers without a common bit is their sum.
use Prim.Native.Nat.{
  ℕ, zero, suc, ◌+◌, ◌*◌, ◌/◌, ◌%◌, ◌≤◌, ◌<◌, min, max, bit_and, bit_or, digits, bitwise,
  bit_and-bitwise, bit_or-bitwise,
}
use mathlib.Core.Path.{◌≡◌, refl, ap, sym, ◌∙◌}
use native.Mathlib.Omega.{arith}

-- An operation on two numbers digit by digit: `past` is its result once the first number has run
-- out, `both` what it does to two digits.
module _ (past : ℕ → ℕ) (both : ℕ → ℕ → ℕ) where
  -- A count of digits beyond the first number is not used.
  spare :
      (a few many b : ℕ)
      → a ≤ few
      → few ≤ many
      → digits past both many a b ≡ digits past both few a b
  spare zero zero zero b le more = refl
  spare zero zero (suc many) b le more = refl
  spare zero (suc few) zero b le more = absurd (omega arith)
  spare zero (suc few) (suc many) b le more = refl
  spare (suc a) zero many b le more = absurd (omega arith)
  spare (suc a) (suc few) zero b le more = absurd (omega arith)
  spare (suc a) (suc few) (suc many) b le more =
      ap (λ (k : ℕ). k * 2 + both (suc a % 2) (b % 2))
        (spare (suc a / 2) few many (b / 2) (omega arith) (omega arith))

  -- The lowest digit apart from the others.
  lowest :
      (a b : ℕ)
      → past b ≡ past (b / 2) * 2 + both 0 (b % 2)
      → bitwise past both a b ≡ bitwise past both (a / 2) (b / 2) * 2 + both (a % 2) (b % 2)
  lowest zero b ends = ends
  lowest (suc a) b ends =
      ap (λ (k : ℕ). k * 2 + both (suc a % 2) (b % 2))
        (spare (suc a / 2) (suc a / 2) a (b / 2) (omega arith) (omega arith))

or_lowest : (a b : ℕ) → bit_or a b ≡ bit_or (a / 2) (b / 2) * 2 + max (a % 2) (b % 2)
or_lowest a b =
    bit_or-bitwise a b
    ∙ lowest (λ r. r) max a b (ground arith)
    ∙ ap (λ (k : ℕ). k * 2 + max (a % 2) (b % 2)) (sym (bit_or-bitwise (a / 2) (b / 2)))

and_lowest : (a b : ℕ) → bit_and a b ≡ bit_and (a / 2) (b / 2) * 2 + min (a % 2) (b % 2)
and_lowest a b =
    bit_and-bitwise a b
    ∙ lowest (λ r. zero) min a b (ground arith)
    ∙ ap (λ (k : ℕ). k * 2 + min (a % 2) (b % 2)) (sym (bit_and-bitwise (a / 2) (b / 2)))

-- `a | 0` is `a`, and `a & 0` is 0, whatever the count of digits.
or_nothing : (count a : ℕ) → a ≤ count → digits (λ r. r) max count a 0 ≡ a
or_nothing zero a le = omega arith
or_nothing (suc count) zero le = refl
or_nothing (suc count) (suc a) le = omega (arith, or_nothing count (suc a / 2) (omega arith))

and_nothing : (count a : ℕ) → digits (λ r. zero) min count a 0 ≡ 0
and_nothing zero a = refl
and_nothing (suc count) zero = refl
and_nothing (suc count) (suc a) = omega (arith, and_nothing count (suc a / 2))

bit_or-zero : (a : ℕ) → bit_or a 0 ≡ a
bit_or-zero a = bit_or-bitwise a 0 ∙ or_nothing a a (omega arith)

bit_and-zero : (a : ℕ) → bit_and a 0 ≡ 0
bit_and-zero a = bit_and-bitwise a 0 ∙ and_nothing a a

-- `(x << 1) | y` shifts the low bit of `y` in.
or_double : (x y : ℕ) → bit_or (x * 2) y ≡ bit_or x (y / 2) * 2 + y % 2
or_double x y =
    let half : x * 2 / 2 ≡ x = omega arith in
    let rest : bit_or (x * 2 / 2) (y / 2) ≡ bit_or x (y / 2) = ap (λ k. bit_or k (y / 2)) half in
    omega (arith, or_lowest (x * 2) y, rest)

or_double_sum : (x y : ℕ) → bit_or x (y / 2) ≡ x + y / 2 → bit_or (x * 2) y ≡ x * 2 + y
or_double_sum x y h = omega (arith, or_double x y)

pub bit_or_four : (x y : ℕ) → y < 4 → bit_or (x * 4) y ≡ x * 4 + y
bit_or_four x y h =
    let start : bit_or x (y / 2 / 2) ≡ x + y / 2 / 2 = no_bits x (y / 2 / 2) (omega arith) in
    let e : x * 2 * 2 ≡ x * 4 = omega arith in
    rw (← e) (or_double_sum (x * 2) y (or_double_sum x (y / 2) start))
  where
    no_bits : (u v : ℕ) → v ≡ 0 → bit_or u v ≡ u + v
    no_bits u v z = rw z (omega (arith, bit_or-zero u))

pub bit_or_sixteen : (x y : ℕ) → y < 16 → bit_or (x * 16) y ≡ x * 16 + y
bit_or_sixteen x y h =
    let e : x * 4 * 2 * 2 ≡ x * 16 = omega arith in
    let inner = bit_or_four x (y / 2 / 2) (omega arith) in
    rw (← e) (or_double_sum (x * 4 * 2) y (or_double_sum (x * 4) (y / 2) inner))

pub bit_or_sixty_four : (x y : ℕ) → y < 64 → bit_or (x * 64) y ≡ x * 64 + y
bit_or_sixty_four x y h =
    let e : x * 16 * 2 * 2 ≡ x * 64 = omega arith in
    let inner = bit_or_sixteen x (y / 2 / 2) (omega arith) in
    rw (← e) (or_double_sum (x * 16 * 2) y (or_double_sum (x * 16) (y / 2) inner))

and_three : (a : ℕ) → bit_and a 3 ≡ a % 4
and_three a = omega (arith, and_lowest a 3, and_lowest (a / 2) 1, bit_and-zero (a / 2 / 2))

pub bit_and_fifteen : (a : ℕ) → bit_and a 15 ≡ a % 16
bit_and_fifteen a = omega (arith, and_lowest a 15, and_lowest (a / 2) 7, and_three (a / 2 / 2))

pub bit_and_sixty_three : (a : ℕ) → bit_and a 63 ≡ a % 64
bit_and_sixty_three a =
    omega (arith, and_lowest a 63, and_lowest (a / 2) 31, bit_and_fifteen (a / 2 / 2))
