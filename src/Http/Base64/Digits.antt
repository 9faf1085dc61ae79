-- ===== src/Http/Base64/Digits.antt =====
-- Digits of base 64, and the three bytes that four of them carry.
use Prim.Native.Nat.{bit_or}
use vtfs.Base.{ℕ, ◌+◌, ◌*◌, ◌/◌, ◌%◌, ◌<◌, ◌≡◌, refl, Bool, true, false, not, ◌&&◌, ◌==◌, arith}
use vtfs.Base.Bits.{bit_and_sixty_three, bit_or_four, bit_or_sixteen, bit_or_sixty_four}
use vtfs.Base.Tables.{passes, passes_lem}
use vtfs.Base.Lists.{get_or}
use vtfs.Http.Base64.{base64_chars, pad, sextet, digit}

-- Each of the 64 characters is read back, and none of them is the padding.
good : ℕ → Bool
unfolding digit
good v = (digit (get_or base64_chars v 0) == v) && not (get_or base64_chars v 0 == pad)

table : passes good 64 ≡ true
unfolding passes good
table = refl

good-digit :
    (v : ℕ)
    → good v ≡ true
    → (digit (get_or base64_chars v 0) ≡ v) × ((get_or base64_chars v 0 == pad) ≡ false)
unfolding good
good-digit v h = ground arith

pub digit-sextet : (v : ℕ) → digit (sextet v) ≡ v % 64
unfolding sextet
digit-sextet v =
    rw (bit_and_sixty_three v)
      (good-digit (v % 64) (passes_lem good 64 (v % 64) (omega arith) table)).0

pub sextet-ne-pad : (v : ℕ) → (sextet v == pad) ≡ false
unfolding sextet
sextet-ne-pad v =
    rw (bit_and_sixty_three v)
      (good-digit (v % 64) (passes_lem good 64 (v % 64) (omega arith) table)).1

module _ (a b c : ℕ) (ha : a < 256) (hb : b < 256) (hc : c < 256) where
  second : digit (sextet (bit_or (a * 16) (b / 16))) ≡ a % 4 * 16 + b / 16
  second = rw (digit-sextet, bit_or_sixteen a (b / 16) (omega arith)) (omega arith)

  third : digit (sextet (bit_or (b * 4) (c / 64))) ≡ b % 16 * 4 + c / 64
  third = rw (digit-sextet, bit_or_four b (c / 64) (omega arith)) (omega arith)

  pub first_byte :
      bit_or (digit (sextet (a / 4)) * 4) (digit (sextet (bit_or (a * 16) (b / 16))) / 16) % 256 ≡ a
  first_byte =
      rw
        (
          digit-sextet (a / 4),
          second,
          bit_or_four (a / 4 % 64) ((a % 4 * 16 + b / 16) / 16) (omega arith),
        )
        (omega arith)

  pub second_byte :
      bit_or
          (digit (sextet (bit_or (a * 16) (b / 16))) * 16)
          (digit (sextet (bit_or (b * 4) (c / 64))) / 4)
        % 256
      ≡ b
  second_byte =
      rw
        (
          second,
          third,
          bit_or_sixteen (a % 4 * 16 + b / 16) ((b % 16 * 4 + c / 64) / 4) (omega arith),
        )
        (omega arith)

  pub third_byte :
      bit_or (digit (sextet (bit_or (b * 4) (c / 64))) * 64) (digit (sextet c)) % 256 ≡ c
  third_byte =
      rw (third, digit-sextet c, bit_or_sixty_four (b % 16 * 4 + c / 64) (c % 64) (omega arith))
        (omega arith)

-- A character that ends no string of C and no string of JSON.
abbrev pub is_text : ℕ → Bool
is_text c = not (c == 0) && not (c == b'"')

text_table : passes (λ v. is_text (get_or base64_chars v 0)) 64 ≡ true
unfolding passes
text_table = refl

pub sextet-is_text : (v : ℕ) → is_text (sextet v) ≡ true
unfolding sextet
sextet-is_text v =
    rw (bit_and_sixty_three v)
      (passes_lem (λ w. is_text (get_or base64_chars w 0)) 64 (v % 64) (omega arith) text_table)
