-- ===== src/Base/Strings.antt =====
-- Strings of C as lists of bytes, without the closing NUL: the string functions of the kernel.
use Prim.Native.Char.{code}
use Prim.Native.String.{String}
use Prim.Native.Nat.{ℕ, zero, suc, ◌-◌, ◌≤◌}
use mathlib.Core.Path.{◌≡◌, refl, ap, sym, ◌∙◌}
use mathlib.Core.Bool.{Bool, true, false, ◌&&◌}
use mathlib.Core.List.{List, [], ◌∷◌, ◌++◌}
use native.Mathlib.Omega.{arith}
use vtfs.Base.Tests.{◌==◌}
use vtfs.Base.Lists.{length, take, length-take, take_all}

abbrev pub Bytes : Type 0
Bytes = List ℕ

-- The bytes of an ASCII literal.
abbrev pub codes : String → Bytes
codes String.[] = []
codes (String.◌∷◌ c s) = code c ∷ codes s

-- `strcmp(a, b) == 0`
unfoldable pub str_eq : Bytes → Bytes → Bool
str_eq [] [] = true
str_eq [] (b ∷ t) = false
str_eq (a ∷ s) [] = false
str_eq (a ∷ s) (b ∷ t) = (a == b) && str_eq s t

pub str_eq_refl : (s : Bytes) → str_eq s s ≡ true
unfolding str_eq
str_eq_refl [] = refl
str_eq_refl (a ∷ s) = ground (arith, str_eq_refl s)

pub str_eq→eq : (s t : Bytes) → str_eq s t ≡ true → s ≡ t
unfolding str_eq
str_eq→eq [] [] h = refl
str_eq→eq [] (b ∷ t) h = cc
str_eq→eq (a ∷ s) [] h = cc
str_eq→eq (a ∷ s) (b ∷ t) h = ground (arith, str_eq→eq s t)

-- `strlcat(dst, src, size)`: at most `size - 1` bytes and the NUL.
unfoldable pub strlcat : Bytes → Bytes → ℕ → Bytes
strlcat dst src size = dst ++ take (size - 1 - length dst) src

-- What `snprintf` leaves of a text in a buffer of `size` bytes; `strncpy` of a text that is shorter
-- than the buffer leaves the same.
unfoldable pub clip : ℕ → Bytes → Bytes
clip size s = take (size - 1) s

pub length-clip : (size : ℕ) (s : Bytes) → length (clip size s) ≤ size - 1
unfolding clip
length-clip size s = omega (arith, length-take (size - 1) s)

take_at : (m n : ℕ) (t : Bytes) → m ≡ n → take m t ≡ take n t
take_at m n t h = ap (λ k. take k t) h

take-append : (n : ℕ) (s t : Bytes) → take n (s ++ t) ≡ take n s ++ take (n - length s) t
take-append zero s t = take_at 0 (0 - length s) t (omega arith)
take-append (suc n) [] t = take_at (suc n) (suc n - 0) t (omega arith)
take-append (suc n) (c ∷ s) t =
    ap (λ r. c ∷ r)
      (take-append n s t
        ∙ ap (λ r. take n s ++ r) (take_at (n - length s) (suc n - suc (length s)) t (omega arith)))

-- Appending to a clipped text clips the whole.
pub strlcat-clip : (size : ℕ) (s t : Bytes) → strlcat (clip size s) t size ≡ clip size (s ++ t)
unfolding strlcat clip
strlcat-clip size s t =
    let n = size - 1 in
    ap (λ r. take n s ++ r)
      (take_at (n - length (take n s)) (n - length s) t (omega (arith, length-take {0} n s)))
    ∙ sym (take-append n s t)

pub clip_all : (size : ℕ) (s : Bytes) → length s ≤ size - 1 → clip size s ≡ s
unfolding clip
clip_all size s h = take_all (size - 1) s h
