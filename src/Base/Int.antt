-- ===== src/Base/Int.antt =====
-- The signed results of C functions: a count, or a negated errno. `negsuc n` is -(n + 1).
use Prim.Native.Nat.{ℕ, zero, suc, ◌-◌, ◌%◌, ◌^◌}
use mathlib.Core.Bool.{Bool, true, false}
use vtfs.Base.Tests.{ltb, if◌then◌else◌}

pub data ℤ : Type 0 where
  pos : ℕ → ℤ
  negsuc : ℕ → ℤ

abbrev pub neg : ℕ → ℤ
neg zero = pos 0
neg (suc n) = negsuc n

-- `ret < 0`
abbrev pub is_neg : ℤ → Bool
is_neg (pos n) = false
is_neg (negsuc n) = true

-- `!ret`
abbrev pub is_zero : ℤ → Bool
is_zero (pos zero) = true
is_zero (pos (suc n)) = false
is_zero (negsuc n) = false

-- A `size_t` that is returned as an `int`.
abbrev pub int_of : ℕ → ℤ
int_of n = let w = n % 2 ^ 32 in if ltb w (2 ^ 31) then pos w else negsuc (2 ^ 32 - w - 1)

-- The errno values of the kernel's headers that the module returns.
module _ where
  abbrev pub eperm : ℕ
  eperm = 1

  abbrev pub enoent : ℕ
  enoent = 2

  abbrev pub eio : ℕ
  eio = 5

  abbrev pub enomem : ℕ
  enomem = 12

  abbrev pub efault : ℕ
  efault = 14

  abbrev pub ebusy : ℕ
  ebusy = 16

  abbrev pub eexist : ℕ
  eexist = 17

  abbrev pub enotdir : ℕ
  enotdir = 20

  abbrev pub eisdir : ℕ
  eisdir = 21

  abbrev pub einval : ℕ
  einval = 22

  abbrev pub efbig : ℕ
  efbig = 27

  abbrev pub enotempty : ℕ
  enotempty = 39

  abbrev pub econnrefused : ℕ
  econnrefused = 111
