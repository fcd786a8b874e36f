-- ===== src/Base/Int.antt =====
-- C's `int`, as far as the kernel computes with it: an identifier or an error code.
use Prim.Native.Nat.{ℕ, ◌-◌, ◌%◌, ◌^◌}
use mathlib.Core.Bool.{Bool, true, false}
use archarch.Base.Tests.{ltb, ◌==◌, if◌then◌else◌}

-- `negsuc n` is -(n + 1).
pub data ℤ : Type 0 where
  pos : ℕ → ℤ
  negsuc : ℕ → ℤ

-- The -1 that the kernel returns for an error, or keeps for "none".
abbrev pub minus_one : ℤ
minus_one = negsuc 0

abbrev pub is_neg : ℤ → Bool
is_neg (pos n) = false
is_neg (negsuc n) = true

-- `i == n` for an `int` `i` and a number `n` that is not negative.
abbrev pub int_is : ℤ → ℕ → Bool
int_is (pos m) n = m == n
int_is (negsuc m) n = false

-- `(int)x` of a 64-bit register: its low 32 bits, read as two's complement.
abbrev pub int_of_reg : ℕ → ℤ
int_of_reg x = let w = x % 2 ^ 32 in if ltb w (2 ^ 31) then pos w else negsuc (2 ^ 32 - 1 - w)

-- `(uint64_t)i` of an `int`: sign extension.
abbrev pub reg_of_int : ℤ → ℕ
reg_of_int (pos n) = n
reg_of_int (negsuc n) = 2 ^ 64 - 1 - n
