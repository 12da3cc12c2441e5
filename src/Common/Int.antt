-- ===== src/Common/Int.antt =====
-- `i32` values as integers; the program only compares them.
use Prim.Native.Nat.{ℕ, ◌%◌, ◌-◌}
use mathlib.Core.Bool.{Bool, true, false}
use scalpel.Common.Tests.{leb, ltb, ◌==◌, if◌then◌else◌}

-- `negsuc n` is -(n + 1).
pub data ℤ : Type 0 where
  pos : ℕ → ℤ
  negsuc : ℕ → ℤ

-- `z < 0`, `z == 0` and `y >= z`
abbrev pub is_negative : ℤ → Bool
is_negative (pos n) = false
is_negative (negsuc n) = true

abbrev pub is_zero : ℤ → Bool
is_zero (pos n) = n == 0
is_zero (negsuc n) = false

abbrev pub ge_int : ℤ → ℤ → Bool
ge_int (pos n) (pos m) = leb m n
ge_int (pos n) (negsuc m) = true
ge_int (negsuc n) (pos m) = false
ge_int (negsuc n) (negsuc m) = leb n m

-- `n as i32`: the low 32 bits, read in two's complement.
abbrev pub as_i32 : ℕ → ℤ
as_i32 n =
    let low = n % 4294967296 in if ltb low 2147483648 then pos low else negsuc (4294967295 - low)

-- `n as i64`
abbrev pub as_i64 : ℕ → ℤ
as_i64 n =
    let low = n % 18446744073709551616 in
    if ltb low 9223372036854775808 then pos low else negsuc (18446744073709551615 - low)
