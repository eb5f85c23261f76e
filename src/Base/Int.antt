-- ===== src/Base/Int.antt =====
-- Signed integers over the native numbers: Go's `int`, `int32` and `int64` values, with the
-- wrap-around of a 64-bit product written out.
use Prim.Native.Nat.{ℕ, suc, ◌+◌, ◌-◌, ◌*◌, ◌%◌, ◌^◌}
use mathlib.Core.Bool.{Bool, true, false}
use opensandbox_aks_governan.Base.Tests.{ltb, leb, if◌then◌else◌}

-- `negsuc n` is -(n + 1).
pub data ℤ : Type 0 where
  pos : ℕ → ℤ
  negsuc : ℕ → ℤ

abbrev pub lt_int : ℤ → ℤ → Bool
lt_int (pos a) (pos b) = ltb a b
lt_int (pos a) (negsuc b) = false
lt_int (negsuc a) (pos b) = true
lt_int (negsuc a) (negsuc b) = ltb b a

abbrev pub le_int : ℤ → ℤ → Bool
le_int (pos a) (pos b) = leb a b
le_int (pos a) (negsuc b) = false
le_int (negsuc a) (pos b) = true
le_int (negsuc a) (negsuc b) = leb b a

-- The signed 64-bit integer with these low 64 bits.
abbrev pub of_bits64 : ℕ → ℤ
of_bits64 r = if ltb r (2 ^ 63) then pos r else negsuc (2 ^ 64 - 1 - r)

-- The product of an int64 by a positive constant, wrapped around to 64 bits.
unfoldable pub times64 : ℤ → ℕ → ℤ
times64 (pos n) k = of_bits64 ((n * k) % 2 ^ 64)
times64 (negsuc n) k = of_bits64 ((2 ^ 64 - (suc n * k) % 2 ^ 64) % 2 ^ 64)

-- An atomic 64-bit counter, one higher.
abbrev pub count64 : ℕ → ℕ
count64 n = (n + 1) % 2 ^ 64
