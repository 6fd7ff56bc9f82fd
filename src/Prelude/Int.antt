-- ===== src/Prelude/Int.antt =====
-- Integers over the native numbers, and their order as a test.
use Prim.Native.Nat.{ℕ, ◌+◌, ◌-◌}
use mathlib.Core.Bool.{Bool, true, false}
use linux_hello.Prelude.Tests.{ltb, leb, if◌then◌else◌}

-- `negsuc n` is -(n + 1).
pub data ℤ : Type 0 where
  pos : ℕ → ℤ
  negsuc : ℕ → ℤ

abbrev pub ltb_int : ℤ → ℤ → Bool
ltb_int (pos a) (pos b) = ltb a b
ltb_int (pos a) (negsuc b) = false
ltb_int (negsuc a) (pos b) = true
ltb_int (negsuc a) (negsuc b) = ltb b a

-- An integer and a natural number.
abbrev pub add_nat : ℤ → ℕ → ℤ
add_nat (pos a) n = pos (a + n)
add_nat (negsuc a) n = if leb (a + 1) n then pos (n - (a + 1)) else negsuc (a - n)
