-- ===== src/Base/Int.antt =====
-- Signed integers over the native numbers, and the `int` of C: 32 bits, two's complement.
use Prim.Native.Nat.{ℕ, suc, ◌+◌, ◌-◌, ◌%◌, ◌^◌, ◌≤◌, ◌<◌}
use mathlib.Core.Path.{◌≡◌}
use mathlib.Core.Bool.{Bool}
use native.Mathlib.Omega.{arith}
use system_device_programmin.Base.Tests.{ltb, leb, if◌then◌else◌}

-- `negsuc n` is -(n + 1).
pub data ℤ : Type 0 where
  pos : ℕ → ℤ
  negsuc : ℕ → ℤ

abbrev pub pos_part : ℤ → ℕ
pos_part (pos n) = n
pos_part (negsuc n) = 0

abbrev pub neg_part : ℤ → ℕ
neg_part (pos n) = 0
neg_part (negsuc n) = suc n

-- a - b, as an integer.
abbrev pub sub_ℕ : ℕ → ℕ → ℤ
sub_ℕ a b = if leb b a then pos (a - b) else negsuc (b - a - 1)

infixl 65 ◌+ℤ◌ ◌-ℤ◌
infix 50 ◌≤ℤ◌ ◌<ℤ◌
abbrev pub ◌+ℤ◌ : ℤ → ℤ → ℤ
a +ℤ b = sub_ℕ (pos_part a + pos_part b) (neg_part a + neg_part b)

abbrev pub ◌-ℤ◌ : ℤ → ℤ → ℤ
a -ℤ b = sub_ℕ (pos_part a + neg_part b) (neg_part a + pos_part b)

abbrev pub ◌≤ℤ◌ : ℤ → ℤ → Type 0
a ≤ℤ b = pos_part a + neg_part b ≤ pos_part b + neg_part a

abbrev pub ◌<ℤ◌ : ℤ → ℤ → Type 0
a <ℤ b = pos_part a + neg_part b < pos_part b + neg_part a

abbrev pub ltb_ℤ : ℤ → ℤ → Bool
ltb_ℤ a b = ltb (pos_part a + neg_part b) (pos_part b + neg_part a)

-- The value of a 32-bit pattern, and the pattern of a value.
abbrev pub signed32 : ℕ → ℤ
signed32 w = if ltb w (2 ^ 31) then pos w else negsuc (2 ^ 32 - w - 1)

abbrev pub unsigned32 : ℤ → ℕ
unsigned32 (pos n) = n % 2 ^ 32
unsigned32 (negsuc n) = 2 ^ 32 - 1 - n % 2 ^ 32

-- What an `int` operation stores: the true result modulo 2 ^ 32.
unfoldable pub int : ℤ → ℤ
int z = signed32 (unsigned32 z)

abbrev pub IsInt : ℤ → Type 0
IsInt z = (neg_part z ≤ 2 ^ 31) × (pos_part z < 2 ^ 31)

-- In range nothing wraps.
pub int_of_IsInt : (z : ℤ) → IsInt z → int z ≡ z
unfolding int
int_of_IsInt (pos n) h = ground arith
int_of_IsInt (negsuc n) h = ground arith

pub int-IsInt : (z : ℤ) → IsInt (int z)
unfolding int
int-IsInt (pos n) = ground arith
int-IsInt (negsuc n) = ground arith

-- What is stored in a `short`.
unfoldable pub short : ℤ → ℤ
short z = let w = unsigned32 z % 2 ^ 16 in if ltb w (2 ^ 15) then pos w else negsuc (2 ^ 16 - w - 1)
