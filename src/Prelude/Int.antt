-- ===== src/Prelude/Int.antt =====
-- Signed integers over the native numbers, and the int32 that a 32-bit pattern stands for.
use Prim.Native.Nat.{ℕ, suc, ◌+◌, ◌-◌, ◌*◌, ◌/◌, ◌%◌, ◌^◌, ◌<◌}
use mathlib.Core.Path.{◌≡◌}
use mathlib.Core.Bool.{Bool}
use native.Mathlib.Omega.{arith}
use simctty.Prelude.Tests.{ltb, leb, ◌==◌, if◌then◌else◌}

-- `negsuc n` is -(n + 1).
pub data ℤ : Type 0 where
  pos : ℕ → ℤ
  negsuc : ℕ → ℤ

abbrev pub pos_part : ℤ → ℕ
pos_part (pos n) = n
pos_part (negsuc n) = 0

abbrev pub neg_part : ℤ → ℕ
neg_part (pos n) = 0
neg_part (negsuc n) = suc n

-- a - b, as an integer.
abbrev pub sub_ℕ : ℕ → ℕ → ℤ
sub_ℕ a b = if leb b a then pos (a - b) else negsuc (b - a - 1)

infixl 70 ◌*ℤ◌
unfoldable pub ◌*ℤ◌ : ℤ → ℤ → ℤ
a *ℤ b =
    sub_ℕ (pos_part a * pos_part b + neg_part a * neg_part b)
      (pos_part a * neg_part b + neg_part a * pos_part b)

-- C++ division rounds towards 0.
unfoldable pub div_trunc : ℤ → ℤ → ℤ
div_trunc (pos a) (pos b) = pos (a / b)
div_trunc (pos a) (negsuc b) = sub_ℕ 0 (a / suc b)
div_trunc (negsuc a) (pos b) = sub_ℕ 0 (suc a / b)
div_trunc (negsuc a) (negsuc b) = pos (suc a / suc b)

-- `x >> k` of a signed value keeps the sign: it rounds down.
unfoldable pub shift_right : ℤ → ℕ → ℤ
shift_right (pos n) k = pos (n / 2 ^ k)
shift_right (negsuc n) k = negsuc (n / 2 ^ k)

abbrev pub ltb_ℤ : ℤ → ℤ → Bool
ltb_ℤ a b = ltb (pos_part a + neg_part b) (pos_part b + neg_part a)

abbrev pub leb_ℤ : ℤ → ℤ → Bool
leb_ℤ a b = leb (pos_part a + neg_part b) (pos_part b + neg_part a)

abbrev pub eqb_ℤ : ℤ → ℤ → Bool
eqb_ℤ a b = pos_part a + neg_part b == pos_part b + neg_part a

-- `static_cast<int32>(w)`, `int16` and `int8` of a pattern, and the pattern of an integer.
unfoldable pub int32 : ℕ → ℤ
int32 w = if ltb w (2 ^ 31) then pos w else negsuc (2 ^ 32 - w - 1)

unfoldable pub int16 : ℕ → ℤ
int16 w = if ltb w (2 ^ 15) then pos w else negsuc (2 ^ 16 - w - 1)

abbrev pub int8 : ℕ → ℤ
int8 w = if ltb w (2 ^ 7) then pos w else negsuc (2 ^ 8 - w - 1)

-- `static_cast<uint32>(z)`: z modulo 2 ^ 32.
unfoldable pub uint32 : ℤ → ℕ
uint32 (pos n) = n % 2 ^ 32
uint32 (negsuc n) = 2 ^ 32 - 1 - n % 2 ^ 32

pub uint32-lt : (z : ℤ) → uint32 z < 2 ^ 32
unfolding uint32
uint32-lt (pos n) = omega arith
uint32-lt (negsuc n) = omega arith

pub uint32-int32 : (w : ℕ) → w < 2 ^ 32 → uint32 (int32 w) ≡ w
unfolding uint32 int32
uint32-int32 w h = ground arith
