-- ===== src/Prelude/Bits/Flags.antt =====
-- Flag tests and the page masks as arithmetic.
use Prim.Native.Nat.{ℕ, ◌+◌, ◌*◌, ◌/◌, ◌%◌, ◌^◌, ◌<◌, bit_and, bit_or, min, max, zero, suc}
use mathlib.Core.Path.{◌≡◌}
use mathlib.Core.Bool.{◌||◌, true, false}
use native.Mathlib.Omega.{arith}
use native.Mathlib.Nat.{one-le-pow, mul-one, mul-div_cancel, div-div-eq-div-mul}
use simctty.Prelude.Tests.{◌==◌}
use simctty.Prelude.Word.{has}
use simctty.Prelude.Bits.Digits.{bit_and_low, bit_or_low}
use simctty.Prelude.Bits.Masks.{bit_and-zero, bit_and_ones, bit_and_shifted, div-two-pow}

bit_and-one : (x : ℕ) → bit_and x 1 ≡ x % 2
bit_and-one x = omega (arith, bit_and_low x 1, bit_and-zero (x / 2))

bit_and-five : (x : ℕ) → bit_and x 5 ≡ x % 2 + x / 4 % 2 * 4
bit_and-five x = omega (arith, bit_and_low x 5, bit_and_low (x / 2) 2, bit_and-one (x / 2 / 2))

-- A test of bit `k`.
pub has_bit : (x k : ℕ) → has x (1 * 2 ^ k) ≡ (x / 2 ^ k % 2 == 1)
has_bit x k =
    ground (arith, bit_and_shifted k x 1, bit_and-one (x / 2 ^ k), one-le-pow k 2, mul-one (2 ^ k))

-- `&` and `|` digit by digit.
bit_and-digit : (k a b : ℕ) → bit_and a b / 2 ^ k % 2 ≡ min (a / 2 ^ k % 2) (b / 2 ^ k % 2)
bit_and-digit zero a b = omega (arith, bit_and_low a b)
bit_and-digit (suc k) a b =
    rw (div-two-pow, div-two-pow, div-two-pow)
      (ground (arith, bit_and_low a b, bit_and-digit k (a / 2) (b / 2)))

bit_or-digit : (k a b : ℕ) → bit_or a b / 2 ^ k % 2 ≡ max (a / 2 ^ k % 2) (b / 2 ^ k % 2)
bit_or-digit zero a b = omega (arith, bit_or_low a b)
bit_or-digit (suc k) a b =
    rw (div-two-pow, div-two-pow, div-two-pow)
      (ground (arith, bit_or_low a b, bit_or-digit k (a / 2) (b / 2)))

-- A bit that is set or cleared in a word.
pub has-set : (x k : ℕ) → has (bit_or x (1 * 2 ^ k)) (1 * 2 ^ k) ≡ true
has-set x k =
    let place : 1 * 2 ^ k / 2 ^ k ≡ 1 = mul-div_cancel 1 (one-le-pow k 2 (omega arith)) in
    rw has_bit (ground (arith, bit_or-digit k x (1 * 2 ^ k)))

pub has-cleared : (x k m : ℕ) → m / 2 ^ k % 2 ≡ 0 → has (bit_and x m) (1 * 2 ^ k) ≡ false
has-cleared x k m h = rw has_bit (ground (arith, bit_and-digit k x m))

-- A bit that an operation leaves.
pub has-or : (x k m : ℕ) → m / 2 ^ k % 2 ≡ 0 → has (bit_or x m) (1 * 2 ^ k) ≡ has x (1 * 2 ^ k)
has-or x k m h = rw (has_bit, has_bit) (ground (arith, bit_or-digit k x m))

pub has-and : (x k m : ℕ) → m / 2 ^ k % 2 ≡ 1 → has (bit_and x m) (1 * 2 ^ k) ≡ has x (1 * 2 ^ k)
has-and x k m h = rw (has_bit, has_bit) (ground (arith, bit_and-digit k x m))

-- A test of bits `k` and `k + 2`, and of bits `k` and `k + 1`.
pub has_either :
    (x k j : ℕ) → 2 ^ j ≡ 2 ^ k * 4 → has x (5 * 2 ^ k) ≡ (x / 2 ^ k % 2 == 1 || x / 2 ^ j % 2 == 1)
has_either x k j e =
    rw (e, ← div-div-eq-div-mul)
      (ground (arith, bit_and_shifted k x 5, bit_and-five (x / 2 ^ k), one-le-pow k 2))

pub has_pair :
    (x k j : ℕ) → 2 ^ j ≡ 2 ^ k * 2 → has x (3 * 2 ^ k) ≡ (x / 2 ^ k % 2 == 1 || x / 2 ^ j % 2 == 1)
has_pair x k j e =
    rw (e, ← div-div-eq-div-mul)
      (ground (arith, bit_and_shifted k x 3, bit_and_ones 2 (x / 2 ^ k), one-le-pow k 2))

-- The masks of a page of 8192 bytes.
pub page_base : (x : ℕ) → x < 2 ^ 32 → bit_and x 0xffffe000 ≡ x / 8192 * 8192
page_base x h = omega (arith, bit_and_shifted 13 x 0x7ffff, bit_and_ones 19 (x / 8192))

pub page_offset : (x : ℕ) → bit_and x 0x1fff ≡ x % 8192
page_offset x = bit_and_ones 13 x
