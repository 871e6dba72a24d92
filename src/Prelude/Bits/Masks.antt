-- ===== src/Prelude/Bits/Masks.antt =====
-- Laws for every width, by induction on the width of the mask.
use Prim.Native.Nat.{
  ℕ, zero, suc, ◌+◌, ◌-◌, ◌*◌, ◌/◌, ◌%◌, ◌^◌, ◌≤◌, ◌<◌, bit_and, bit_or, bit_xor, differ,
}
use mathlib.Core.Path.{◌≡◌, refl, ap}
use native.Mathlib.Nat.{
  pow-suc, pow-succ', one-le-pow, div-div-eq-div-mul, mul-one, div-one, mod-eq-sub-div-mul,
  div-mul-le_self,
}
use native.Mathlib.Omega.{arith}
use simctty.Prelude.Bits.Digits.{bit_and_low, bit_or_low, bit_xor_low}

bit_and-zero_below : (n a : ℕ) → a ≤ n → bit_and a 0 ≡ 0
bit_and-zero_below n zero h = refl
bit_and-zero_below zero (suc a) h = absurd (omega arith)
bit_and-zero_below (suc n) (suc a) h =
    omega (arith, bit_and_low (suc a) 0, bit_and-zero_below n (suc a / 2) (omega arith))

pub bit_and-zero : (a : ℕ) → bit_and a 0 ≡ 0
bit_and-zero a = bit_and-zero_below a a (omega arith)

pub bit_or-zero_below : (n a : ℕ) → a ≤ n → bit_or a 0 ≡ a
bit_or-zero_below n zero h = refl
bit_or-zero_below zero (suc a) h = absurd (omega arith)
bit_or-zero_below (suc n) (suc a) h =
    omega (arith, bit_or_low (suc a) 0, bit_or-zero_below n (suc a / 2) (omega arith))

pub bit_or-zero : (a : ℕ) → bit_or a 0 ≡ a
bit_or-zero a = bit_or-zero_below a a (omega arith)

bit_xor-zero_below : (n a : ℕ) → a ≤ n → bit_xor a 0 ≡ a
bit_xor-zero_below n zero h = refl
bit_xor-zero_below zero (suc a) h = absurd (omega arith)
bit_xor-zero_below (suc n) (suc a) h = ground (
  arith,
  bit_xor_low (suc a) 0,
  bit_xor-zero_below n (suc a / 2) (omega arith),
  differ-zero (suc a % 2),
)
  where
    differ-zero : (x : ℕ) → differ x 0 ≡ x
    differ-zero zero = refl
    differ-zero (suc x) = refl

pub bit_xor-zero : (a : ℕ) → bit_xor a 0 ≡ a
bit_xor-zero a = bit_xor-zero_below a a (omega arith)

-- Digits above a shift move with it.
pub mul-two-pow : (q k : ℕ) → q * 2 ^ suc k ≡ q * 2 ^ k * 2
mul-two-pow q k = omega (arith, ap (λ (t : ℕ). q * t) (pow-suc 2 k))

pub div-two-pow : (a k : ℕ) → a / 2 ^ suc k ≡ a / 2 / 2 ^ k
div-two-pow a k = rw (pow-succ', ← div-div-eq-div-mul)

pub mod-two-pow : (a k : ℕ) → a % 2 ^ suc k ≡ a / 2 % 2 ^ k * 2 + a % 2
mod-two-pow a k =
    rw (mod-eq-sub-div-mul a (2 ^ suc k), div-two-pow, mul-two-pow)
      (omega (arith, mod-eq-sub-div-mul (a / 2) (2 ^ k), div-mul-le_self (a / 2) (2 ^ k)))

-- A mask of `k` ones keeps the low `k` digits.
pub bit_and_ones : (k a : ℕ) → bit_and a (2 ^ k - 1) ≡ a % 2 ^ k
bit_and_ones zero a = omega (arith, bit_and-zero a)
bit_and_ones (suc k) a = ground (
  arith,
  bit_and_low a (2 ^ suc k - 1),
  pow-suc 2 k,
  one-le-pow k 2,
  bit_and_ones k (a / 2),
  mod-two-pow a k,
)

-- A mask with `k` zeros below drops the low `k` digits.
pub bit_and_shifted : (k a m : ℕ) → bit_and a (m * 2 ^ k) ≡ bit_and (a / 2 ^ k) m * 2 ^ k
bit_and_shifted zero a m = simp (mul-one, div-one)
bit_and_shifted (suc k) a m = ground (
  arith,
  bit_and_low a (m * 2 ^ suc k),
  mul-two-pow m k,
  mul-two-pow (bit_and (a / 2 ^ suc k) m) k,
  div-two-pow a k,
  bit_and_shifted k (a / 2) m,
)

-- `|` of disjoint fields is a sum.
pub bit_or_fields : (k q r : ℕ) → r < 2 ^ k → bit_or (q * 2 ^ k) r ≡ q * 2 ^ k + r
bit_or_fields zero q r h = ground (arith, bit_or-zero q)
bit_or_fields (suc k) q r h = ground (
  arith,
  bit_or_low (q * 2 ^ suc k) r,
  mul-two-pow q k,
  bit_or_fields k q (r / 2) (omega (arith, pow-suc 2 k)),
)

-- `&` gives no more than its mask, and no operation leaves the width of its operands.
pub bit_and-le : (n a b : ℕ) → b ≤ n → bit_and a b ≤ b
bit_and-le zero a b h = let e : b ≡ 0 = omega arith in rw (e, bit_and-zero a) (omega arith)
bit_and-le (suc n) a b h =
    omega (arith, bit_and_low a b, bit_and-le n (a / 2) (b / 2) (omega arith))

pub bit_or-lt : (k a b : ℕ) → a < 2 ^ k → b < 2 ^ k → bit_or a b < 2 ^ k
bit_or-lt zero zero zero p q = omega arith
bit_or-lt zero zero (suc b) p q = absurd (omega arith)
bit_or-lt zero (suc a) b p q = absurd (omega arith)
bit_or-lt (suc k) a b p q = omega (
  arith,
  bit_or_low a b,
  pow-suc 2 k,
  bit_or-lt k (a / 2) (b / 2) (omega (arith, pow-suc 2 k)) (omega (arith, pow-suc 2 k)),
)

differ-le_one : (x y : ℕ) → x ≤ 1 → y ≤ 1 → differ x y ≤ 1
differ-le_one zero y p q = q
differ-le_one (suc x) zero p q = p
differ-le_one (suc x) (suc y) p q = ground (arith, differ-le_one x y)

pub bit_xor-lt : (k a b : ℕ) → a < 2 ^ k → b < 2 ^ k → bit_xor a b < 2 ^ k
bit_xor-lt zero zero zero p q = omega arith
bit_xor-lt zero zero (suc b) p q = absurd (omega arith)
bit_xor-lt zero (suc a) b p q = absurd (omega arith)
bit_xor-lt (suc k) a b p q = omega (
  arith,
  bit_xor_low a b,
  differ-le_one (a % 2) (b % 2) (omega arith) (omega arith),
  pow-suc 2 k,
  bit_xor-lt k (a / 2) (b / 2) (omega (arith, pow-suc 2 k)) (omega (arith, pow-suc 2 k)),
)

differ_digit : (x : ℕ) → x < 2 → (differ x 0 ≡ x) × (differ x 1 ≡ 1 - x)
differ_digit zero h = (refl, refl)
differ_digit (suc zero) h = (refl, refl)
differ_digit (suc (suc x)) h = absurd (omega arith)

pub bit_xor_two : (a : ℕ) → bit_xor a 2 ≡ a / 4 * 4 + (a + 2) % 4
bit_xor_two a = ground (
  arith,
  bit_xor_low a 2,
  bit_xor_low (a / 2) 1,
  bit_xor-zero (a / 2 / 2),
  differ_digit (a % 2),
  differ_digit (a / 2 % 2),
)

pub bit_xor_three : (a : ℕ) → bit_xor a 3 ≡ a / 4 * 4 + (3 - a % 4)
bit_xor_three a = ground (
  arith,
  bit_xor_low a 3,
  bit_xor_low (a / 2) 1,
  bit_xor-zero (a / 2 / 2),
  differ_digit (a % 2),
  differ_digit (a / 2 % 2),
)
