-- ===== src/Prelude/Bits/Fields.antt =====
-- Fields of a word: putting them side by side by `|`, and cutting one out by a shift and a mask.
use Prim.Native.Nat.{
  ℕ, zero, suc, ◌+◌, ◌-◌, ◌*◌, ◌/◌, ◌%◌, ◌^◌, ◌<◌, bit_and, bit_or, bit_or-bitwise,
}
use mathlib.Core.Path.{◌≡◌, ap, ◌∙◌}
use native.Mathlib.Omega.{arith}
use native.Mathlib.Nat.{pow-suc, div-add-mod', div-one, mul-one, mod-one}
use simctty.Prelude.Bits.Digits.{bit_or_low}
use simctty.Prelude.Bits.Masks.{
  mul-two-pow, mod-two-pow, div-two-pow, bit_or-zero, bit_or_fields, bit_and_ones, bit_and_shifted,
}

-- A field below a multiple of `2 ^ k`.
pub or_field : (k x r : ℕ) → x % 2 ^ k ≡ 0 → r < 2 ^ k → bit_or x r ≡ x + r
or_field k x r e h =
    let whole : x / 2 ^ k * 2 ^ k ≡ x = omega (arith, div-add-mod' x (2 ^ k)) in
    rw whole at (bit_or_fields k (x / 2 ^ k) r h)

-- The same, with the low field first.
pub or_high : (k q r : ℕ) → r < 2 ^ k → bit_or r (q * 2 ^ k) ≡ q * 2 ^ k + r
or_high zero q zero h = simp bit_or-bitwise (omega arith)
or_high zero q (suc r) h = absurd (omega arith)
or_high (suc k) q r h =
    ground (arith, bit_or_low r (q * 2 ^ suc k), or_high k q (r / 2), mul-two-pow q k, pow-suc 2 k)

-- `(x & (2 ^ n - 1) << k) >> k`.
pub and_field : (k n x : ℕ) → bit_and x ((2 ^ n - 1) * 2 ^ k) ≡ x / 2 ^ k % 2 ^ n * 2 ^ k
and_field k n x = bit_and_shifted k x (2 ^ n - 1) ∙ ap (λ y. y * 2 ^ k) (bit_and_ones n (x / 2 ^ k))

-- `|` works on the digits above and below a place separately.
pub or_split :
    (k x y : ℕ)
    → bit_or x y ≡ bit_or (x / 2 ^ k) (y / 2 ^ k) * 2 ^ k + bit_or (x % 2 ^ k) (y % 2 ^ k)
or_split zero x y = simp (div-one, mul-one, mod-one) (rw bit_or-zero (omega arith))
or_split (suc k) x y = ground (
  arith,
  bit_or_low x y,
  or_split k (x / 2) (y / 2),
  bit_or_low (x % 2 ^ suc k) (y % 2 ^ suc k),
  mod-two-pow x k,
  mod-two-pow y k,
  div-two-pow x k,
  div-two-pow y k,
  mul-two-pow (bit_or (x / 2 / 2 ^ k) (y / 2 / 2 ^ k)) k,
)
