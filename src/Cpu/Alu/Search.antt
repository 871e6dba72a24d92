-- ===== src/Cpu/Alu/Search.antt =====
-- The loops of l.ff1 and l.fl1 in simctty/cpu.cc, which look for the lowest and the highest bit
-- that is set.
use simctty.Prelude.{
  ℕ, zero, suc, ◌+◌, ◌-◌, ◌*◌, ◌/◌, ◌%◌, ◌^◌, ◌≤◌, ◌<◌, ◌≡◌, ◌≢◌, ◌↔◌, ap, ◌∙◌, sym, refl, arith,
  has, inl, inr, Bool-cases,
}
use native.Mathlib.Nat.{pow-suc, one-le-pow}
use native.Mathlib.Nat.{
  div-lt_iff_lt-mul, add-zero, mod-eq_of_lt, div-add-mod, mul-mod_right, mul_assoc, add-sub_cancel,
}
use mathlib.Core.Path.{subst}
use native.Mathlib.Numerals.{add-one}
use simctty.Prelude.Bits.{has_bit}
use simctty.Cpu.Alu.{ff1, ff1_loop, fl1, fl1_loop}

-- Bit `k` of x.
abbrev pub bit_of : ℕ → ℕ → ℕ
bit_of x k = x / 2 ^ k % 2

-- With the upper half of a range ruled out, a number is in the lower half.
lower_half : (x p : ℕ) → 0 < p → x < 2 * p → x / p % 2 ≢ 1 → x < p
lower_half x p p_pos h e =
    let q : x / p < 2 = (div-lt_iff_lt-mul p_pos).1 h in
    let q0 : x / p < 1 = ground (arith) in
    (let r : x < 1 * p = (div-lt_iff_lt-mul p_pos).0 q0 in omega arith)

fl1_loop-IsHighest :
    (i x : ℕ)
    → x < 2 ^ i
    → (fl1_loop i x ≤ i)
      × (x < 2 ^ fl1_loop i x)
      × (fl1_loop i x ≢ 0 → bit_of x (fl1_loop i x - 1) ≡ 1)
unfolding fl1_loop
fl1_loop-IsHighest zero x h = (omega arith, h, λ ne. absurd (ne refl))
fl1_loop-IsHighest (suc i) x h = elim (Bool-cases (has x (1 * 2 ^ i))) [
  | inl set ↦
      (let bit : bit_of x i ≡ 1 = ground (arith, has_bit x i) in
        rw set (omega arith, rw add-one h, λ _. rw (add-sub_cancel i 1) bit))
  | inr clear ↦
      (let below : x < 2 ^ i =
          lower_half x (2 ^ i) (one-le-pow i 2 (omega arith)) (ground (arith, pow-suc 2 i))
            (ground (arith, has_bit x i)) in
        let (place, bound, is_set) = fl1_loop-IsHighest i x below in
        rw clear (omega arith, bound, is_set))
]

fl1-found :
    (x : ℕ) → x < 2 ^ 32 → (fl1 x ≤ 32) × (x < 2 ^ fl1 x) × (fl1 x ≢ 0 → bit_of x (fl1 x - 1) ≡ 1)
unfolding fl1
fl1-found x h = fl1_loop-IsHighest 32 x h

fl1-zero : fl1 0 ≡ 0
unfolding fl1
fl1-zero = refl

below_one : (x : ℕ) → x < 2 ^ 0 → x ≡ 0
below_one x h = omega arith

-- On a 32-bit word l.fl1 gives at most 32, and 0 exactly for 0; otherwise one more than the place
-- of the highest bit that is set: that bit is 1 and the bits above it are 0.
pub fl1-IsHighest :
    (x : ℕ)
    → x < 2 ^ 32
    → (fl1 x ≤ 32) × (fl1 x ≡ 0 ↔ x ≡ 0) × (x < 2 ^ fl1 x) × (fl1 x ≢ 0 → bit_of x (fl1 x - 1) ≡ 1)
fl1-IsHighest x h =
    let (place, bound, is_set) = fl1-found x h in
    (
      place,
      (λ z. below_one x (subst (λ r. x < 2 ^ r) z bound), λ z. ap fl1 z ∙ fl1-zero),
      bound,
      is_set,
    )

-- One more low bit that is clear.
clear_below : (x i : ℕ) → x % 2 ^ i ≡ 0 → bit_of x i ≢ 1 → x % 2 ^ (i + 1) ≡ 0
clear_below x i h e =
    let whole : x ≡ 2 ^ i * (x / 2 ^ i) = omega (arith, div-add-mod x (2 ^ i)) in
    let even : x / 2 ^ i ≡ 2 * (x / 2 ^ i / 2) = omega arith in
    let twice : 2 ^ (i + 1) * (x / 2 ^ i / 2) ≡ x =
      rw (add-one, pow-suc, mul_assoc, ← even) (sym whole) in
    subst (λ y. y % 2 ^ (i + 1) ≡ 0) twice (mul-mod_right (2 ^ (i + 1)) (x / 2 ^ i / 2))

ff1_loop-IsLowest :
    (n i x : ℕ)
    → x % 2 ^ i ≡ 0
    → (ff1_loop n i x ≤ i + n)
      × (ff1_loop n i x ≡ 0 → x % 2 ^ (i + n) ≡ 0)
      × (ff1_loop n i x ≢ 0 → x % 2 ^ (ff1_loop n i x - 1) ≡ 0)
      × (ff1_loop n i x ≢ 0 → bit_of x (ff1_loop n i x - 1) ≡ 1)
unfolding ff1_loop
ff1_loop-IsLowest zero i x h =
    (omega arith, λ _. rw add-zero h, λ ne. absurd (ne refl), λ ne. absurd (ne refl))
ff1_loop-IsLowest (suc n) i x h = elim (Bool-cases (has x (1 * 2 ^ i))) [
  | inl set ↦
      (let bit : bit_of x i ≡ 1 = ground (arith, has_bit x i) in
        rw set (
          omega arith,
          λ z. absurd (omega arith),
          λ _. rw (add-sub_cancel i 1) h,
          λ _. rw (add-sub_cancel i 1) bit,
        ))
  | inr clear ↦
      (let below : x % 2 ^ (i + 1) ≡ 0 = clear_below x i h (ground (arith, has_bit x i)) in
        let (place, none_set, lowest, is_set) = ff1_loop-IsLowest n (i + 1) x below in
        rw clear (
          omega arith,
          subst (λ k. ff1_loop n (i + 1) x ≡ 0 → x % 2 ^ k ≡ 0) (omega arith) none_set,
          lowest,
          is_set,
        ))
]

ff1-found :
    (x : ℕ)
    → (ff1 x ≤ 32)
      × (ff1 x ≡ 0 → x % 2 ^ 32 ≡ 0)
      × (ff1 x ≢ 0 → x % 2 ^ (ff1 x - 1) ≡ 0)
      × (ff1 x ≢ 0 → bit_of x (ff1 x - 1) ≡ 1)
unfolding ff1
ff1-found x =
    let (place, none_set, lowest, is_set) = ff1_loop-IsLowest 32 0 x (omega arith) in
    (place, none_set, lowest, is_set)

ff1-zero : ff1 0 ≡ 0
unfolding ff1
ff1-zero = refl

-- On a 32-bit word l.ff1 gives at most 32, and 0 exactly for 0; otherwise one more than the place
-- of the lowest bit that is set: that bit is 1 and the bits below it are 0.
pub ff1-IsLowest :
    (x : ℕ)
    → x < 2 ^ 32
    → (ff1 x ≤ 32)
      × (ff1 x ≡ 0 ↔ x ≡ 0)
      × (ff1 x ≢ 0 → x % 2 ^ (ff1 x - 1) ≡ 0)
      × (ff1 x ≢ 0 → bit_of x (ff1 x - 1) ≡ 1)
ff1-IsLowest x h =
    let (place, none_set, lowest, is_set) = ff1-found x in
    (place, (λ z. rw (mod-eq_of_lt h) at (none_set z), λ z. ap ff1 z ∙ ff1-zero), lowest, is_set)

-- On a 32-bit word l.ff1 and l.fl1 give at most 32, and 0 exactly for 0; otherwise one more than
-- the place of a bit that is set, for l.ff1 the lowest, below which all bits are 0, and for l.fl1
-- the highest, above which all bits are 0.
pub find-IsExtreme :
    (x : ℕ)
    → x < 2 ^ 32
    → ((ff1 x ≤ 32)
        × (ff1 x ≡ 0 ↔ x ≡ 0)
        × (ff1 x ≢ 0 → x % 2 ^ (ff1 x - 1) ≡ 0)
        × (ff1 x ≢ 0 → bit_of x (ff1 x - 1) ≡ 1))
      × ((fl1 x ≤ 32)
          × (fl1 x ≡ 0 ↔ x ≡ 0)
          × (x < 2 ^ fl1 x)
          × (fl1 x ≢ 0 → bit_of x (fl1 x - 1) ≡ 1))
find-IsExtreme x h = (ff1-IsLowest x h, fl1-IsHighest x h)
