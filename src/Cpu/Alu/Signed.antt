-- ===== src/Cpu/Alu/Signed.antt =====
-- The signed instructions on 32-bit patterns: l.mul, l.sra and l.div.
use simctty.Prelude.{
  ℕ, suc, ◌+◌, ◌-◌, ◌*◌, ◌/◌, ◌%◌, ◌^◌, ◌<◌, ◌≡◌, ◌≢◌, sym, ◌∙◌, ap, arith, Bool, ltb, leb,
  if◌then◌else◌, inl, inr, Bool-cases, ok, fault, ◌⊎◌,
}
use native.Mathlib.Nat.{mul-add, add-mul, div-le_self}
use simctty.Prelude.Int.{
  int32, uint32, uint32-lt, sub_ℕ, pos_part, neg_part, ◌*ℤ◌, shift_right, div_trunc,
}
use simctty.Cpu.Alu.{multiply, shift_right_arithmetic, divide}

-- The pattern of a difference.
uint32-sub_ℕ : (a b : ℕ) → (uint32 (sub_ℕ a b) + b) % 2 ^ 32 ≡ a % 2 ^ 32
unfolding uint32
uint32-sub_ℕ a b = elim (Bool-cases (leb b a)) [
  | inl le ↦ rw le (ground arith)
  | inr gt ↦ rw gt (ground arith)
]

-- The product of two words, from the parts of their values.
product_parts :
    (x y : ℕ)
    → x < 2 ^ 32
    → y < 2 ^ 32
    → let a = int32 x in
      let b = int32 y in
      (x * y + (pos_part a * neg_part b + neg_part a * pos_part b)) % 2 ^ 32
      ≡ (pos_part a * pos_part b + neg_part a * neg_part b) % 2 ^ 32
unfolding int32
product_parts x y h k =
    let x' = 2 ^ 32 - x in
    let y' = 2 ^ 32 - y in
    let e_x : suc (2 ^ 32 - x - 1) ≡ x' = omega arith in
    let e_y : suc (2 ^ 32 - y - 1) ≡ y' = omega arith in
    let right : x * y + x * y' ≡ x * 2 ^ 32 =
      sym (mul-add x y y') ∙ ap (λ n. x * n) (omega arith) in
    let left : x * y + x' * y ≡ 2 ^ 32 * y = sym (add-mul x x' y) ∙ ap (λ n. n * y) (omega arith) in
    let both : x * y' + x' * y' ≡ 2 ^ 32 * y' =
      sym (add-mul x x' y') ∙ ap (λ n. n * y') (omega arith) in
    elim (Bool-cases (ltb x (2 ^ 31))) [
      | inl px ↦ elim (Bool-cases (ltb y (2 ^ 31))) [
        | inl py ↦ rw (px, py) (omega arith)
        | inr ny ↦ rw (px, ny, e_y) (omega (arith, right))
      ]
      | inr nx ↦ elim (Bool-cases (ltb y (2 ^ 31))) [
        | inl py ↦ rw (nx, py, e_x) (omega (arith, left))
        | inr ny ↦ rw (nx, ny, e_x, e_y) (omega (arith, right, both))
      ]
    ]

-- l.sra divides by a power of 2 and rounds down: what is shifted in copies the sign.
pub shift_right_arithmetic_lem :
    (x l : ℕ)
    → x < 2 ^ 32
    → shift_right_arithmetic x l
      ≡ (if ltb x (2 ^ 31) then x / 2 ^ l else 2 ^ 32 - 1 - (2 ^ 32 - 1 - x) / 2 ^ l)
unfolding shift_right_arithmetic int32 uint32 shift_right
shift_right_arithmetic_lem x l h =
    ground (arith, div-le_self x (2 ^ l), div-le_self (2 ^ 32 - 1 - x) (2 ^ l))

-- l.mul on 32-bit words, which multiplies their signed values, gives the product of the words
-- modulo 2 ^ 32.
pub multiply_lem : (x y : ℕ) → x < 2 ^ 32 → y < 2 ^ 32 → multiply x y ≡ x * y % 2 ^ 32
unfolding multiply ◌*ℤ◌
multiply_lem x y h k =
    let a = int32 x in
    let b = int32 y in
    let plus = pos_part a * pos_part b + neg_part a * neg_part b in
    let minus = pos_part a * neg_part b + neg_part a * pos_part b in
    omega (arith, uint32-sub_ℕ plus minus, uint32-lt (sub_ℕ plus minus), product_parts x y h k)

-- The magnitude of a signed word, and the word of a magnitude with a sign.
abbrev pub magnitude : ℕ → ℕ
magnitude x = if ltb x (2 ^ 31) then x else 2 ^ 32 - x

abbrev pub signed_word : Bool → ℕ → ℕ
signed_word positive n = if positive then n else (2 ^ 32 - n) % 2 ^ 32

abbrev pub same_sign : ℕ → ℕ → Bool
same_sign x y = if ltb x (2 ^ 31) then ltb y (2 ^ 31) else leb (2 ^ 31) y

-- l.div on 32-bit words: by 0 it gives 0; -2 ^ 31 by -1 is undefined; and otherwise it divides the
-- magnitudes and gives the quotient the sign of the product.
pub divide_lem :
    (x y : ℕ)
    → x < 2 ^ 32
    → y < 2 ^ 32
    → (y ≡ 0 → divide x y ≡ ok 0)
      × (x ≡ 2 ^ 31 → y ≡ 2 ^ 32 - 1 → divide x y ≡ fault)
      × (y ≢ 0
          → (x ≢ 2 ^ 31) ⊎ (y ≢ 2 ^ 32 - 1)
          → divide x y ≡ ok (signed_word (same_sign x y) (magnitude x / magnitude y)))
unfolding divide int32 uint32 div_trunc
divide_lem x y h k = (
  λ zero. ground arith,
  λ least minus_one. ground arith,
  λ nonzero fine. ground (arith, div-le_self (magnitude x) (magnitude y)),
)
