-- ===== src/Assembler/Encoding.antt =====
-- The instruction formats of simctty/assembler.cc as sums of their fields.
use simctty.Prelude.{ℕ, ◌+◌, ◌*◌, ◌/◌, ◌%◌, ◌^◌, ◌<◌, ◌≡◌, arith, false}
use simctty.Prelude.Bits.{or_field, and_field, bit_and_ones}
use simctty.Assembler.Words.{
  type_n, type_exk, type_dfk, type_k, type_x, type_b, type_dai, type_dak, type_dafl, type_ai,
  type_abk, type_abi, type_dabff, type_ab,
}

pub type_dai-sum :
    (op d a i : ℕ)
    → op < 64
    → d < 32
    → a < 32
    → i < 65536
    → type_dai op d a i ≡ op * 2 ^ 26 + d * 2 ^ 21 + a * 2 ^ 16 + i
unfolding type_dai
type_dai-sum op d a i o p q r = ground (
  arith,
  bit_and_ones 5 d,
  bit_and_ones 5 a,
  or_field 26 (op * 2 ^ 26) (d * 2 ^ 21),
  or_field 21 (op * 2 ^ 26 + d * 2 ^ 21) (a * 2 ^ 16),
  or_field 16 (op * 2 ^ 26 + d * 2 ^ 21 + a * 2 ^ 16) i,
)

pub type_dak-sum :
    (op d a k : ℕ)
    → op < 64
    → d < 32
    → a < 32
    → k < 65536
    → type_dak op d a k ≡ op * 2 ^ 26 + d * 2 ^ 21 + a * 2 ^ 16 + k
unfolding type_dak type_dai
type_dak-sum op d a k o p q r = type_dai-sum op d a k o p q r

pub type_dafl-sum :
    (op d a f l : ℕ)
    → op < 64
    → d < 32
    → a < 32
    → f < 4
    → l < 64
    → type_dafl op d a f l ≡ op * 2 ^ 26 + d * 2 ^ 21 + a * 2 ^ 16 + f * 2 ^ 6 + l
unfolding type_dafl
type_dafl-sum op d a f l o p q r t = ground (
  arith,
  bit_and_ones 5 d,
  bit_and_ones 5 a,
  bit_and_ones 2 f,
  bit_and_ones 6 l,
  or_field 26 (op * 2 ^ 26) (d * 2 ^ 21),
  or_field 21 (op * 2 ^ 26 + d * 2 ^ 21) (a * 2 ^ 16),
  or_field 16 (op * 2 ^ 26 + d * 2 ^ 21 + a * 2 ^ 16) (f * 2 ^ 6),
  or_field 6 (op * 2 ^ 26 + d * 2 ^ 21 + a * 2 ^ 16 + f * 2 ^ 6) l,
)

pub type_dabff-sum :
    (op d a b f1 f2 : ℕ)
    → op < 64
    → d < 32
    → a < 32
    → b < 32
    → f1 < 16
    → f2 < 16
    → type_dabff op d a b f1 f2
      ≡ op * 2 ^ 26 + d * 2 ^ 21 + a * 2 ^ 16 + b * 2 ^ 11 + f1 * 2 ^ 6 + f2
unfolding type_dabff
type_dabff-sum op d a b f1 f2 o p q r t u = ground (
  arith,
  bit_and_ones 5 d,
  bit_and_ones 5 a,
  bit_and_ones 5 b,
  bit_and_ones 4 f1,
  bit_and_ones 4 f2,
  or_field 26 (op * 2 ^ 26) (d * 2 ^ 21),
  or_field 21 (op * 2 ^ 26 + d * 2 ^ 21) (a * 2 ^ 16),
  or_field 16 (op * 2 ^ 26 + d * 2 ^ 21 + a * 2 ^ 16) (b * 2 ^ 11),
  or_field 11 (op * 2 ^ 26 + d * 2 ^ 21 + a * 2 ^ 16 + b * 2 ^ 11) (f1 * 2 ^ 6),
  or_field 6 (op * 2 ^ 26 + d * 2 ^ 21 + a * 2 ^ 16 + b * 2 ^ 11 + f1 * 2 ^ 6) f2,
)

-- The immediate is in two parts, bits 11 to 15 where the other formats have `d`.
pub type_abi-sum :
    (op a b i : ℕ)
    → op < 64
    → a < 32
    → b < 32
    → i < 65536
    → type_abi op a b i ≡ op * 2 ^ 26 + i / 2 ^ 11 * 2 ^ 21 + a * 2 ^ 16 + b * 2 ^ 11 + i % 2 ^ 11
unfolding type_abi
type_abi-sum op a b i o p q r =
    let top = i / 2 ^ 11 in
    ground (
      arith,
      bit_and_ones 5 a,
      bit_and_ones 5 b,
      bit_and_ones 11 i,
      and_field 11 5 i,
      or_field 26 (op * 2 ^ 26) (top * 2 ^ 21),
      or_field 21 (op * 2 ^ 26 + top * 2 ^ 21) (a * 2 ^ 16),
      or_field 16 (op * 2 ^ 26 + top * 2 ^ 21 + a * 2 ^ 16) (b * 2 ^ 11),
      or_field 11 (op * 2 ^ 26 + top * 2 ^ 21 + a * 2 ^ 16 + b * 2 ^ 11) (i % 2 ^ 11),
    )

pub type_abk-sum :
    (op a b k : ℕ)
    → op < 64
    → a < 32
    → b < 32
    → k < 65536
    → type_abk op a b k ≡ op * 2 ^ 26 + k / 2 ^ 11 * 2 ^ 21 + a * 2 ^ 16 + b * 2 ^ 11 + k % 2 ^ 11
unfolding type_abk type_abi
type_abk-sum op a b k o p q r = type_abi-sum op a b k o p q r

-- The opcode of a comparison is 11 bits.
pub type_ai-sum :
    (op a i : ℕ) → op < 2048 → a < 32 → i < 65536 → type_ai op a i ≡ op * 2 ^ 21 + a * 2 ^ 16 + i
unfolding type_ai
type_ai-sum op a i o p q = ground (
  arith,
  bit_and_ones 11 op,
  bit_and_ones 5 a,
  or_field 21 (op * 2 ^ 21) (a * 2 ^ 16),
  or_field 16 (op * 2 ^ 21 + a * 2 ^ 16) i,
)

pub type_ab-sum :
    (op a b : ℕ)
    → op < 2048
    → a < 32
    → b < 32
    → type_ab op a b ≡ op * 2 ^ 21 + a * 2 ^ 16 + b * 2 ^ 11
unfolding type_ab
type_ab-sum op a b o p q = ground (
  arith,
  bit_and_ones 11 op,
  bit_and_ones 5 a,
  bit_and_ones 5 b,
  or_field 21 (op * 2 ^ 21) (a * 2 ^ 16),
  or_field 16 (op * 2 ^ 21 + a * 2 ^ 16) (b * 2 ^ 11),
)

pub type_n-sum : (op n : ℕ) → op < 64 → type_n op n ≡ op * 2 ^ 26 + n % 2 ^ 26
unfolding type_n
type_n-sum op n o = ground (arith, bit_and_ones 26 n, or_field 26 (op * 2 ^ 26) (n % 2 ^ 26))

pub type_exk-sum : (op k : ℕ) → op < 256 → k < 65536 → type_exk op k ≡ op * 2 ^ 24 + k
unfolding type_exk
type_exk-sum op k o p = ground (arith, or_field 24 (op * 2 ^ 24) k)

pub type_k-sum : (op k : ℕ) → op < 65536 → k < 65536 → type_k op k ≡ op * 2 ^ 16 + k
unfolding type_k
type_k-sum op k o p = ground (arith, or_field 16 (op * 2 ^ 16) k)

pub type_dfk-sum :
    (op d k : ℕ)
    → op < 64
    → d < 32
    → k < 65536
    → type_dfk op d false k ≡ op * 2 ^ 26 + d * 2 ^ 21 + k
unfolding type_dfk
type_dfk-sum op d k o p q = ground (
  arith,
  or_field 26 (op * 2 ^ 26) (d * 2 ^ 21),
  or_field 21 (op * 2 ^ 26 + d * 2 ^ 21) 0,
  or_field 21 (op * 2 ^ 26 + d * 2 ^ 21) k,
)

pub type_x-sum : (op : ℕ) → op < 64 → type_x op ≡ op * 2 ^ 26
unfolding type_x
type_x-sum op o = ground arith

pub type_b-sum : (op b : ℕ) → op < 64 → b < 32 → type_b op b ≡ op * 2 ^ 26 + b * 2 ^ 11
unfolding type_b
type_b-sum op b o p = ground (arith, bit_and_ones 5 b, or_field 26 (op * 2 ^ 26) (b * 2 ^ 11))
