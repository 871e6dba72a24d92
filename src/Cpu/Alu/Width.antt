-- ===== src/Cpu/Alu/Width.antt =====
-- What the instructions of simctty/cpu.cc compute, and the fields of their words, in 32 bits.
use simctty.Prelude.{
  ℕ, ◌^◌, ◌≤◌, ◌<◌, ◌≡◌, arith, bit_and, Bool, Bool-cases, inl, inr, false, ◌&&◌, ◌==◌, Option,
  none, some, Ensures, Ensures-of, Returns, Returns-of,
}
use simctty.Prelude.Int.{int32, int16, uint32-lt, div_trunc}
use simctty.Prelude.Bits.{bit_or-lt, bit_xor-lt, bit_and-le}
use mathlib.Core.Path.{subst}
use native.Mathlib.Nat.{div-le_self}
use simctty.Cpu.Decode.{decode_n, extend16}
use simctty.Cpu.Decode.Fields.{decode_n-eq}
use simctty.Cpu.Alu.{
  alu, shift_immediate, shift_right_logical, shift_right_arithmetic, multiply, divide, some_of,
  optional,
}
use simctty.Cpu.Alu.Search.{ff1-IsLowest, fl1-IsHighest}

pub extend16-lt : (i : ℕ) → extend16 i < 2 ^ 32
unfolding extend16
extend16-lt i = uint32-lt (int16 i)

pub decode_n-lt : (w : ℕ) → decode_n w < 2 ^ 32
decode_n-lt w = ground (arith, decode_n-eq w)

pub shift_right_arithmetic-lt : (x l : ℕ) → shift_right_arithmetic x l < 2 ^ 32
unfolding shift_right_arithmetic
shift_right_arithmetic-lt x l = uint32-lt _

pub multiply-lt : (x y : ℕ) → multiply x y < 2 ^ 32
unfolding multiply
multiply-lt x y = uint32-lt _

pub shift_right_logical-le : (x l : ℕ) → shift_right_logical x l ≤ x
shift_right_logical-le x l = div-le_self x (2 ^ l)

abbrev pub OptionalWord : Option ℕ → Type 0
OptionalWord none = Unit {0}
OptionalWord (some v) = v < 2 ^ 32

-- The division that C++ leaves undefined.
pub overflows : ℕ → ℕ → Bool
overflows x y = x == 0x80000000 && y == 0xffffffff

abbrev pub IsWord : ℕ → Type 0
IsWord x = x < 2 ^ 32

pub divide-IsWord : (x y : ℕ) → Ensures IsWord (divide x y)
unfolding divide
divide-IsWord x y =
    Ensures-of IsWord (divide x y) λ q e. ground (arith, uint32-lt (div_trunc (int32 x) (int32 y)))

divide-Returns : (x y : ℕ) → overflows x y ≡ false → Returns OptionalWord (optional (divide x y))
unfolding optional divide overflows
divide-Returns x y e =
    Returns-of OptionalWord (optional (divide x y))
      (ground (arith, uint32-lt (div_trunc (int32 x) (int32 y)))) (ground arith)

pub shift_immediate-OptionalWord : (f x l : ℕ) → x < 2 ^ 32 → OptionalWord (shift_immediate f x l)
unfolding shift_immediate
shift_immediate-OptionalWord f x l h =
    ground (arith, shift_right_arithmetic-lt x l, shift_right_logical-le x l)

-- l.div.
abbrev pub is_division : ℕ → Bool
is_division ff = ff == 0xc9

pub alu-Returns :
    (ff x y : ℕ)
    → x < 2 ^ 32
    → y < 2 ^ 32
    → (is_division ff && overflows x y) ≡ false
    → Returns OptionalWord (alu ff x y)
unfolding alu some_of
alu-Returns ff x y h k e = elim (Bool-cases (is_division ff)) [
  | inl division ↦
      let same : 0xc9 ≡ ff = ground arith in
      subst (λ f. Returns OptionalWord (alu f x y)) same (divide-Returns x y (ground arith))
  | inr other ↦
      Returns-of OptionalWord (alu ff x y)
        (ground (
          arith,
          bit_or-lt 32 x y,
          bit_xor-lt 32 x y,
          bit_and-le y x y,
          (ff1-IsLowest x h).0,
          (fl1-IsHighest x h).0,
          shift_right_logical-le x (bit_and y 0x1f),
          shift_right_arithmetic-lt x (bit_and y 0x1f),
          multiply-lt x y,
          div-le_self x y,
        ))
        (ground arith)
]
