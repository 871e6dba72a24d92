-- ===== src/Isa/Values.antt =====
-- What the register instructions compute fits a register.
use simctty.Prelude.{ℕ, ◌%◌, ◌^◌, ◌<◌, arith, Ensures}
use simctty.Prelude.Bits.{bit_or-lt, bit_xor-lt, bit_and-le}
use native.Mathlib.Nat.{div-le_self}
use simctty.Cpu.Decode.{extend16}
use simctty.Cpu.Alu.Search.{ff1-IsLowest, fl1-IsHighest}
use simctty.Cpu.Alu.Width.{
  extend16-lt, shift_right_arithmetic-lt, multiply-lt, shift_right_logical-le, IsWord,
  divide-IsWord,
}
use simctty.Isa.Instruction.{
  ImmediateKind, add_immediate, and_immediate, or_immediate, xor_immediate, ShiftKind, left, right,
  right_signed, ArithmeticKind, sum, difference, conjunction, disjunction, exclusive, first_one,
  last_one, product, quotient, quotient_unsigned, shifted,
}
use simctty.Isa.Meaning.{shift_value, arithmetic_value, immediate_value}

pub shift_value-lt : (kind : ShiftKind) (x l : ℕ) → x < 2 ^ 32 → shift_value kind x l < 2 ^ 32
shift_value-lt left x l h = omega arith
shift_value-lt right x l h = omega (arith, shift_right_logical-le x l)
shift_value-lt right_signed x l h = shift_right_arithmetic-lt x l

pub immediate_value-lt :
    (kind : ImmediateKind) (x k : ℕ) → x < 2 ^ 32 → k < 2 ^ 16 → immediate_value kind x k < 2 ^ 32
immediate_value-lt add_immediate x k h p = omega arith
immediate_value-lt and_immediate x k h p = omega (arith, bit_and-le k x k)
immediate_value-lt or_immediate x k h p = bit_or-lt 32 x k h (omega arith)
immediate_value-lt xor_immediate x k h p = bit_xor-lt 32 x (extend16 k) h (extend16-lt k)

pub arithmetic_value-IsWord :
    (kind : ArithmeticKind) (x y : ℕ)
    → x < 2 ^ 32
    → y < 2 ^ 32
    → Ensures IsWord (arithmetic_value kind x y)
arithmetic_value-IsWord sum x y h k = omega arith
arithmetic_value-IsWord difference x y h k = omega arith
arithmetic_value-IsWord conjunction x y h k = omega (arith, bit_and-le y x y)
arithmetic_value-IsWord disjunction x y h k = bit_or-lt 32 x y h k
arithmetic_value-IsWord exclusive x y h k = bit_xor-lt 32 x y h k
arithmetic_value-IsWord first_one x y h k = ground (arith, (ff1-IsLowest x h).0)
arithmetic_value-IsWord last_one x y h k = ground (arith, (fl1-IsHighest x h).0)
arithmetic_value-IsWord product x y h k = multiply-lt x y
arithmetic_value-IsWord quotient x y h k = divide-IsWord x y
arithmetic_value-IsWord quotient_unsigned x y h k = ground (arith, div-le_self x y)
arithmetic_value-IsWord (shifted kind) x y h k = shift_value-lt kind x (y % 32) h
