-- ===== src/Cpu/Alu.antt =====
-- What the arithmetic and compare instructions of simctty/cpu.cc compute, on 32-bit patterns.
pub mod Search
pub mod Signed
pub mod Width
use simctty.Prelude.{
  ℕ, zero, suc, ◌+◌, ◌/◌, ◌<<<◌, ◌>>>◌, bit_or, bit_and, bit_xor, Bool, Option, none, some, ◌&&◌,
  not, ltb, leb, ◌==◌, if◌then◌else◌, has, u32, add32, sub32, Result, ok, exited, fault,
}
use simctty.Prelude.Int.{int32, int16, uint32, shift_right, div_trunc, ◌*ℤ◌, ltb_ℤ, leb_ℤ, eqb_ℤ}
use simctty.Cpu.Decode.{extend16}

-- `x << l`, `x >> l` and `static_cast<int32>(x) >> l`.
abbrev pub shift_left_logical : ℕ → ℕ → ℕ
shift_left_logical x l = u32 (x <<< l)

abbrev pub shift_right_logical : ℕ → ℕ → ℕ
shift_right_logical x l = x >>> l

pub shift_right_arithmetic : ℕ → ℕ → ℕ
shift_right_arithmetic x l = uint32 (shift_right (int32 x) l)

-- The loop of l.ff1 from bit `i` on, with `n` rounds left.
pub ff1_loop : ℕ → ℕ → ℕ → ℕ
ff1_loop zero i x = 0
ff1_loop (suc n) i x = let rest = ff1_loop n (i + 1) x in if has x (1 <<< i) then i + 1 else rest

pub ff1 : ℕ → ℕ
unfolding ff1_loop
ff1 x = ff1_loop 32 0 x

-- The loop of l.fl1 from bit `i - 1` down.
pub fl1_loop : ℕ → ℕ → ℕ
fl1_loop zero x = 0
fl1_loop (suc i) x = let rest = fl1_loop i x in if has x (1 <<< i) then i + 1 else rest

pub fl1 : ℕ → ℕ
unfolding fl1_loop
fl1 x = fl1_loop 32 x

-- The product wraps as in two's complement.
pub multiply : ℕ → ℕ → ℕ
multiply x y = uint32 (int32 x *ℤ int32 y)

-- -2 ^ 31 / -1 overflows, which is undefined.
pub divide : ℕ → ℕ → Result ℕ
divide x y =
    if y == 0
    then ok 0
    else if x == 0x80000000 && y == 0xffffffff
    then fault
    else ok (uint32 (div_trunc (int32 x) (int32 y)))

abbrev pub divide_unsigned : ℕ → ℕ → ℕ
divide_unsigned x y = if y == 0 then 0 else x / y

some_of : ℕ → Result (Option ℕ)
some_of v = ok (some v)

unfoldable pub optional : Result ℕ → Result (Option ℕ)
optional (ok v) = ok (some v)
optional exited = exited
optional fault = fault

-- Opcode 0x38 by its function field. `none` is an illegal instruction.
unfoldable pub alu : ℕ → ℕ → ℕ → Result (Option ℕ)
unfolding some_of optional
alu ff x y =
    if ff == 0x00
    then some_of (add32 x y)
    else if ff == 0x02
    then some_of (sub32 x y)
    else if ff == 0x03
    then some_of (bit_and x y)
    else if ff == 0x04
    then some_of (bit_or x y)
    else if ff == 0x05
    then some_of (bit_xor x y)
    else if ff == 0x08
    then some_of (shift_left_logical x (bit_and y 0x1f))
    else if ff == 0x0f
    then some_of (ff1 x)
    else if ff == 0x18
    then some_of (shift_right_logical x (bit_and y 0x1f))
    else if ff == 0x28
    then some_of (shift_right_arithmetic x (bit_and y 0x1f))
    else if ff == 0x4f
    then some_of (fl1 x)
    else if ff == 0xc6
    then some_of (multiply x y)
    else if ff == 0xc9
    then optional (divide x y)
    else if ff == 0xca
    then some_of (divide_unsigned x y)
    else ok none

-- Opcode 0x2e by its field `f`.
unfoldable pub shift_immediate : ℕ → ℕ → ℕ → Option ℕ
shift_immediate f x l =
    if f == 0
    then some (shift_left_logical x l)
    else if f == 1
    then some (shift_right_logical x l)
    else if f == 2
    then some (shift_right_arithmetic x l)
    else none

-- Opcode 0x2f: a register against an int16.
unfoldable pub compare_immediate : ℕ → ℕ → ℕ → Option Bool
compare_immediate opcode11 x i =
    if opcode11 == 0x5e0
    then some (eqb_ℤ (int32 x) (int16 i))
    else if opcode11 == 0x5e1
    then some (not (eqb_ℤ (int32 x) (int16 i)))
    else if opcode11 == 0x5e2
    then some (ltb (extend16 i) x)
    else if opcode11 == 0x5e3
    then some (leb (extend16 i) x)
    else if opcode11 == 0x5e4
    then some (ltb x (extend16 i))
    else if opcode11 == 0x5e5
    then some (leb x (extend16 i))
    else if opcode11 == 0x5ea
    then some (ltb_ℤ (int16 i) (int32 x))
    else if opcode11 == 0x5eb
    then some (leb_ℤ (int16 i) (int32 x))
    else if opcode11 == 0x5ec
    then some (ltb_ℤ (int32 x) (int16 i))
    else if opcode11 == 0x5ed
    then some (leb_ℤ (int32 x) (int16 i))
    else none

-- Opcode 0x39: two registers.
unfoldable pub compare_registers : ℕ → ℕ → ℕ → Option Bool
compare_registers opcode11 x y =
    if opcode11 == 0x720
    then some (x == y)
    else if opcode11 == 0x721
    then some (not (x == y))
    else if opcode11 == 0x722
    then some (ltb y x)
    else if opcode11 == 0x723
    then some (leb y x)
    else if opcode11 == 0x724
    then some (ltb x y)
    else if opcode11 == 0x725
    then some (leb x y)
    else if opcode11 == 0x72a
    then some (ltb_ℤ (int32 y) (int32 x))
    else if opcode11 == 0x72b
    then some (leb_ℤ (int32 y) (int32 x))
    else if opcode11 == 0x72c
    then some (ltb_ℤ (int32 x) (int32 y))
    else if opcode11 == 0x72d
    then some (leb_ℤ (int32 x) (int32 y))
    else none
