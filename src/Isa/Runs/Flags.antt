-- ===== src/Isa/Runs/Flags.antt =====
-- The comparisons: on 32-bit patterns they are those of the numbers, signed or not.
use simctty.Prelude.{ℕ, ◌+◌, ◌/◌, ◌^◌, ◌<◌, ◌≡◌, refl, ◌∙◌, arith, some}
use simctty.Cpu.State.{Machine}
use simctty.Cpu.Decode.{extend16}
use simctty.Cpu.Exec.{run_instruction, dispatch, set_flag, set_flag_immediate, flag_or_illegal}
use simctty.Assembler.Words.{type_ai, type_ab}
use simctty.Isa.Instruction.{
  above, at_least, below, at_most, Comparison, equal, not_equal, unsigned, signed, comparison_code,
  flag_immediate, flag_registers,
}
use simctty.Cpu.Alu.{compare_immediate, compare_registers}
use simctty.Prelude.Int.{int32, int16, uint32}
use simctty.Isa.Width.{comparison_code-lt}
use simctty.Isa.Meaning.{execute_on, compares}
use simctty.Isa.Runs.Fields.{dispatched, ai_fields, ab_fields}

pub compare_registers-compares :
    (t : Comparison) (x y : ℕ)
    → x < 2 ^ 32
    → y < 2 ^ 32
    → compare_registers (0x720 + comparison_code t) x y ≡ some (compares t x y)
unfolding compare_registers int32
compare_registers-compares equal x y p q = refl
compare_registers-compares not_equal x y p q = refl
compare_registers-compares (unsigned above) x y p q = refl
compare_registers-compares (unsigned at_least) x y p q = refl
compare_registers-compares (unsigned below) x y p q = refl
compare_registers-compares (unsigned at_most) x y p q = refl
compare_registers-compares (signed above) x y p q = ground arith
compare_registers-compares (signed at_least) x y p q = ground arith
compare_registers-compares (signed below) x y p q = ground arith
compare_registers-compares (signed at_most) x y p q = ground arith

pub compare_immediate-compares :
    (t : Comparison) (x i : ℕ)
    → x < 2 ^ 32
    → i < 2 ^ 16
    → compare_immediate (0x5e0 + comparison_code t) x i ≡ some (compares t x (extend16 i))
unfolding compare_immediate int32 extend16 int16 uint32
compare_immediate-compares equal x i p q = ground arith
compare_immediate-compares not_equal x i p q = ground arith
compare_immediate-compares (unsigned above) x i p q = ground arith
compare_immediate-compares (unsigned at_least) x i p q = ground arith
compare_immediate-compares (unsigned below) x i p q = ground arith
compare_immediate-compares (unsigned at_most) x i p q = ground arith
compare_immediate-compares (signed above) x i p q = ground arith
compare_immediate-compares (signed at_least) x i p q = ground arith
compare_immediate-compares (signed below) x i p q = ground arith
compare_immediate-compares (signed at_most) x i p q = ground arith

pub run-flag_registers :
    (m : Machine) (t : Comparison) (a b : ℕ)
    → m.cpu.reg a < 2 ^ 32
    → m.cpu.reg b < 2 ^ 32
    → (a < 32) × (b < 32)
    → run_instruction m (type_ab (0x720 + comparison_code t) a b)
      ≡ execute_on m.bus m.cpu (flag_registers t a b)
unfolding dispatch set_flag flag_or_illegal execute_on
run-flag_registers m t a b p q h =
    let small = comparison_code-lt t in
    let (op, code, e_a, e_b) = ab_fields (0x720 + comparison_code t) a b (omega arith) h in
    let group : (0x720 + comparison_code t) / 32 ≡ 0x39 = omega arith in
    let result = compare_registers-compares t (m.cpu.reg a) (m.cpu.reg b) p q in
    dispatched m _ 0x39 (op ∙ group) ∙ rw (code, e_a, e_b, result)

pub run-flag_immediate :
    (m : Machine) (t : Comparison) (a i : ℕ)
    → m.cpu.reg a < 2 ^ 32
    → (a < 32) × (i < 2 ^ 16)
    → run_instruction m (type_ai (0x5e0 + comparison_code t) a i)
      ≡ execute_on m.bus m.cpu (flag_immediate t a i)
unfolding dispatch set_flag_immediate flag_or_illegal execute_on
run-flag_immediate m t a i p h =
    let small = comparison_code-lt t in
    let (op, code, e_a, e_i) = ai_fields (0x5e0 + comparison_code t) a i (omega arith) h in
    let group : (0x5e0 + comparison_code t) / 32 ≡ 0x2f = omega arith in
    let result = compare_immediate-compares t (m.cpu.reg a) i p h.1 in
    dispatched m _ 0x2f (op ∙ group) ∙ rw (code, e_a, e_i, result)
