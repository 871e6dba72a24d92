-- ===== src/Isa/Runs/Values.antt =====
-- Immediates, shifts and arithmetic.
use simctty.Prelude.{ℕ, ◌+◌, ◌*◌, ◌^◌, ◌<◌, ◌≡◌, refl, ◌∙◌, arith, Result, ok, exited, fault, ◌>>=◌}
use simctty.Prelude.Bits.{bit_and_ones}
use simctty.Cpu.State.{Machine}
use simctty.Cpu.Exec.{run_instruction, dispatch, immediate, shift, arithmetic, put, put_or_illegal}
use simctty.Assembler.Words.{type_dai, type_dafl, type_dabff}
use simctty.Isa.Instruction.{
  ImmediateKind, add_immediate, and_immediate, or_immediate, xor_immediate, ShiftKind, left, right,
  right_signed, compute_immediate, shift_by, immediate_opcode, shift_code, ArithmeticKind, sum,
  difference, conjunction, disjunction, exclusive, first_one, last_one, product, quotient,
  quotient_unsigned, shifted, compute, function_high, function_low,
}
use simctty.Cpu.Alu.{alu, divide, optional, shift_immediate}
use simctty.Isa.Meaning.{execute_on}
use simctty.Isa.Runs.Fields.{dispatched, dai_fields, dafl_fields, dabff_fields}

pub run-compute_immediate :
    (m : Machine) (kind : ImmediateKind) (d a k : ℕ)
    → (d < 32) × (a < 32) × (k < 2 ^ 16)
    → run_instruction m (type_dai (immediate_opcode kind) d a k)
      ≡ execute_on m.bus m.cpu (compute_immediate kind d a k)
unfolding dispatch immediate execute_on
run-compute_immediate m add_immediate d a k h =
    let (op, e_d, e_a, e_k, _) = dai_fields 0x27 d a k (omega arith) h in
    dispatched m _ 0x27 op ∙ rw (e_d, e_a, e_k)
run-compute_immediate m and_immediate d a k h =
    let (op, e_d, e_a, e_k, _) = dai_fields 0x29 d a k (omega arith) h in
    dispatched m _ 0x29 op ∙ rw (e_d, e_a, e_k)
run-compute_immediate m or_immediate d a k h =
    let (op, e_d, e_a, e_k, _) = dai_fields 0x2a d a k (omega arith) h in
    dispatched m _ 0x2a op ∙ rw (e_d, e_a, e_k)
run-compute_immediate m xor_immediate d a k h =
    let (op, e_d, e_a, e_k, _) = dai_fields 0x2b d a k (omega arith) h in
    dispatched m _ 0x2b op ∙ rw (e_d, e_a, e_k)

pub run-shift_by :
    (m : Machine) (kind : ShiftKind) (d a l : ℕ)
    → (d < 32) × (a < 32) × (l < 32)
    → run_instruction m (type_dafl 0x2e d a (shift_code kind) l)
      ≡ execute_on m.bus m.cpu (shift_by kind d a l)
unfolding dispatch shift execute_on shift_immediate
run-shift_by m left d a l h =
    let (op, e_d, e_a, e_f, e_l) = dafl_fields 0x2e d a 0 l (omega arith) (omega arith) h in
    dispatched m _ 0x2e op ∙ rw (e_d, e_a, e_f, e_l)
run-shift_by m right d a l h =
    let (op, e_d, e_a, e_f, e_l) = dafl_fields 0x2e d a 1 l (omega arith) (omega arith) h in
    dispatched m _ 0x2e op ∙ rw (e_d, e_a, e_f, e_l)
run-shift_by m right_signed d a l h =
    let (op, e_d, e_a, e_f, e_l) = dafl_fields 0x2e d a 2 l (omega arith) (omega arith) h in
    dispatched m _ 0x2e op ∙ rw (e_d, e_a, e_f, e_l)

-- The switch on the function field of an instruction on registers.
run-function :
    (m : Machine) (f1 f2 d a b : ℕ)
    → f1 < 16
    → f2 < 16
    → (d < 32) × (a < 32) × (b < 32)
    → run_instruction m (type_dabff 0x38 d a b f1 f2)
      ≡ (alu (f1 * 16 + f2) (m.cpu.reg a) (m.cpu.reg b) >>= put_or_illegal m.bus m.cpu d)
unfolding dispatch arithmetic put_or_illegal
run-function m f1 f2 d a b o p h =
    let (op, e_d, e_a, e_b, e_ff) = dabff_fields 0x38 d a b f1 f2 (omega arith) o p h in
    dispatched m _ 0x38 op ∙ rw (e_d, e_a, e_b, e_ff)

-- A quotient is written, where there is one.
put-optional :
    (m : Machine) (d : ℕ) (r : Result ℕ)
    → (optional r >>= put_or_illegal m.bus m.cpu d) ≡ (r >>= put m.bus m.cpu d)
unfolding optional put_or_illegal
put-optional m d (ok v) = refl
put-optional m d exited = refl
put-optional m d fault = refl

pub run-compute :
    (m : Machine) (kind : ArithmeticKind) (d a b : ℕ)
    → (d < 32) × (a < 32) × (b < 32)
    → run_instruction m (type_dabff 0x38 d a b (function_high kind) (function_low kind))
      ≡ execute_on m.bus m.cpu (compute kind d a b)
unfolding alu execute_on put_or_illegal
run-compute m sum d a b h = run-function m 0 0 d a b (omega arith) (omega arith) h
run-compute m difference d a b h = run-function m 0 2 d a b (omega arith) (omega arith) h
run-compute m conjunction d a b h = run-function m 0 3 d a b (omega arith) (omega arith) h
run-compute m disjunction d a b h = run-function m 0 4 d a b (omega arith) (omega arith) h
run-compute m exclusive d a b h = run-function m 0 5 d a b (omega arith) (omega arith) h
run-compute m first_one d a b h = run-function m 0 15 d a b (omega arith) (omega arith) h
run-compute m last_one d a b h = run-function m 4 15 d a b (omega arith) (omega arith) h
run-compute m product d a b h = run-function m 12 6 d a b (omega arith) (omega arith) h
run-compute m quotient d a b h =
    run-function m 12 9 d a b (omega arith) (omega arith) h
    ∙ put-optional m d (divide (m.cpu.reg a) (m.cpu.reg b))
run-compute m quotient_unsigned d a b h = run-function m 12 10 d a b (omega arith) (omega arith) h
run-compute m (shifted left) d a b h =
    run-function m 0 8 d a b (omega arith) (omega arith) h ∙ rw (bit_and_ones 5 (m.cpu.reg b))
run-compute m (shifted right) d a b h =
    run-function m 1 8 d a b (omega arith) (omega arith) h ∙ rw (bit_and_ones 5 (m.cpu.reg b))
run-compute m (shifted right_signed) d a b h =
    run-function m 2 8 d a b (omega arith) (omega arith) h ∙ rw (bit_and_ones 5 (m.cpu.reg b))
