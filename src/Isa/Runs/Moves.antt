-- ===== src/Isa/Runs/Moves.antt =====
-- Jumps, l.movhi, l.nop, l.sys, l.trap, l.rfe and the special registers.
use simctty.Prelude.{
  ℕ, ◌*◌, ◌/◌, ◌%◌, ◌^◌, ◌<◌, ◌≡◌, refl, ◌∙◌, arith, inl, inr, bit_and, true, false, u32,
}
use simctty.Prelude.Bits.{bit_and_ones}
use simctty.Cpu.State.{Machine}
use simctty.Cpu.Decode.{opcode, decode_d, decode_b, decode_k, decode_n}
use simctty.Cpu.Decode.Fields.{opcode-eq, decode_d-eq, decode_b-eq, decode_k-eq, decode_n-eq}
use simctty.Cpu.Exec.{
  run_instruction, dispatch, branch, nop, movhi, system, jump_register, move_from_spr, move_to_spr,
}
use simctty.Assembler.Words.{
  type_n, type_exk, type_k, type_dfk, type_x, type_b, type_dai, type_dak, type_abi, type_abk,
}
use simctty.Assembler.Encoding.{
  type_n-sum, type_exk-sum, type_k-sum, type_dfk-sum, type_x-sum, type_b-sum,
}
use simctty.Isa.Instruction.{
  BranchKind, plain, linked, on_clear, on_set, branch_by, no_operation, call_system, IsOffset,
  branch_opcode, stop_here, high_half, leave_handler, jump_to, from_spr, to_spr, word,
}
use simctty.Isa.Meaning.{execute_on}
use simctty.Isa.Runs.Fields.{dispatched, dai_fields, abi_fields}

decode_n-offset : (op n : ℕ) → op < 64 → IsOffset n → decode_n (type_n op n) ≡ u32 (n * 4)
decode_n-offset op n o (inl near) = ground (arith, type_n-sum op n, decode_n-eq (type_n op n))
decode_n-offset op n o (inr (far, word)) =
    ground (arith, type_n-sum op n, decode_n-eq (type_n op n))

opcode-type_n : (op n : ℕ) → op < 64 → opcode (type_n op n) ≡ op
opcode-type_n op n o = rw (opcode-eq, type_n-sum op n o) (omega arith)

pub run-branch_by :
    (m : Machine) (kind : BranchKind) (n : ℕ)
    → IsOffset n
    → run_instruction m (type_n (branch_opcode kind) n) ≡ execute_on m.bus m.cpu (branch_by kind n)
unfolding dispatch branch execute_on
run-branch_by m plain n h =
    dispatched m _ 0 (opcode-type_n 0 n (omega arith)) ∙ rw (decode_n-offset 0 n (omega arith) h)
run-branch_by m linked n h =
    dispatched m _ 1 (opcode-type_n 1 n (omega arith)) ∙ rw (decode_n-offset 1 n (omega arith) h)
run-branch_by m on_clear n h =
    dispatched m _ 3 (opcode-type_n 3 n (omega arith)) ∙ rw (decode_n-offset 3 n (omega arith) h)
run-branch_by m on_set n h =
    dispatched m _ 4 (opcode-type_n 4 n (omega arith)) ∙ rw (decode_n-offset 4 n (omega arith) h)

pub run-no_operation :
    (m : Machine) (k : ℕ)
    → k < 2 ^ 16
    → run_instruction m (type_exk 0x15 k) ≡ execute_on m.bus m.cpu (no_operation k)
unfolding dispatch nop execute_on
run-no_operation m k h =
    let sum = type_exk-sum 0x15 k (omega arith) h in
    let op : opcode (type_exk 0x15 k) ≡ 5 = rw (opcode-eq, sum) (omega arith) in
    let e_k : decode_k (type_exk 0x15 k) ≡ k = rw (decode_k-eq, sum) (omega arith) in
    dispatched m _ 5 op ∙ rw e_k

-- The code of l.sys and l.trap.
system_code : (op k : ℕ) → op < 65536 → k < 2 ^ 16 → bit_and (type_k op k / 65536) 0xffff ≡ op
system_code op k o h = rw (bit_and_ones 16, type_k-sum op k o h) (omega arith)

pub run-call_system :
    (m : Machine) (k : ℕ)
    → k < 2 ^ 16
    → run_instruction m (type_k 0x2000 k) ≡ execute_on m.bus m.cpu (call_system k)
unfolding dispatch system execute_on
run-call_system m k h =
    let op : opcode (type_k 0x2000 k) ≡ 8 =
      rw (opcode-eq, type_k-sum 0x2000 k (omega arith) h) (omega arith) in
    dispatched m _ 8 op ∙ rw (system_code 0x2000 k (omega arith) h)

pub run-stop_here :
    (m : Machine) (k : ℕ)
    → k < 2 ^ 16
    → run_instruction m (type_k 0x2100 k) ≡ execute_on m.bus m.cpu (stop_here k)
unfolding dispatch system execute_on
run-stop_here m k h =
    let op : opcode (type_k 0x2100 k) ≡ 8 =
      rw (opcode-eq, type_k-sum 0x2100 k (omega arith) h) (omega arith) in
    dispatched m _ 8 op ∙ rw (system_code 0x2100 k (omega arith) h)

pub run-high_half :
    (m : Machine) (d k : ℕ)
    → (d < 32) × (k < 2 ^ 16)
    → run_instruction m (type_dfk 0x6 d false k) ≡ execute_on m.bus m.cpu (high_half d k)
unfolding dispatch movhi execute_on
run-high_half m d k (p, q) =
    let sum = type_dfk-sum 0x6 d k (omega arith) p q in
    let op : opcode (type_dfk 0x6 d false k) ≡ 6 = rw (opcode-eq, sum) (omega arith) in
    let e_d : decode_d (type_dfk 0x6 d false k) ≡ d = rw (decode_d-eq, sum) (omega arith) in
    let e_k : decode_k (type_dfk 0x6 d false k) ≡ k = rw (decode_k-eq, sum) (omega arith) in
    let low : k * 65536 % 2 ^ 32 ≡ k * 65536 = omega arith in
    dispatched m _ 6 op ∙ rw (e_d, e_k, low)

pub run-leave_handler :
    (m : Machine) → run_instruction m (type_x 0x9) ≡ execute_on m.bus m.cpu leave_handler
unfolding dispatch execute_on
run-leave_handler m =
    let op : opcode (type_x 0x9) ≡ 9 = rw (opcode-eq, type_x-sum 0x9 (omega arith)) refl in
    dispatched m _ 9 op

pub run-jump_to :
    (m : Machine) (b : ℕ)
    → b < 32
    → (run_instruction m (type_b 0x11 b) ≡ execute_on m.bus m.cpu (jump_to false b))
      × (run_instruction m (type_b 0x12 b) ≡ execute_on m.bus m.cpu (jump_to true b))
unfolding dispatch jump_register execute_on
run-jump_to m b h =
    let jr = type_b-sum 0x11 b (omega arith) h in
    let jalr = type_b-sum 0x12 b (omega arith) h in
    let op_jr : opcode (type_b 0x11 b) ≡ 0x11 = rw (opcode-eq, jr) (omega arith) in
    let op_jalr : opcode (type_b 0x12 b) ≡ 0x12 = rw (opcode-eq, jalr) (omega arith) in
    let b_jr : decode_b (type_b 0x11 b) ≡ b = rw (decode_b-eq, jr) (omega arith) in
    let b_jalr : decode_b (type_b 0x12 b) ≡ b = rw (decode_b-eq, jalr) (omega arith) in
    (dispatched m _ 0x11 op_jr ∙ rw b_jr, dispatched m _ 0x12 op_jalr ∙ rw b_jalr)

pub run-from_spr :
    (m : Machine) (d a k : ℕ)
    → (d < 32) × (a < 32) × (k < 2 ^ 16)
    → run_instruction m (type_dak 0x2d d a k) ≡ execute_on m.bus m.cpu (from_spr d a k)
unfolding dispatch move_from_spr execute_on type_dak type_dai
run-from_spr m d a k h =
    let (op, e_d, e_a, e_k, _) = dai_fields 0x2d d a k (omega arith) h in
    dispatched m (type_dai 0x2d d a k) 0x2d op ∙ rw (e_d, e_a, e_k)

pub run-to_spr :
    (m : Machine) (a b k : ℕ)
    → (a < 32) × (b < 32) × (k < 2 ^ 16)
    → run_instruction m (type_abk 0x30 a b k) ≡ execute_on m.bus m.cpu (to_spr a b k)
unfolding dispatch move_to_spr execute_on type_abk type_abi
run-to_spr m a b k h =
    let (op, e_a, e_b, _, e_k) = abi_fields 0x30 a b k (omega arith) h in
    dispatched m (type_abi 0x30 a b k) 0x30 op ∙ rw (e_a, e_b, e_k)
