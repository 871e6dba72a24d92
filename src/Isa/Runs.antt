-- ===== src/Isa/Runs.antt =====
-- `RunInstruction` of simctty/cpu.cc on the words that simctty/assembler.cc makes, one lemma per
-- group of instructions.
mod Fields
mod Moves
mod Accesses
mod Values
mod Flags
use simctty.Prelude.{ℕ, ◌^◌, ◌<◌, ◌≡◌, true, false}
use simctty.Cpu.State.{Machine}
use simctty.Cpu.Exec.{run_instruction}
use simctty.Assembler.Words.{type_dak, type_dai}
use simctty.Isa.Instruction.{
  Instruction, branch_by, no_operation, call_system, stop_here, high_half, leave_handler, jump_to,
  load_from, store_to, compute_immediate, shift_by, from_spr, to_spr, flag_immediate,
  flag_registers, compute, IsEncodable, word,
}
use simctty.Isa.Meaning.{execute_on}
use simctty.Isa.Runs.Moves.{
  run-branch_by, run-no_operation, run-call_system, run-stop_here, run-high_half, run-leave_handler,
  run-jump_to, run-from_spr, run-to_spr,
}
use simctty.Isa.Runs.Accesses.{run-load_from, run-store_to}
use simctty.Isa.Runs.Values.{run-compute_immediate, run-shift_by, run-compute}
use simctty.Isa.Runs.Flags.{run-flag_registers, run-flag_immediate}

-- For every instruction of the assembler whose operands fit their fields, and general registers of
-- 32 bits: RunInstruction on its word has the effect that the instruction is described to have on
-- its operands.
pub run_instruction-word :
    (m : Machine) (i : Instruction)
    → ((r : ℕ) → r < 32 → m.cpu.reg r < 2 ^ 32)
    → IsEncodable i
    → run_instruction m (word i) ≡ execute_on m.bus m.cpu i
run_instruction-word m (branch_by kind n) words h = run-branch_by m kind n h
run_instruction-word m (no_operation k) words h = run-no_operation m k h
run_instruction-word m (call_system k) words h = run-call_system m k h
run_instruction-word m (stop_here k) words h = run-stop_here m k h
run_instruction-word m (high_half d k) words h = run-high_half m d k h
run_instruction-word m leave_handler words h = run-leave_handler m
run_instruction-word m (jump_to false b) words h = (run-jump_to m b h).0
run_instruction-word m (jump_to true b) words h = (run-jump_to m b h).1
run_instruction-word m (load_from kind d a i) words h = run-load_from m kind d a i h
run_instruction-word m (store_to kind a b i) words h = run-store_to m kind a b i h
run_instruction-word m (compute_immediate kind d a k) words h = run-compute_immediate m kind d a k h
run_instruction-word m (shift_by kind d a l) words h = run-shift_by m kind d a l h
run_instruction-word m (from_spr d a k) words h = run-from_spr m d a k h
run_instruction-word m (to_spr a b k) words h = run-to_spr m a b k h
run_instruction-word m (flag_immediate t a i) words h = run-flag_immediate m t a i (words a h.0) h
run_instruction-word m (flag_registers t a b) words h =
    run-flag_registers m t a b (words a h.0) (words b h.1) h
run_instruction-word m (compute kind d a b) words h = run-compute m kind d a b h
