-- ===== src/Isa/Delay.antt =====
-- The delay slot: the instruction after a jump, and the exceptions it raises.
use simctty.Prelude.{
  ℕ, ◌*◌, ◌^◌, ◌<◌, ◌≡◌, ◌∙◌, arith, bit_or, false, u32, add32, update, ok, ◌>>=◌,
}
use simctty.Exception.{Exception, exception_handlers}
use simctty.Cpu.State.{Cpu, Machine, k_dsx}
use simctty.Cpu.Control.{jump, increment_pc, throw_exception}
use simctty.Cpu.Exceptions.{throw_exception-IsEntered}
use simctty.Cpu.Exec.{ran, run_instruction}
use simctty.Isa.Instruction.{ImmediateKind, branch_by, plain, compute_immediate, word, IsEncodable}
use simctty.Isa.Meaning.{execute_on, immediate_value}
use simctty.Isa.Runs.{run_instruction-word}

-- Where a jump by `n` words goes.
abbrev pub target : Cpu → ℕ → ℕ
target c n = add32 c.pc (u32 (n * 4))

jump-word :
    (m : Machine) (n : ℕ)
    → ((r : ℕ) → r < 32 → m.cpu.reg r < 2 ^ 32)
    → IsEncodable (branch_by plain n)
    → run_instruction m (word (branch_by plain n)) ≡ ran m.bus (jump m.cpu (target m.cpu n))
unfolding execute_on
jump-word m n words h = run_instruction-word m (branch_by plain n) words h

-- With general registers and a program counter of 32 bits, and operands that fit their fields:
-- after l.j the next instruction, one with an immediate, still has its effect on the registers,
-- and the processor is then at the target of the jump. Where an exception is raised there instead,
-- its handler is told to resume at the jump, and that it was in a delay slot.
pub delay_slot :
    (m : Machine) (n d a k : ℕ) (kind : ImmediateKind) (e : Exception) (ea : ℕ)
    → ((r : ℕ) → r < 32 → m.cpu.reg r < 2 ^ 32)
    → m.cpu.pc < 2 ^ 32
    → IsEncodable (branch_by plain n)
    → IsEncodable (compute_immediate kind d a k)
    → let jumped = run_instruction m (word (branch_by plain n)) in
      ((jumped >>= λ r. run_instruction r.machine (word (compute_immediate kind d a k)))
        ≡ ran m.bus (record (m.cpu) {
          pc = target m.cpu n;
          delayed_next_pc = target m.cpu n;
          in_delay_slot = false;
          reg = update m.cpu.reg d (immediate_value kind (m.cpu.reg a) k);
        }))
      × ((c' : Cpu) × ((jumped >>= λ r. throw_exception r.machine.cpu e ea) ≡ ok c')
          × (c'.pc ≡ (exception_handlers e).pc)
          × (c'.epcr0 ≡ m.cpu.pc)
          × (c'.esr0 ≡ bit_or m.cpu.sr k_dsx))
unfolding execute_on jump increment_pc
delay_slot m n d a k kind e ea words h p q =
    let c = jump m.cpu (target m.cpu n) in
    let slot =
      run_instruction-word (record { cpu = c; bus = m.bus }) (compute_immediate kind d a k) words
        q in
    let (c', throws, entered) = throw_exception-IsEntered c e ea in
    rw (jump-word m n words p)
      (slot, (c', throws, entered.pc, entered.epcr0 ∙ omega arith, entered.esr0))
