-- ===== src/Isa/Simulation.antt =====
-- Every instruction, as simctty/cpu.cc runs it, does what the reference says.
use simctty.Prelude.{ℕ, ◌*◌, ◌^◌, ◌==◌, arith, false, Ensures}
use simctty.Bus.{Bus}
use simctty.Mmu.Physical.{IsOff}
use simctty.Cpu.State.{Cpu}
use simctty.Cpu.Decode.{extend16}
use simctty.Isa.Instruction.{
  Instruction, IsEncodable, branch_by, no_operation, call_system, stop_here, high_half,
  leave_handler, jump_to, load_from, store_to, compute_immediate, shift_by, from_spr, to_spr,
  flag_immediate, flag_registers, compute,
}
use simctty.Isa.Meaning.{compares, arithmetic_value, execute_on}
use simctty.Isa.Reference.{
  View, after_jump, perform, is_access, load_width, store_width, address_of,
}
use simctty.Isa.Shows.{Shows}
use simctty.Isa.Values.{shift_value-lt, immediate_value-lt, arithmetic_value-IsWord}
use simctty.Isa.Performs.{
  Performs, Ensures-unless, write-Performs, advance-Performs, flag-Performs, branch-Performs,
  jump_to-Performs, idle-Performs, computed-Performs,
}
use simctty.Isa.Accesses.{load-Performs, store-Performs, send-Performs, Ensures-where}

module _ (b : Bus) (c : Cpu) (v : View) (floor : ℕ) (off : IsOff c.dmmu) (s : Shows b c v) where
  -- The effect of an instruction is that of the reference, wherever the reference has one.
  pub perform-Performs :
      (i : Instruction)
      → IsEncodable i
      → Ensures (Performs b c v floor (execute_on b c i)) (perform floor v i)
  unfolding execute_on perform
  perform-Performs (branch_by kind n) h =
      Ensures-unless _ (after_jump v) _ (branch-Performs b c v floor off s kind n)
  perform-Performs (no_operation k) h = idle-Performs b c v floor off s (k == 1)
  perform-Performs (call_system k) h = tt
  perform-Performs (stop_here k) h = advance-Performs b c v floor off s false
  perform-Performs (high_half d k) h = write-Performs b c v floor off s d (k * 2 ^ 16) (omega arith)
  perform-Performs leave_handler h = tt
  perform-Performs (jump_to with_link r) h =
      Ensures-unless _ (after_jump v) _ (jump_to-Performs b c v floor off s with_link r h)
  perform-Performs (load_from kind d a i) (p, q, l) =
      Ensures-where _ (is_access (load_width kind) 0 (address_of v a i)) _ _
        (load-Performs b c v floor off s kind d a i q) tt
  perform-Performs (store_to kind a r i) (p, q, l) =
      Ensures-where _ (is_access (store_width kind) floor (address_of v a i)) _ _
        (store-Performs b c v floor off s kind a r i p q)
        (send-Performs b c v floor off s kind a r i p q)
  perform-Performs (compute_immediate kind d a k) (p, q, l) =
      rw (s.regs a q)
        (write-Performs b c v floor off s d _ (immediate_value-lt kind (v.reg a) k (s.words a q) l))
  perform-Performs (shift_by kind d a l) (p, q, k) =
      rw (s.regs a q)
        (write-Performs b c v floor off s d _ (shift_value-lt kind (v.reg a) l (s.words a q)))
  perform-Performs (from_spr d a k) h = tt
  perform-Performs (to_spr a r k) h = tt
  perform-Performs (flag_immediate t a i) (p, q) =
      rw (s.regs a p) (flag-Performs b c v floor off s (compares t (v.reg a) (extend16 i)))
  perform-Performs (flag_registers t a r) (p, q) =
      rw (s.regs a p, s.regs r q) (flag-Performs b c v floor off s (compares t (v.reg a) (v.reg r)))
  perform-Performs (compute kind d a r) (p, q, l) =
      rw (s.regs a q, s.regs r l)
        (computed-Performs b c v floor off s d (arithmetic_value kind (v.reg a) (v.reg r))
          (arithmetic_value-IsWord kind (v.reg a) (v.reg r) (s.words a q) (s.words r l)))
