-- ===== src/Cpu/Control.antt =====
-- How the processor moves on: `ThrowException`, `IncrementPC`, `Jump`, the compare flag, and
-- `CheckInterrupts`.
use simctty.Prelude.{
  ℕ, bit_or, bit_and, Bool, true, false, ◌&&◌, not, ◌==◌, if◌then◌else◌, has, add32, sub32, not32,
  Result, ok, ◌>>=◌,
}
use simctty.Exception.{Exception, external_interrupt, exception_handlers}
use simctty.Bus.{interrupts}
use simctty.Cpu.State.{Cpu, Machine, set_sup_reg, k_sm, k_iee, k_f, k_dsx, k_fo}

-- The supervision register is saved; an exception in a delay slot goes back to the branch.
unfoldable pub save_sr : Cpu → Cpu
save_sr c =
    if c.in_delay_slot
    then record c { esr0 = bit_or c.sr k_dsx; pc = sub32 c.pc 4; in_delay_slot = false }
    else record c { esr0 = c.sr }

unfoldable pub enter_handler : Cpu → Exception → ℕ → Cpu
enter_handler c exception effective_address = record c {
  epcr0 = c.pc;
  pc = (exception_handlers exception).pc;
  eear0 = if (exception_handlers exception).sets_eear then effective_address else c.eear0;
}

unfoldable pub throw_exception : Cpu → Exception → ℕ → Result Cpu
unfolding save_sr enter_handler
throw_exception c exception effective_address = do
  s ← set_sup_reg (save_sr c) (bit_or k_fo k_sm)
  ok (enter_handler s exception effective_address)

unfoldable pub increment_pc : Cpu → Cpu
increment_pc c = record c {
  pc = if c.in_delay_slot then c.delayed_next_pc else add32 c.pc 4;
  in_delay_slot = false;
}

unfoldable pub jump : Cpu → ℕ → Cpu
jump c next_pc = record c { delayed_next_pc = next_pc; pc = add32 c.pc 4; in_delay_slot = true }

abbrev pub set_compare_flag : Cpu → Bool → Cpu
set_compare_flag c flag = record c {
  sr = if flag then bit_or c.sr k_f else bit_and c.sr (not32 k_f);
}

abbrev is_flag_set : Cpu → Bool
is_flag_set c = has c.sr k_f

-- The lines of the controller are sampled: a change of them sets or clears the pending interrupt.
unfoldable pub sample_lines : Cpu → ℕ → Cpu
sample_lines c new_picsr =
    if new_picsr == c.picsr
    then c
    else record c { picsr = new_picsr; pending_interrupt = not (new_picsr == 0) }

unfoldable pub check_interrupts : Machine → Result Machine
unfolding sample_lines
check_interrupts m =
    let c = sample_lines m.cpu (interrupts m.bus) in
    if has c.sr k_iee && c.pending_interrupt && has c.picsr c.picmr
    then (do
      t ← throw_exception c external_interrupt 0
      ok (record m { cpu = record t { pending_interrupt = false } }))
    else ok (record m { cpu = c })
