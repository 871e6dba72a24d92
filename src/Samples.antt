-- ===== src/Samples.antt =====
-- Concrete states for the tests: an empty bus, an MMU with one entry, a processor.
use simctty.Prelude.{ℕ, true, false, update}
use simctty.Bus.{Bus, new_bus}
use simctty.Mmu.{Mmu, data_mmu, instruction_mmu}
use simctty.Cpu.State.{Cpu, Machine}

abbrev pub no_regs : ℕ → ℕ
no_regs i = 0

abbrev pub zero_bus : Bus
zero_bus = new_bus (record { ram = no_regs })

-- The data MMU with one entry, for page 1, which leads to the page at `tr`.
abbrev pub one_page : ℕ → Mmu
one_page tr = record {
  type = data_mmu;
  is_enabled = true;
  control_register = 0;
  match_reg = update no_regs 1 0x2001;
  translate_reg = update no_regs 1 tr;
  authed_page = 1;
  authed_phy = 0;
  stats_fast_hit = 0;
  stats_fast_miss = 0;
  verbose = false;
  verbose_store = false;
}

-- A processor in user mode at `pc`, with both translations on.
abbrev pub user_cpu : ℕ → Cpu
user_cpu pc = record {
  immu = record (one_page 0x63c0) { type = instruction_mmu };
  dmmu = one_page 0x63c0;
  reg = λ r. r;
  pc = pc;
  sr = 0x8060;
  epcr0 = 0;
  eear0 = 0;
  esr0 = 0;
  picmr = 0;
  picsr = 0;
  pending_interrupt = false;
  ttmr = 0;
  ttcr = 0;
  in_delay_slot = false;
  delayed_next_pc = 0;
  authed_page = 1;
  authed_phy = 0;
}

abbrev pub user_machine : ℕ → Machine
user_machine pc = record { cpu = user_cpu pc; bus = zero_bus }

-- Registers of 0, and no translation.
abbrev pub plain_cpu : ℕ → Cpu
plain_cpu pc = record (user_cpu pc) {
  immu = record (one_page 0x63c0) { type = instruction_mmu; is_enabled = false };
  dmmu = record (one_page 0x63c0) { is_enabled = false };
  reg = no_regs;
}

-- l.nop, l.lwz r3, 0(r0) and l.trap, from address 0 on.
abbrev pub three_words : Bus
three_words = record zero_bus {
  ram = record { ram = update (update (update (update no_regs 3 0x15) 7 0x84) 6 0x60) 11 0x21 };
}
