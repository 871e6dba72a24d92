-- ===== src/System/Samples.antt =====
-- A concrete machine in good order for the tests of whole systems.
use simctty.Prelude.{arith, update, [], ◌∷◌}
use simctty.Uart.Valid.{IsValid, new_uart-IsValid}
use simctty.Uart.{new_uart}
use simctty.Mmu.{instruction_mmu}
use simctty.Cpu.State.{Machine}
use simctty.Cpu.Safety.Dispatch.{IsSound}
use simctty.Samples.{no_regs, one_page, plain_cpu}

-- The first fetch misses its page, which ends the first run; the handler is a trap. A byte waits to
-- be displayed.
abbrev pub missing_page : Machine
missing_page = record {
  cpu = record (plain_cpu 0x4000) { immu = record (one_page 0x63c0) { type = instruction_mmu } };
  bus = record {
    ram = record { ram = update no_regs 0xa03 0x21 };
    uart = record new_uart { display_fifo = 0x41 ∷ [] };
  };
}

waiting-IsValid : IsValid (missing_page.bus.uart)
waiting-IsValid =
    let v = new_uart-IsValid in
    record {
      keys = v.keys;
      display = (omega arith, tt);
      ier = v.ier;
      lcr = v.lcr;
      mcr = v.mcr;
      dll = v.dll;
      dlm = v.dlm;
    }

pub missing_page-IsSound : IsSound missing_page
missing_page-IsSound = record {
  cpu = record {
    regs = λ i. omega arith;
    words = omega arith;
    immu = record {
      match_words = λ i. ground arith;
      translate_words = λ i. ground arith;
      cached = λ e. absurd (omega arith);
    };
    dmmu = record {
      match_words = λ i. ground arith;
      translate_words = λ i. ground arith;
      cached = λ e. absurd (omega arith);
    };
    page = λ e. absurd (omega arith);
  };
  bus = record { ram = record { bytes = λ i. ground arith }; uart = waiting-IsValid };
}
