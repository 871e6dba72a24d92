-- ===== src/Isa/Tests.antt =====
-- Programs, assembled and run.
use simctty.Prelude.{◌≡◌, refl, arith, true, false, update, List, [], ◌∷◌, length, ok, ◌>>=◌}
use simctty.Ram.Memory
use simctty.Ram.Guest.{guest}
use simctty.Bus.{Bus}
use simctty.Cpu.State.{Cpu}
use simctty.Cpu.Exec.{run_instruction}
use simctty.Cpu.Run.{cycle, next_cycle}
use simctty.System.{load_image}
use simctty.System.Start.{IsReset}
use simctty.Isa.Instruction.{
  Instruction, word, compute_immediate, add_immediate, flag_immediate, signed, below, no_operation,
  branch_by, plain,
}
use simctty.Isa.Meaning.{execute_on}
use simctty.Isa.Runs.{run_instruction-word}
use simctty.Isa.Program.{assembled, image_memory}
use simctty.Isa.Step.{fetching}
use simctty.Isa.Boot.{program_starts}
use simctty.Isa.Delay.{delay_slot}
use simctty.Isa.Instruction.{
  equal, on_clear, store_to, store_word, store_byte, high_half, load_from, load_half,
}
use simctty.Isa.Reference.{Progress, perform, perform_run}
use simctty.Cpu.Decode.{extend16}
use simctty.Prelude.Int.{uint32, int16}
use simctty.Uart.{Uart, new_uart, store8}
use simctty.Isa.Whole.{IsPerformed, program_runs}
use simctty.Exception.{data_page_fault}
use simctty.Cpu.State.{k_dsx}
use simctty.Cpu.Control.{throw_exception}
use simctty.Cpu.Exec.{ran}
use simctty.Isa.Meaning.{immediate_value}
use simctty.Prelude.{bit_or, inr}
use simctty.Samples.{no_regs, user_machine, zero_bus}

abbrev program : List Instruction
program =
    compute_immediate add_immediate 3 0 0xfffb
    ∷ flag_immediate (signed below) 3 7
    ∷ branch_by plain 0xffffffff
    ∷ no_operation 0
    ∷ []

run_instruction-word_example :
    run_instruction (user_machine 0x2000) (word (flag_immediate (signed below) 3 7))
    ≡ execute_on zero_bus (user_machine 0x2000).cpu (flag_immediate (signed below) 3 7)
run_instruction-word_example =
    run_instruction-word (user_machine 0x2000) (flag_immediate (signed below) 3 7)
      (λ r h. omega arith) (omega arith, omega arith)

program_starts_example :
    (c : Cpu) × (b : Bus) × (load_image
        (user_machine 0)
        (assembled [] program)
        (length (assembled [] program))
        4
      ≡ ok (length (assembled [] program), record { cpu = c; bus = b }))
    × IsReset c 4
    × (cycle (record { cpu = c; bus = b }) ≡ (
        execute_on b (fetching c) (flag_immediate (signed below) 3 7) >>= λ r. ok (next_cycle r)))
program_starts_example =
    program_starts (user_machine 0) program 1 (flag_immediate (signed below) 3 7) (omega arith) refl
      (omega arith, omega arith)

-- A jump back by one word, with an addition in its delay slot.
delay_slot_example :
    ((run_instruction (user_machine 0x2004) (word (branch_by plain 0xffffffff)) >>= λ r.
    run_instruction r.machine (word (compute_immediate add_immediate 3 4 7)))
      ≡ ran zero_bus (record ((user_machine 0x2004).cpu) {
        pc = 0x2000;
        delayed_next_pc = 0x2000;
        in_delay_slot = false;
        reg = update ((user_machine 0x2004).cpu.reg) 3 (immediate_value add_immediate 4 7);
      }))
    × ((c' : Cpu) × ((run_instruction (user_machine 0x2004) (word (branch_by plain 0xffffffff))
            >>= λ r. throw_exception r.machine.cpu data_page_fault 0x5000)
          ≡ ok c')
        × (c'.pc ≡ 0x300)
        × (c'.epcr0 ≡ 0x2004)
        × (c'.esr0 ≡ bit_or 0x8060 k_dsx))
delay_slot_example =
    delay_slot (user_machine 0x2004) 0xffffffff 3 4 7 add_immediate data_page_fault 0x5000
      (λ r h. omega arith) (omega arith) (inr (omega arith, omega arith))
      (omega arith, omega arith, omega arith)

-- Counts register 3 down from 2 to 0, adds 5 each time and stores the sum in the delay slot of the
-- branch; then it loads the lower half of the sum, sends it to the serial port and stops.
abbrev countdown : List Instruction
countdown =
    compute_immediate add_immediate 3 0 2
    ∷ compute_immediate add_immediate 4 4 5
    ∷ compute_immediate add_immediate 3 3 0xffff
    ∷ flag_immediate equal 3 0
    ∷ branch_by on_clear 0xfffffffd
    ∷ store_to store_word 0 4 0x100
    ∷ load_from load_half 5 0 0x102
    ∷ high_half 6 0x9000
    ∷ store_to store_byte 6 5 0
    ∷ no_operation 1
    ∷ []

abbrev sent : Uart
sent = record new_uart { display_fifo = 10 ∷ [] }

abbrev counted_down : Progress
counted_down = record {
  running = false;
  view = record {
    pc = 36;
    next_pc = 40;
    reg =
        update
          (update (update (update (update (update (update no_regs 3 2) 4 5) 3 1) 4 10) 3 0) 5 10) 6
          0x90000000;
    flag = true;
    memory =
        Memory.store32
          (Memory.store32 (image_memory (guest (record { ram = no_regs })) countdown) 0x100 5) 0x100
          10;
    port = sent;
  };
}

program_runs_example : IsPerformed (user_machine 0) countdown 0 100 counted_down
unfolding perform perform_run extend16 uint32 int16 new_uart store8
program_runs_example =
    program_runs (user_machine 0) countdown 0 100 (omega arith) (omega arith)
      (record { bytes = λ i. omega arith }) refl
