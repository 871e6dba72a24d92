-- ===== src/Cpu/Safety/Tests.antt =====
-- Whole runs of simctty/cpu.cc on concrete machines.
use simctty.Prelude.{ℕ, ◌+◌, ◌^◌, ◌<◌, ◌≡◌, refl, arith, Returns}
use simctty.Uart.Valid.{new_uart-IsValid}
use simctty.Uart.{
  new_uart, is_interrupt_asserted, is_data_ready_interrupt, is_transmit_ready_interrupt,
}
use simctty.Bus.{interrupts}
use simctty.Mmu.{map_address}
use simctty.Mmu.Access
use simctty.Ram
use simctty.Cpu.Decode.{opcode, decode_d, decode_a, decode_i, extend16}
use simctty.Prelude.Int.{int16, uint32}
use simctty.Cpu.Control.{increment_pc, check_interrupts}
use simctty.Cpu.Exec.{system, run_instruction, load, nop}
use simctty.Cpu.State.{Machine}
use simctty.Cpu.Run.{run, run_loop, tick_interrupts, cycle, fetch, tick}
use simctty.Cpu.Safety.{is_tame, is_tame_round, is_tame_run, is_tame_from}
use simctty.Cpu.Safety.Steps.{Safe}
use simctty.Cpu.Safety.Dispatch.{IsSound}
use simctty.Cpu.Safety.Runs.{run-Safe}
use simctty.Cpu.Stops.{IsSettled, run_instruction-IsSettled}
use simctty.Cpu.Timer.{rounds_left, Undisturbed, none_yet, and_then, InHandler, timer-fires}
use simctty.Samples.{plain_cpu, three_words}

abbrev starting : Machine
starting = record { cpu = plain_cpu 0; bus = three_words }

starting-IsSound : IsSound starting
starting-IsSound = record {
  cpu = record {
    regs = λ i. omega arith;
    words = omega arith;
    immu = record {
      match_words = λ i. ground arith;
      translate_words = λ i. ground arith;
      cached = λ e. absurd (omega arith);
    };
    dmmu = record {
      match_words = λ i. ground arith;
      translate_words = λ i. ground arith;
      cached = λ e. absurd (omega arith);
    };
    page = λ e. absurd (omega arith);
  };
  bus = record { ram = record { bytes = λ i. ground arith }; uart = new_uart-IsValid };
}

-- A no-operation, a load, and a trap.
run-Safe_example : Safe three_words (run starting 3)
unfolding is_tame_from is_tame_run is_tame_round is_tame check_interrupts interrupts
    is_interrupt_asserted is_data_ready_interrupt new_uart cycle fetch tick tick_interrupts
    run_instruction load nop Access.load32 map_address Ram.read32 opcode decode_d decode_a decode_i
    extend16 int16 uint32 increment_pc is_transmit_ready_interrupt system
run-Safe_example = run-Safe starting 3 starting-IsSound refl

-- l.nop 1 in user mode does not stop.
run_instruction-IsSettled_example :
    Returns (IsSettled starting 0x15000001) (run_instruction starting 0x15000001)
unfolding is_tame opcode
run_instruction-IsSettled_example =
    run_instruction-IsSettled starting 0x15000001 starting-IsSound refl

-- A period of 5, from 3 on, at l.nop in user mode.
abbrev timed : Machine
timed = record starting { cpu = record (starting.cpu) { ttmr = 0xe0000005; ttcr = 3; sr = 0x8002 } }

-- After the fetch of l.nop, and after its round.
abbrev in_round : Machine
in_round = record timed { cpu = record (timed.cpu) { ttcr = 4; authed_page = 0; authed_phy = 0 } }

abbrev after_round : Machine
after_round = record in_round { cpu = record (in_round.cpu) { pc = 4 } }

one_round : Undisturbed 1 timed after_round
unfolding fetch map_address Ram.read32 run_instruction opcode nop increment_pc
one_round =
    and_then {p = in_round} 0x15000000 refl refl
      (record { counter = refl; mode = refl; accepts = refl }) none_yet

timer-fires_example :
    (rounds_left timed.cpu < 2 ^ 28)
    × ((k : ℕ) → run_loop (1 + k) timed ≡ run_loop k after_round)
    × (1 ≡ rounds_left timed.cpu → InHandler timed 1 after_round)
timer-fires_example =
    timer-fires timed after_round 1 (record { counter = omega arith; mode = refl; accepts = refl })
      one_round (omega arith)
