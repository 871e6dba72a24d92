-- ===== src/System/Exported/Tests.antt =====
-- Calls of simctty/emscripten.cc on a concrete system.
use simctty.Prelude.{refl, arith, List, [], ◌∷◌, Returns}
use simctty.Ram.{read32}
use simctty.Mmu.{map_address}
use simctty.Bus.{interrupts}
use simctty.Uart.{
  is_interrupt_asserted, is_data_ready_interrupt, new_uart, is_transmit_ready_interrupt, keypress,
}
use simctty.Cpu.Run.{tick_interrupts, tick, fetch, cycle, run}
use simctty.Cpu.Control.{throw_exception, check_interrupts}
use simctty.Cpu.Decode.{opcode}
use simctty.Cpu.Exec.{run_instruction, system}
use simctty.Cpu.State.{set_sup_reg}
use simctty.Cpu.Safety.{is_tame_from}
use simctty.Uart.{read, can_read}
use simctty.System.Exported.{sys_run, sys_keypress, sys_can_read, sys_read}
use simctty.System.Exported.Page.{PageCall, press, go, show, calls, call, is_tame_calls}
use simctty.System.Exported.Calls.{IsAnswered, calls-IsAnswered}
use simctty.System.Samples.{missing_page, missing_page-IsSound}

-- A key, a run that ends in a handler, another key, a read, and a run that stops.
abbrev page_calls : List PageCall
page_calls = press 0x61 ∷ go ∷ press 0x62 ∷ show ∷ go ∷ []

calls-IsAnswered_example :
    Returns (IsAnswered page_calls missing_page) (calls page_calls missing_page)
unfolding is_tame_calls call sys_run sys_keypress sys_can_read sys_read read can_read is_tame_from
    check_interrupts interrupts is_interrupt_asserted is_data_ready_interrupt new_uart
    is_transmit_ready_interrupt tick_interrupts tick fetch map_address cycle throw_exception
    set_sup_reg run keypress read32 opcode run_instruction system
calls-IsAnswered_example =
    calls-IsAnswered page_calls missing_page missing_page-IsSound (omega arith, (omega arith, tt))
      refl
