-- ===== src/System/Main/Tests.antt =====
-- Whole sessions of simctty/main.cc on concrete machines.
use simctty.Prelude.{
  ℕ, refl, arith, ◌+◌, ◌==◌, if◌then◌else◌, Option, none, some, List, [], ◌∷◌, update, Returns,
}
use simctty.Ram.{Ram, read32, load_image, copy_words, copy_word, write8}
use simctty.Mmu.{Mmu, instruction_mmu, map_address}
use simctty.Bus.{interrupts}
use simctty.Uart.{
  is_interrupt_asserted, is_data_ready_interrupt, new_uart, is_transmit_ready_interrupt, keypress,
  can_read, read,
}
use simctty.Cpu.Run.{tick_interrupts, tick, fetch, cycle, run}
use simctty.Cpu.Control.{throw_exception, check_interrupts}
use simctty.System.{serve, new_system, load_image_file, load_blocks, main_loop}
use simctty.Cpu.Decode.{opcode}
use simctty.Cpu.Exec.{run_instruction, system}
use simctty.Mmu
use simctty.Cpu.State
use simctty.Cpu.State.{new_cpu, set_sup_reg, Cpu, Machine}
use simctty.Cpu.Safety.{is_tame_from}
use simctty.System.Sound.{HasTypes}
use simctty.System.MainLoop.{IsServed, main_loop-IsServed, is_tame_session}
use simctty.System.Main.{main_program}
use simctty.System.Main.Outcomes.{Ends, main_program-Ends, tame_loaded}
use simctty.System.Samples.{missing_page, missing_page-IsSound}
use simctty.Samples.{no_regs, plain_cpu}

abbrev typed : List (List ℕ)
typed = (0x61 ∷ []) ∷ (0x62 ∷ []) ∷ []

main_loop-IsServed_example : Returns (IsServed typed missing_page) (main_loop typed missing_page)
unfolding is_tame_session is_tame_from check_interrupts interrupts is_interrupt_asserted
    is_data_ready_interrupt new_uart is_transmit_ready_interrupt tick_interrupts tick fetch
    map_address cycle throw_exception set_sup_reg run serve keypress read32 opcode run_instruction
    system can_read read
main_loop-IsServed_example =
    main_loop-IsServed missing_page typed missing_page-IsSound (omega arith) refl

-- One word, and a trap that the new memory happens to hold where the programs start.
abbrev image : List ℕ
image = 0x15 ∷ 0 ∷ 0 ∷ 0 ∷ []

abbrev old_ram : Ram
old_ram = record { ram = update no_regs 0x103 0x21 }

-- File 7 is the image, and there is no other.
abbrev files : ℕ → Option (List ℕ)
files name = if name == 7 then some image else none

abbrev attributes : ℕ
attributes = 3

abbrev raw : ℕ → ℕ
raw t = t + 1

plain_cpu-HasTypes : HasTypes (plain_cpu 0)
plain_cpu-HasTypes = record {
  regs = λ i. omega arith;
  words = omega arith;
  immu_match = λ i. ground arith;
  immu_translate = λ i. ground arith;
  dmmu_match = λ i. ground arith;
  dmmu_translate = λ i. ground arith;
}

main_program-Ends_example :
    Returns
      (Ends raw attributes old_ram (plain_cpu 0) [] typed (some image))
      (main_program raw files 8 (0 ∷ 7 ∷ []) old_ram (plain_cpu 0) [] attributes typed)
unfolding tame_loaded is_tame_session new_system new_cpu State.reset load_image_file load_blocks
    load_image copy_words copy_word write8 is_tame_from check_interrupts interrupts
    is_interrupt_asserted is_data_ready_interrupt new_uart is_transmit_ready_interrupt State.set_pc
    tick_interrupts tick fetch map_address Mmu.reset read32 opcode cycle run_instruction system run
    throw_exception set_sup_reg serve keypress
main_program-Ends_example =
    main_program-Ends raw files 8 (0 ∷ 7 ∷ []) old_ram (plain_cpu 0) [] attributes typed
      (record { bytes = λ i. ground arith }) plain_cpu-HasTypes (omega arith, refl, omega arith)
      (omega arith) refl
