-- ===== src/Cpu/Tests.antt =====
-- Concrete runs of simctty/cpu.cc.
use simctty.Prelude.{ℕ, ◌-◌, ◌%◌, ◌^◌, ◌≤◌, ◌<◌, ◌≡◌, ◌≢◌, arith, true, ok, ◌>>=◌}
use simctty.Exception.{data_page_fault}
use simctty.Cpu.State.{Cpu}
use simctty.Cpu.Control.{throw_exception}
use simctty.Cpu.Exec.{return_from_exception}
use simctty.Cpu.Exceptions.{IsEntered, IsResumed, throw_exception-IsEntered, throw_exception-return}
use simctty.Cpu.Alu.{ff1, fl1}
use simctty.Cpu.Alu.Search.{bit_of, find-IsExtreme}
use simctty.Prelude.{inr, ◌↔◌, update, false, refl, [], ◌∷◌, has, bit_or, fault}
use simctty.Exception.{external_interrupt, bus_error}
use simctty.Uart.{new_uart, is_interrupt_asserted, is_data_ready_interrupt}
use simctty.Bus.{get_device}
use simctty.Mmu
use simctty.Mmu.{Mmu}
use simctty.Mmu.Access
use simctty.Cpu.State.{Machine, k_sm, sp_reg, set_sp_reg, write_sr}
use simctty.Cpu.Control.{check_interrupts}
use simctty.Cpu.Run.{fetched, fetch, tick, tick_interrupts}
use simctty.Cpu.Interrupts.{sampled, check_interrupts_lem, tick_lem}
use simctty.Cpu.Flaws.{user_mode_escapes, fetch_ignores_bus_error}
use simctty.Cpu.Alu.{multiply, divide}
use simctty.Cpu.Alu.Signed.{multiply_lem, divide_lem}
use simctty.Samples.{user_cpu, zero_bus}

-- In the delay slot of a branch.
abbrev delayed : Cpu
delayed = record (user_cpu 0x2008) { in_delay_slot = true; delayed_next_pc = 0x2100 }

throw_exception-IsEntered_example :
    (c' : Cpu) × (throw_exception delayed data_page_fault 0x5000 ≡ ok c')
    × IsEntered delayed data_page_fault 0x5000 c'
throw_exception-IsEntered_example = throw_exception-IsEntered delayed data_page_fault 0x5000

throw_exception-return_example :
    (c' : Cpu) × ((throw_exception delayed data_page_fault 0x5000
        >>= return_from_exception zero_bus)
      ≡ ok (record { running = true; machine = record { cpu = c'; bus = zero_bus } }))
    × IsResumed delayed c'
throw_exception-return_example = throw_exception-return zero_bus delayed data_page_fault 0x5000

abbrev sample : ℕ
sample = 0x50

find-IsExtreme_example :
    ((ff1 sample ≤ 32)
      × (ff1 sample ≡ 0 ↔ sample ≡ 0)
      × (ff1 sample ≢ 0 → sample % 2 ^ (ff1 sample - 1) ≡ 0)
      × (ff1 sample ≢ 0 → bit_of sample (ff1 sample - 1) ≡ 1))
    × ((fl1 sample ≤ 32)
        × (fl1 sample ≡ 0 ↔ sample ≡ 0)
        × (sample < 2 ^ fl1 sample)
        × (fl1 sample ≢ 0 → bit_of sample (fl1 sample - 1) ≡ 1))
find-IsExtreme_example = find-IsExtreme sample (omega arith)

-- A key waits, its interrupt is enabled, and the processor has not yet seen the line change.
abbrev asked : Machine
asked = record {
  cpu = record (user_cpu 0x2000) { sr = 0x8004; picmr = 4 };
  bus = record zero_bus { uart = record new_uart { keypress_fifo = 0x61 ∷ []; ier = 1 } };
}

check_interrupts_lem_example :
    (c' : Cpu) × IsEntered (sampled asked.cpu true) external_interrupt 0 c'
    × (check_interrupts asked ≡ ok (record asked { cpu = record c' { pending_interrupt = false } }))
unfolding is_interrupt_asserted is_data_ready_interrupt
check_interrupts_lem_example = (check_interrupts_lem asked).1 refl

-- One tick before a match of a timer that runs continuously.
abbrev ticking : Cpu
ticking = record (user_cpu 0x2000) { sr = 0x8002; ttmr = 0xe0000010; ttcr = 0x2000000f }

tick_lem_example :
    (tick_interrupts ticking ≡ true)
    × (tick ticking ≡ record ticking { ttcr = 0x20000010; ttmr = bit_or 0xe0000010 (2 ^ 28) })
tick_lem_example = tick_lem ticking (omega arith)

user_mode_escapes_example :
    (sp_reg (user_cpu 0) 17 ≡ ok 0x8060)
    × (sp_reg (user_cpu 0) 32 ≡ ok 0)
    × (sp_reg (user_cpu 0) 64 ≡ ok 0)
    × (set_sp_reg (user_cpu 0) 17 0x8001 ≡ ok (write_sr (user_cpu 0) 0x8001))
    × ((write_sr (user_cpu 0) 0x8001).sr ≡ 0x8001)
user_mode_escapes_example =
    user_mode_escapes (user_cpu 0) 0x8001 (λ e. absurd (omega (arith, e))) refl

-- The page at 0x2000 is kept, and its entry is cleared.
abbrev keeping : Cpu
keeping = record (user_cpu 0x2004) { authed_page = 0x2000; authed_phy = 0x6000 }

abbrev without_entry : Mmu
without_entry = record (keeping.immu) {
  authed_page = 1;
  match_reg = update (keeping.immu.match_reg) 1 0;
}

-- At an address with no device.
abbrev nowhere : Cpu
nowhere = record (user_cpu 0xf0000000) { immu = record ((user_cpu 0).immu) { is_enabled = false } }

fetch_ignores_bus_error_example :
    (m : Mmu) × (Access.load32 nowhere.immu zero_bus 0xf0000000 (has 0x8060 k_sm)
      ≡ ok (record { value = 0; exception = bus_error; mmu = m; bus = zero_bus }))
    × (fetch zero_bus nowhere
        ≡ ok (fetched 0 (record { cpu = record nowhere { immu = m }; bus = zero_bus })))
unfolding get_device
fetch_ignores_bus_error_example =
    fetch_ignores_bus_error zero_bus nowhere (omega arith) refl refl refl (omega arith) refl

-- -3 and 5.
multiply_lem_example : multiply 0xfffffffd 5 ≡ 0xfffffff1
multiply_lem_example = multiply_lem 0xfffffffd 5 (omega arith) (omega arith)

divide_lem_example :
    (divide 0xfffffff1 0 ≡ ok 0)
    × (divide 0x80000000 0xffffffff ≡ fault)
    × (divide 0xfffffff1 2 ≡ ok 0xfffffff9)
divide_lem_example =
    let by_zero = divide_lem 0xfffffff1 0 (omega arith) (omega arith) in
    let least = divide_lem 0x80000000 0xffffffff (omega arith) (omega arith) in
    let halved = divide_lem 0xfffffff1 2 (omega arith) (omega arith) in
    (
      by_zero.0 refl,
      least.1 refl refl,
      halved.2 (λ e. absurd (omega arith)) (inr (λ e. absurd (omega arith))),
    )
