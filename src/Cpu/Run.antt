-- ===== src/Cpu/Run.antt =====
-- `CPU::Run`: the tick timer, the fetch of an instruction with its cached page, and the loop.
use simctty.Prelude.{
  ℕ, zero, suc, ◌+◌, ◌>>>◌, bit_or, bit_and, Bool, true, false, ◌&&◌, ◌==◌, if◌then◌else◌, has, u32,
  Result, ok, ◌>>=◌,
}
use simctty.Exception.{Exception, raised, tick_timer_interrupt}
use simctty.Bus.{Bus}
use simctty.Ram
use simctty.Mmu.{Mapped, map_address}
use simctty.Mmu.Access
use simctty.Cpu.State.{Cpu, Machine, k_sm, k_tee}
use simctty.Cpu.Control.{throw_exception, check_interrupts}
use simctty.Cpu.Exec.{Ran, run_instruction}

-- The condition `Tick timer matches?`.
unfoldable pub tick_matches : Cpu → Bool
tick_matches c =
    c.ttmr >>> 30 == 3
    && bit_and c.ttcr 0x0fffffff == bit_and c.ttmr 0x0fffffff
    && bit_and (c.ttmr >>> 29) 1 == 1

-- The counter register overflows by design; a match sets the interrupt pending bit.
unfoldable pub tick : Cpu → Cpu
unfolding tick_matches
tick c =
    let c' = record c { ttcr = u32 (c.ttcr + 1) } in
    if tick_matches c' then record c' { ttmr = bit_or c'.ttmr 0x10000000 } else c'

-- Whether the tick ends the run by an interrupt.
unfoldable pub tick_interrupts : Cpu → Bool
unfolding tick_matches
tick_interrupts c = tick_matches (record c { ttcr = u32 (c.ttcr + 1) }) && has c.sr k_tee

-- A fetch gives an instruction, or an exception at the program counter.
pub data Fetch : Type 0 where
  fetched : ℕ → Machine → Fetch
  refused : Exception → Machine → Fetch

-- The instruction at `raw_ + authed_phy_ + (pc_ & 0x1fff)`.
unfoldable pub fetch_raw : Bus → Cpu → Result Fetch
fetch_raw b c = do
  i ← Ram.read32 b.ram (c.authed_phy + bit_and c.pc 0x1fff)
  ok (fetched i (record { cpu = c; bus = b }))

-- An exception of the last load, from a device on the bus, is not looked at.
unfoldable pub fetch_device : Bus → Cpu → Result Fetch
fetch_device b c = do
  l ← Access.load32 c.immu b c.pc (has c.sr k_sm)
  ok (fetched l.value (record { cpu = record c { immu = l.mmu }; bus = l.bus }))

unfoldable pub fetch_mapped : Bus → Cpu → Mapped → Result Fetch
unfolding fetch_raw fetch_device
fetch_mapped b c t =
    let c' = record c { immu = t.mmu } in
    if raised t.exception
    then ok (refused t.exception (record { cpu = c'; bus = b }))
    else if t.is_ram
    then fetch_raw b (record c' {
      authed_page = bit_and c.pc 0xffffe000;
      authed_phy = bit_and t.phy_address 0xffffe000;
    })
    else fetch_device b c'

unfoldable pub fetch : Bus → Cpu → Result Fetch
unfolding fetch_raw fetch_mapped
fetch b c =
    if bit_and c.pc 0xffffe000 == c.authed_page
    then fetch_raw b c
    else fetch_mapped b c (map_address c.immu c.pc (has c.sr k_sm) false)

-- One round of the loop: go on, or return from `Run`.
pub data Cycle : Type 0 where
  again : Machine → Cycle
  returns : Bool → Machine → Cycle

unfoldable pub interrupted : Bus → Cpu → Exception → ℕ → Result Cycle
interrupted b c exception effective_address = do
  c' ← throw_exception c exception effective_address
  ok (returns true (record { cpu = c'; bus = b }))

abbrev pub next_cycle : Ran → Cycle
next_cycle r = if r.running then again r.machine else returns false r.machine

unfoldable pub execute : Fetch → Result Cycle
unfolding interrupted
execute (refused exception m) = interrupted m.bus m.cpu exception m.cpu.pc
execute (fetched instruction m) = do r ← run_instruction m instruction; ok (next_cycle r)

unfoldable pub cycle : Machine → Result Cycle
unfolding interrupted execute
cycle m =
    if tick_interrupts m.cpu
    then interrupted m.bus (tick m.cpu) tick_timer_interrupt 0
    else (fetch m.bus (tick m.cpu) >>= execute)

unfoldable pub continue_with : (Machine → Result Ran) → Cycle → Result Ran
continue_with rest (again m) = rest m
continue_with rest (returns running m) = ok (record { running = running; machine = m })

unfoldable pub run_loop : ℕ → Machine → Result Ran
unfolding continue_with
run_loop zero m = ok (record { running = true; machine = m })
run_loop (suc cycles) m = cycle m >>= continue_with (run_loop cycles)

-- The Boolean is what `Run` returns.
unfoldable pub run : Machine → ℕ → Result Ran
unfolding run_loop
run m cycles = check_interrupts m >>= run_loop cycles
