-- ===== src/Cpu/Safety/Runs.antt =====
-- The loop of `CPU::Run` in simctty/cpu.cc on a machine in good order: rounds whose instructions
-- cannot reach undefined behaviour, and what the loop keeps.
use simctty.Prelude.{
  ℕ, zero, suc, ◌^◌, ◌<◌, ◌≡◌, arith, Bool, true, false, ◌&&◌, has, Result, ok, ◌>>=◌, Returns,
  Returns-ok, Returns-if, Returns-bind, inl, inr, Bool-cases,
}
use mathlib.Core.Bool.{false≢true}
use simctty.Exception.{Exception, external_interrupt, tick_timer_interrupt}
use simctty.Bus.{Bus, interrupts}
use simctty.Bus.Valid
use simctty.Bus.Valid.{Leads, Leads-none, Leads-trans}
use simctty.Cpu.State.{Cpu, Machine, k_iee}
use simctty.Cpu.Control.{check_interrupts, sample_lines}
use simctty.Cpu.Exec.{Ran}
use simctty.Cpu.Run.{
  Fetch, fetched, refused, Cycle, again, returns, interrupted, next_cycle, execute, cycle,
  continue_with, run_loop, run, tick, tick_interrupts,
}
use simctty.Cpu.Valid.{IsValid, tick-IsValid, sample_lines-IsValid}
use simctty.Cpu.Valid.Special.{throw_exception-Returns}
use simctty.Cpu.Safety.{tame_fetch, is_tame_round, tame_next, is_tame_run, is_tame_from}
use simctty.Cpu.Safety.Steps.{Kept, Safe, Safe-after}
use simctty.Cpu.Safety.Dispatch.{IsSound, run_instruction-Safe}
use simctty.Cpu.Safety.Fetches.{FetchKeeps, fetch-Returns}

-- What a round leaves.
abbrev CycleKeeps : Bus → Cycle → Type 0
CycleKeeps b (again m) = IsValid m.cpu × Leads b m.bus
CycleKeeps b (returns running m) = IsValid m.cpu × Leads b m.bus

interrupted-Returns :
    (b : Bus) (c : Cpu) (e : Exception)
    → Valid.IsValid b
    → IsValid c
    → (ea : ℕ) → ea < 2 ^ 32
    → Returns (CycleKeeps b) (interrupted b c e ea)
unfolding interrupted
interrupted-Returns b c e w v ea h =
    Returns-bind IsValid (CycleKeeps b) _ _ (throw_exception-Returns c e ea v h)
      (λ c' v'. Returns-ok (CycleKeeps b) _ (v', Leads-none b w))

next_cycle-Keeps : (b : Bus) (r : Ran) → Kept b r → CycleKeeps b (next_cycle r)
next_cycle-Keeps b r k = elim (Bool-cases r.running) [
  | inl on ↦ rw on (k.cpu, k.leads)
  | inr off ↦ rw off (k.cpu, k.leads)
]

CycleKeeps-after : {b b' : Bus} (c : Cycle) → Leads b b' → CycleKeeps b' c → CycleKeeps b c
CycleKeeps-after (again m) l k = (k.0, Leads-trans l k.1)
CycleKeeps-after (returns running m) l k = (k.0, Leads-trans l k.1)

Returns-after :
    {b b' : Bus} (result : Result Cycle)
    → Leads b b'
    → Returns (CycleKeeps b') result
    → Returns (CycleKeeps b) result
Returns-after result l r = record {
  value = r.value;
  returns = r.returns;
  holds = CycleKeeps-after r.value l r.holds;
}

execute-Returns :
    (b : Bus) (f : Fetch)
    → FetchKeeps b f
    → tame_fetch (ok f) ≡ true
    → Returns (CycleKeeps b) (execute f)
unfolding execute
execute-Returns b (fetched i m) k tame = Returns-after _ k.1 (
    Returns-bind (Kept m.bus) (CycleKeeps m.bus) _ _
      (run_instruction-Safe m i (record { cpu = k.0; bus = k.1.valid }) tame)
      (λ r q. Returns-ok (CycleKeeps m.bus) _ (next_cycle-Keeps m.bus r q)))
execute-Returns b (refused e m) k tame =
    Returns-after _ k.1 (interrupted-Returns m.bus m.cpu e k.1.valid k.0 m.cpu.pc k.0.words.pc)

fetched-Returns :
    (b : Bus) (result : Result Fetch)
    → Returns (FetchKeeps b) result
    → tame_fetch result ≡ true
    → Returns (CycleKeeps b) (result >>= execute)
fetched-Returns b result r tame =
    rw r.returns (execute-Returns b r.value r.holds (rw r.returns at tame))

cycle-Returns :
    (m : Machine) → IsSound m → is_tame_round m ≡ true → Returns (CycleKeeps m.bus) (cycle m)
unfolding cycle is_tame_round
cycle-Returns m s tame =
    let v = tick-IsValid m.cpu s.cpu in
    elim (Bool-cases (tick_interrupts m.cpu)) [
      | inl due ↦
          rw due
            (interrupted-Returns m.bus (tick m.cpu) tick_timer_interrupt s.bus v 0 (omega arith))
      | inr quiet ↦ rw quiet (
          fetched-Returns m.bus _ (fetch-Returns m.bus s.bus (tick m.cpu) v (ground arith))
            (ground arith))
    ]

-- What is left of the loop after a round.
continue-Safe :
    (b : Bus) (rest : Machine → Result Ran) (tame : Machine → Bool) (c : Cycle)
    → ((m : Machine) → IsSound m → tame m ≡ true → Safe m.bus (rest m))
    → CycleKeeps b c
    → tame_next tame (ok c) ≡ true
    → Safe b (continue_with rest c)
unfolding continue_with tame_next
continue-Safe b rest tame (again m) later k e =
    Safe-after _ k.1 (later m (record { cpu = k.0; bus = k.1.valid }) e)
continue-Safe b rest tame (returns running m) later k e =
    Returns-ok (Kept b) _ (record { cpu = k.0; leads = k.1 })

rounds_of :
    (cycles : ℕ) (m : Machine)
    → is_tame_run (suc cycles) m ≡ true
    → (is_tame_round m ≡ true) × (tame_next (is_tame_run cycles) (cycle m) ≡ true)
unfolding is_tame_run
rounds_of cycles m e = elim (Bool-cases (is_tame_round m)) [
  | inl tame ↦ (tame, rw tame at e)
  | inr wild ↦ absurd (false≢true (rw wild at e))
]

run_loop-Safe :
    (cycles : ℕ) (m : Machine)
    → IsSound m
    → is_tame_run cycles m ≡ true
    → Safe m.bus (run_loop cycles m)
unfolding run_loop is_tame_run
run_loop-Safe zero m s tame =
    Returns-ok (Kept m.bus) _ (record { cpu = s.cpu; leads = Leads-none m.bus s.bus })
run_loop-Safe (suc cycles) m s tame =
    let r = cycle-Returns m s (rounds_of cycles m tame).0 in
    rw r.returns (
      continue-Safe m.bus (run_loop cycles) (is_tame_run cycles) r.value (run_loop-Safe cycles)
        r.holds (rw r.returns at (rounds_of cycles m tame).1))

abbrev ChecksKeep : Bus → Machine → Type 0
ChecksKeep b m = IsValid m.cpu × Leads b m.bus

lines-lt : (b : Bus) → interrupts b < 2 ^ 32
unfolding interrupts
lines-lt b = ground arith

with_pending : (c : Cpu) → IsValid c → IsValid (record c { pending_interrupt = false })
with_pending c v = record {
  regs = v.regs;
  words = ground (arith, v.words);
  immu = v.immu;
  dmmu = v.dmmu;
  page = v.page;
}

check_interrupts-Returns :
    (m : Machine) → IsSound m → Returns (ChecksKeep m.bus) (check_interrupts m)
unfolding check_interrupts
check_interrupts-Returns m s =
    let c = sample_lines m.cpu (interrupts m.bus) in
    let v = sample_lines-IsValid m.cpu s.cpu (interrupts m.bus) (lines-lt m.bus) in
    Returns-if (ChecksKeep m.bus) (has c.sr k_iee && c.pending_interrupt && has c.picsr c.picmr) _ _
      (λ _.
        Returns-bind IsValid (ChecksKeep m.bus) _ _
          (throw_exception-Returns c external_interrupt 0 v (omega arith))
          (λ t w. Returns-ok (ChecksKeep m.bus) _ (with_pending t w, Leads-none m.bus s.bus)))
      (λ _. Returns-ok (ChecksKeep m.bus) _ (v, Leads-none m.bus s.bus))

-- On a machine in good order, which is one whose registers hold 32 bits, whose MMUs are valid,
-- whose kept page lies in the memory, and whose memory and serial port hold bytes, and where each
-- round that is run is tame: CPU::Run returns, and the machine that it leaves is in good order,
-- its serial port changed by nothing but loads and stores of the guest at 32-bit addresses. A
-- round is tame if it is interrupted by the timer, or if the program counter is a multiple of 4
-- and the fetched instruction is no l.lwz from an address that is no multiple of 4, no l.sh to an
-- address that lies in the memory before its translation and not after it, no l.div that
-- overflows, and no l.mfspr or l.mtspr of a register that an MMU does not have.
pub run-Safe :
    (m : Machine) (cycles : ℕ)
    → IsSound m
    → is_tame_from cycles (check_interrupts m) ≡ true
    → Safe m.bus (run m cycles)
unfolding run is_tame_from
run-Safe m cycles s tame =
    let r = check_interrupts-Returns m s in
    rw r.returns (
      Safe-after _ r.holds.1 (
        run_loop-Safe cycles r.value (record { cpu = r.holds.0; bus = r.holds.1.valid })
          (rw r.returns at tame)))
