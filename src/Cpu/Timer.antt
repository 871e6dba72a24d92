-- ===== src/Cpu/Timer.antt =====
-- The tick timer of simctty/cpu.cc over many rounds of the loop of `CPU::Run`.
use simctty.Prelude.{
  ℕ, suc, ◌+◌, ◌-◌, ◌/◌, ◌%◌, ◌^◌, ◌<◌, ◌≤◌, ◌≡◌, ◌∙◌, refl, arith, bit_or, true, false, has, ok,
}
use simctty.Exception.{tick_timer_interrupt}
use simctty.Cpu.State.{Cpu, Machine, k_tee}
use simctty.Cpu.Exceptions.{IsEntered, throw_exception-IsEntered}
use simctty.Cpu.Interrupts.{tick_lem}
use simctty.Cpu.Exec.{run_instruction}
use simctty.Cpu.Run.{
  tick, tick_interrupts, fetched, fetch, again, interrupted, execute, cycle, continue_with,
  run_loop,
}

-- The processor with its counter moved on by one.
abbrev pub counting : Cpu → Cpu
counting c = record c { ttcr = (c.ttcr + 1) % 2 ^ 32 }

-- The registers of the timer, and whether its interrupt is accepted.
pub record SameTimer (c c' : Cpu) : Type 0 where
  pub counter : c'.ttcr ≡ c.ttcr
  pub mode : c'.ttmr ≡ c.ttmr
  pub accepts : has c'.sr k_tee ≡ has c.sr k_tee

-- A number of instructions, one for each count, none of which changes the timer or stops the run.
pub data Undisturbed : ℕ → Machine → Machine → Type 0 where
  none_yet : {m : Machine} → Undisturbed 0 m m
  and_then :
      {n : ℕ} {m m' m'' : Machine} {p : Machine} (instruction : ℕ)
      → fetch m.bus (counting m.cpu) ≡ ok (fetched instruction p)
      → run_instruction p instruction ≡ ok (record { running = true; machine = m' })
      → SameTimer (counting m.cpu) m'.cpu
      → Undisturbed n m' m''
      → Undisturbed (suc n) m m''

-- The rounds until the count meets the period.
abbrev pub rounds_left : Cpu → ℕ
rounds_left c = (c.ttmr % 2 ^ 28 + 2 ^ 29 - c.ttcr % 2 ^ 28 - 1) % 2 ^ 28

-- A 32-bit timer in mode 3 with its interrupt enabled and accepted.
pub record IsRunning (c : Cpu) : Type 0 where
  pub counter : c.ttcr < 2 ^ 32
  pub mode : c.ttmr / 2 ^ 29 ≡ 7
  pub accepts : has c.sr k_tee ≡ true

module _ (c : Cpu) (r : IsRunning c) where
  early : 0 < rounds_left c → (tick_interrupts c ≡ false) × (tick c ≡ counting c)
  early h = ground (arith, r.mode, r.accepts, tick_lem c)

  late :
      rounds_left c ≡ 0
      → (tick_interrupts c ≡ true)
        × (tick c ≡ record (counting c) { ttmr = bit_or c.ttmr (2 ^ 28) })
  late h = ground (arith, r.mode, r.accepts, tick_lem c)

  -- A count leaves one round less.
  counted : (c' : Cpu) → SameTimer (counting c) c' → IsRunning c'
  counted c' s = record {
    counter = ground (arith, s.counter);
    mode = rw s.mode r.mode;
    accepts = s.accepts ∙ r.accepts;
  }

  one_less :
      (c' : Cpu)
      → SameTimer (counting c) c'
      → 0 < rounds_left c
      → rounds_left c' + 1 ≡ rounds_left c
  one_less c' s h = rw (s.counter, s.mode) (omega (arith, r.counter))

-- A round of the loop that is early does the instruction, and nothing else.
early_round :
    (m p m' : Machine) (instruction : ℕ)
    → IsRunning m.cpu
    → 0 < rounds_left m.cpu
    → fetch m.bus (counting m.cpu) ≡ ok (fetched instruction p)
    → run_instruction p instruction ≡ ok (record { running = true; machine = m' })
    → cycle m ≡ ok (again m')
unfolding cycle execute
early_round m p m' instruction r left fetches runs =
    let (quiet, counts) = early m.cpu r left in rw (quiet, counts, fetches, runs) refl

-- From a machine on, after a number of rounds, the loop ends in the handler of the timer, however
-- many rounds are left, and the bus is that of the last round.
pub record InHandler (m : Machine) (n : ℕ) (m' : Machine) : Type 0 where
  pub after : Cpu
  pub entered : IsEntered m'.cpu tick_timer_interrupt 0 after
  pub loops :
      (k : ℕ)
      → run_loop (n + suc k) m
        ≡ ok (record { running = true; machine = record { cpu = after; bus = m'.bus } })

-- The handler is entered from where the processor stood before the tick.
fires_now :
    (m : Machine)
    → IsRunning m.cpu
    → rounds_left m.cpu ≡ 0
    → (c : Cpu) × IsEntered m.cpu tick_timer_interrupt 0 c
      × ((k : ℕ)
          → run_loop (suc k) m
            ≡ ok (record { running = true; machine = record { cpu = c; bus = m.bus } }))
unfolding run_loop continue_with cycle interrupted
fires_now m r none =
    let (due, ticks) = late m.cpu r none in
    let ticked = record (counting m.cpu) { ttmr = bit_or m.cpu.ttmr (2 ^ 28) } in
    let (c, throws, e) = throw_exception-IsEntered ticked tick_timer_interrupt 0 in
    (
      c,
      record {
        pc = e.pc;
        sr = e.sr;
        epcr0 = e.epcr0;
        esr0 = e.esr0;
        eear0 = e.eear0;
        no_delay = e.no_delay;
        immu_off = e.immu_off;
        dmmu_off = e.dmmu_off;
        no_page = e.no_page;
        regs = e.regs;
      },
      λ k. rw (due, ticks, throws) refl,
    )

-- The loop after one round that is early.
loops_on : (m m' : Machine) (k : ℕ) → cycle m ≡ ok (again m') → run_loop (suc k) m ≡ run_loop k m'
unfolding run_loop continue_with
loops_on m m' k e = rw e refl

-- One round after the other, up to the count that meets the period.
pub record GoesOn (n : ℕ) (m m' : Machine) : Type 0 where
  pub running : IsRunning m'.cpu
  pub left : rounds_left m'.cpu + n ≡ rounds_left m.cpu
  pub loops : (k : ℕ) → run_loop (n + k) m ≡ run_loop k m'

Undisturbed-GoesOn :
    {n : ℕ} {m m' : Machine}
    → Undisturbed n m m'
    → IsRunning m.cpu
    → n ≤ rounds_left m.cpu
    → GoesOn n m m'
Undisturbed-GoesOn (none_yet {m}) r h = record {
  running = r;
  left = omega arith;
  loops = λ k. let e : 0 + k ≡ k = omega arith in rw e refl;
}
Undisturbed-GoesOn (and_then {n} {m} {m'} {p} i fetches runs same later) r h =
    let round = early_round m p m' i r (omega arith) fetches runs in
    let less = one_less m.cpu r m'.cpu same (omega arith) in
    let rest = Undisturbed-GoesOn later (counted m.cpu r m'.cpu same) (omega (arith, less)) in
    record {
      running = rest.running;
      left = omega (arith, less, rest.left);
      loops = λ k.
          let e : suc n + k ≡ suc (n + k) = omega arith in
          rw e (loops_on m m' (n + k) round ∙ rest.loops k);
    }

-- Take a 32-bit tick timer in mode 3 whose interrupt is enabled and accepted, and a number of
-- instructions, each fetched and run with the counter one further, none of which changes the timer
-- or whether its interrupt is accepted, or stops the run. Let the rounds that are left be those
-- until the count would meet the period in 28 bits; they are fewer than 2 ^ 28. For as many
-- instructions as that or fewer, the loop of CPU::Run does just these, one in each round, and goes
-- on behind them. After exactly as many, the next round does no instruction: the loop returns in
-- the handler of the tick timer, entered from where the processor stood, with the bus as it was,
-- however many cycles were left.
pub timer-fires :
    (m m' : Machine) (n : ℕ)
    → IsRunning m.cpu
    → Undisturbed n m m'
    → n ≤ rounds_left m.cpu
    → (rounds_left m.cpu < 2 ^ 28)
      × ((k : ℕ) → run_loop (n + k) m ≡ run_loop k m')
      × (n ≡ rounds_left m.cpu → InHandler m n m')
timer-fires m m' n r u h =
    let g = Undisturbed-GoesOn u r h in
    (
      omega arith,
      g.loops,
      λ e.
          let (c, entered, loops) = fires_now m' g.running (omega (arith, g.left)) in
          record { after = c; entered = entered; loops = λ k. g.loops (suc k) ∙ loops k },
    )
