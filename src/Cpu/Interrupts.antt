-- ===== src/Cpu/Interrupts.antt =====
-- `CheckInterrupts` and the tick timer of `CPU::Run`.
use simctty.Prelude.{
  ℕ, ◌+◌, ◌/◌, ◌%◌, ◌^◌, ◌<◌, ◌≡◌, refl, ap, ◌∙◌, arith, bit_and, bit_or, Bool, true, false, ◌&&◌,
  ◌==◌, if◌then◌else◌, has, ok,
}
use Prim.Native.Nat.{bit_and-bitwise}
use simctty.Prelude.Bits.{has_bit, bit_and_ones, bit_and_low}
use simctty.Exception.{external_interrupt}
use simctty.Uart.{is_interrupt_asserted}
use simctty.Bus.{Bus, interrupts}
use simctty.Cpu.State.{Cpu, Machine}
use simctty.Cpu.Control.{sample_lines, check_interrupts}
use simctty.Cpu.Exceptions.{IsEntered, throw_exception-IsEntered}
use simctty.Cpu.Run.{tick, tick_matches, tick_interrupts}

-- The value of the status register of the controller while the port asks, or not.
abbrev pub level : Bool → ℕ
level true = 4
level false = 0

-- What the controller remembers: a change of the line to asserted, until the processor takes it or
-- the line goes away.
abbrev pub is_pending : Cpu → Bool → Bool
is_pending c line = if level line == c.picsr then c.pending_interrupt else line

-- The processor takes interrupts, and those of the port are not masked.
abbrev pub accepts : Cpu → Bool
accepts c = has c.sr 4 && has c.picmr 4

abbrev pub sampled : Cpu → Bool → Cpu
sampled c line = record c { picsr = level line; pending_interrupt = is_pending c line }

-- No bit of 0 is set.
zero_and : (x : ℕ) → bit_and 0 x ≡ 0
zero_and x = simp bit_and-bitwise refl

masked : (line : Bool) (x : ℕ) → has (level line) x ≡ (line && has x 4)
masked true x = ground (
  arith,
  bit_and_low 4 x,
  bit_and_low 2 (x / 2),
  bit_and_low 1 (x / 2 / 2),
  has_bit x 2,
  zero_and (x / 2 / 2 / 2),
)
masked false x = ground (arith, zero_and x)

sample_lines-sampled : (c : Cpu) (line : Bool) → sample_lines c (level line) ≡ sampled c line
unfolding sample_lines
sample_lines-sampled c true = ground arith
sample_lines-sampled c false = ground arith

interrupts-level : (b : Bus) → interrupts b ≡ level (is_interrupt_asserted b.uart)
unfolding interrupts
interrupts-level b = ground arith

reorder : (s p line q : Bool) → (s && p && (line && q)) ≡ (line && p && (s && q))
reorder true true true q = refl
reorder true true false q = refl
reorder true false true q = refl
reorder true false false q = refl
reorder false true true q = refl
reorder false true false q = refl
reorder false false true q = refl
reorder false false false q = refl

-- CheckInterrupts takes the interrupt of the serial port exactly if the port asks for it, the
-- controller remembers that it has begun to ask, and the supervision register and the mask accept
-- it. Then the processor is in the handler of external interrupts and nothing is remembered;
-- otherwise it only samples the line. The bus is untouched.
pub check_interrupts_lem :
    (m : Machine)
    → let line = is_interrupt_asserted m.bus.uart in
      let c = sampled m.cpu line in
      ((line && is_pending m.cpu line && accepts m.cpu) ≡ false
        → check_interrupts m ≡ ok (record m { cpu = c }))
      × ((line && is_pending m.cpu line && accepts m.cpu) ≡ true
          → (c' : Cpu) × IsEntered c external_interrupt 0 c'
            × (check_interrupts m
                ≡ ok (record m { cpu = record c' { pending_interrupt = false } })))
unfolding check_interrupts
check_interrupts_lem m =
    let line = is_interrupt_asserted m.bus.uart in
    let (c', throws, entered) =
      throw_exception-IsEntered (sampled m.cpu line) external_interrupt 0 in
    let now : sample_lines m.cpu (interrupts m.bus) ≡ sampled m.cpu line =
      ap (λ n. sample_lines m.cpu n) (interrupts-level m.bus) ∙ sample_lines-sampled m.cpu line in
    rw
      (
        now,
        masked line m.cpu.picmr,
        reorder (has m.cpu.sr 4) (is_pending m.cpu line) line (has m.cpu.picmr 4),
      )
      (λ no. rw no, λ yes. (c', entered, rw (yes, throws)))

-- The condition of the source, in arithmetic.
tick_matches-due :
    (c : Cpu)
    → c.ttmr < 2 ^ 32
    → tick_matches c ≡ (c.ttmr / 2 ^ 29 == 7 && c.ttcr % 2 ^ 28 == c.ttmr % 2 ^ 28)
unfolding tick_matches
tick_matches-due c h =
    ground (arith, bit_and_ones 28 c.ttcr, bit_and_ones 28 c.ttmr, bit_and_ones 1 (c.ttmr / 2 ^ 29))

set_pending :
    (d : Bool) (c : Cpu) (v : ℕ)
    → (if d then record c { ttmr = v } else c) ≡ record c { ttmr = if d then v else c.ttmr }
set_pending true c v = refl
set_pending false c v = refl

-- With a timer mode register of 32 bits: a round of the loop ends by the interrupt of the tick
-- timer exactly if the timer counts continuously (its mode is 3), its interrupt is enabled, the
-- new count equals the period in 28 bits, and the processor takes the interrupt. The counter wraps
-- at 2 ^ 32, and a tick sets bit 28 of the mode register at such a match and changes nothing else.
pub tick_lem :
    (c : Cpu)
    → c.ttmr < 2 ^ 32
    → let count = (c.ttcr + 1) % 2 ^ 32 in
      let due : Bool = c.ttmr / 2 ^ 29 == 7 && count % 2 ^ 28 == c.ttmr % 2 ^ 28 in
      (tick_interrupts c ≡ (due && has c.sr 2))
      × (tick c ≡ record c { ttcr = count; ttmr = if due then bit_or c.ttmr (2 ^ 28) else c.ttmr })
unfolding tick tick_interrupts
tick_lem c h =
    let counted = record c { ttcr = (c.ttcr + 1) % 2 ^ 32 } in
    (
      rw (tick_matches-due counted h),
      rw (tick_matches-due counted h) (set_pending _ counted (bit_or c.ttmr (2 ^ 28))),
    )
