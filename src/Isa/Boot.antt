-- ===== src/Isa/Boot.antt =====
-- From the source of a program to its first step: assembler, image, reset, fetch and execution.
use simctty.Prelude.{
  ℕ, ◌*◌, ◌≤◌, ◌≡◌, ◌∙◌, arith, false, List, [], some, length, get_elem?, ok, ◌>>=◌,
}
use native.Mathlib.Nat.{mod-eq_of_lt}
use simctty.Ram.{size}
use simctty.Ram.Memory
use simctty.Ram.Guest.{guest}
use simctty.Bus.{Bus}
use simctty.Cpu.State.{Cpu, Machine}
use simctty.Cpu.Run.{cycle, tick_interrupts, tick_matches, next_cycle}
use simctty.System.{load_image}
use simctty.System.Start.{IsReset}
use simctty.Isa.Instruction.{Instruction, IsEncodable, word}
use simctty.Isa.Width.{word-lt}
use simctty.Isa.Meaning.{execute_on}
use simctty.Isa.Program.{assembled, program_loaded, get_elem?-lt}
use simctty.Isa.Step.{fetching, cycle-executes}

-- The timer of a processor that was reset does not run.
reset-no_tick : (c : Cpu) (pc : ℕ) → IsReset c pc → tick_interrupts c ≡ false
unfolding tick_interrupts tick_matches
reset-no_tick c pc reset = ground (arith, reset.quiet)

-- Take a program of the assembler that fits in the memory, loaded as an image to start at its
-- instruction k, whose operands fit their fields. The load succeeds and leaves a reset processor
-- at that instruction, and the first round of the loop of CPU::Run then has the described effect
-- of instruction k on that processor as the fetch leaves it, and stops only where that instruction
-- stops.
pub program_starts :
    (m : Machine) (is : List Instruction) (k : ℕ) (i : Instruction)
    → 4 * length is ≤ size
    → get_elem? is k ≡ some i
    → IsEncodable i
    → let image = assembled [] is in
      (c : Cpu) × (b : Bus) × (load_image m image (length image) (4 * k)
        ≡ ok (length image, record { cpu = c; bus = b }))
      × IsReset c (4 * k)
      × (cycle (record { cpu = c; bus = b })
          ≡ (execute_on b (fetching c) i >>= λ r. ok (next_cycle r)))
program_starts m is k i room found encodable =
    let (c, r, loads, reset, words) = program_loaded m is (4 * k) room in
    let b = record (m.bus) { ram = r } in
    let inside = get_elem?-lt is k i found in
    let here : Memory.load32 (guest r) c.pc ≡ word i =
      rw reset.at (words k i found ∙ mod-eq_of_lt (word-lt i encodable)) in
    (
      c,
      b,
      loads,
      reset,
      cycle-executes (record { cpu = c; bus = b }) i (λ q p. rw (reset.zero q p) (omega arith))
          encodable (reset-no_tick c (4 * k) reset) reset.mmus_off.0 reset.no_page.0
          (rw reset.at (omega arith)) (rw reset.at (omega arith)) here,
    )
