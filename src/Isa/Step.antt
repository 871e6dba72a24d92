-- ===== src/Isa/Step.antt =====
-- One round of the loop of `CPU::Run`, from the fetch of an instruction to its effect.
use simctty.Prelude.{
  ℕ, ◌*◌, ◌/◌, ◌%◌, ◌^◌, ◌≤◌, ◌<◌, ◌≡◌, ◌∙◌, ap, arith, bit_and, ◌==◌, false, ok, ◌>>=◌,
}
use simctty.Prelude.Bits.{page_base, page_offset}
use simctty.Ram.{max_ram_address}
use simctty.Ram.Memory
use simctty.Ram.Guest.{guest, read32-guest}
use simctty.Bus.{Bus}
use simctty.Mmu.{map_address}
use simctty.Cpu.State.{Cpu, Machine}
use simctty.Cpu.Run.{
  fetched, fetch, fetch_raw, fetch_mapped, tick, tick_interrupts, cycle, next_cycle, execute,
}
use simctty.Isa.Instruction.{Instruction, word, IsEncodable}
use simctty.Isa.Meaning.{execute_on}
use simctty.Isa.Runs.{run_instruction-word}

-- The processor after the fetch: its counter has moved, and it keeps the page of the instruction.
abbrev pub fetching : Cpu → Cpu
fetching c = record (tick c) {
  pc = c.pc;
  authed_page = c.pc / 8192 * 8192;
  authed_phy = c.pc / 8192 * 8192;
}

-- The page of the instruction is kept.
abbrev pub keeping : Cpu → Cpu
keeping c = record c { authed_page = c.pc / 8192 * 8192; authed_phy = c.pc / 8192 * 8192 }

-- The fetch of an aligned instruction in the memory, with no translation, outside the page kept.
pub fetch-unkept :
    (b : Bus) (c : Cpu)
    → (bit_and c.pc 0xffffe000 == c.authed_page) ≡ false
    → c.immu.is_enabled ≡ false
    → c.pc % 4 ≡ 0
    → c.pc ≤ max_ram_address
    → fetch b c
      ≡ ok (fetched (Memory.load32 (guest b.ram) c.pc) (record { cpu = keeping c; bus = b }))
unfolding fetch map_address fetch_mapped fetch_raw
fetch-unkept b c unkept off aligned room =
    ground (arith, page_base c.pc, page_offset c.pc, read32-guest b.ram c.pc room aligned)

-- The counter of the tick timer is all that a tick changes that a fetch could see.
tick-same :
    (c : Cpu)
    → ((tick c).pc ≡ c.pc)
      × ((tick c).immu ≡ c.immu)
      × ((tick c).authed_page ≡ c.authed_page)
      × ((tick c).reg ≡ c.reg)
unfolding tick
tick-same c = ground arith

no_page_kept : (pc : ℕ) → pc ≤ max_ram_address → (bit_and pc 0xffffe000 == 1) ≡ false
no_page_kept pc room = ground (arith, page_base pc)

-- With general registers of 32 bits, no interrupt of the timer due, no translation of instructions
-- and no page kept: a round of the loop of CPU::Run, at the aligned address in the memory of the
-- word of an instruction whose operands fit their fields, has the effect of that instruction on
-- the processor as the fetch leaves it, and goes on unless the instruction stops.
pub cycle-executes :
    (m : Machine) (i : Instruction)
    → ((r : ℕ) → r < 32 → m.cpu.reg r < 2 ^ 32)
    → IsEncodable i
    → tick_interrupts m.cpu ≡ false
    → m.cpu.immu.is_enabled ≡ false
    → m.cpu.authed_page ≡ 1
    → m.cpu.pc % 4 ≡ 0
    → m.cpu.pc ≤ max_ram_address
    → Memory.load32 (guest m.bus.ram) m.cpu.pc ≡ word i
    → cycle m ≡ (execute_on m.bus (fetching m.cpu) i >>= λ r. ok (next_cycle r))
unfolding cycle execute
cycle-executes m i words encodable no_tick off no_page aligned room found =
    let (pc, immu, page, reg) = tick-same m.cpu in
    let reads =
      fetch-unkept m.bus (tick m.cpu) (rw (pc, page, no_page) (no_page_kept m.cpu.pc room))
        (ap (λ u. u.is_enabled) immu ∙ off) (rw pc aligned) (rw pc room) in
    let runs =
      run_instruction-word (record { cpu = fetching m.cpu; bus = m.bus }) i (rw reg words)
        encodable in
    rw (no_tick, reads, pc, found, runs)
