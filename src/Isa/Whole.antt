-- ===== src/Isa/Whole.antt =====
-- A whole program: assembled by simctty/assembler.cc, loaded as an image and run by simctty/cpu.cc.
use simctty.Prelude.{
  ℕ, ◌*◌, ◌^◌, ◌<◌, bit_xor, ◌≤◌, ◌≡◌, inl, refl, arith, List, [], some, zero, suc, ◌∷◌, length,
  get_elem?, ok, Ensures-ok,
}
use mathlib.Core.Path.{subst}
use simctty.Ram.{size}
use simctty.Ram.Memory.{Memory}
use simctty.Ram.Bytes.{HasBytes}
use simctty.Ram.Guest.{guest}
use simctty.Bus.{Bus, interrupts}
use simctty.Cpu.State.{Cpu, Machine}
use simctty.Cpu.Control.{sample_lines, check_interrupts}
use simctty.Cpu.Run.{run}
use simctty.System.{load_image}
use simctty.System.Start.{IsReset}
use simctty.Isa.Instruction.{Instruction, IsEncodable}
use simctty.Isa.Program.{assembled, program_image, image_memory, image_memory-lt, image_memory-word}
use simctty.Isa.Reference.{Progress, start_view, perform_run}
use simctty.Isa.Shows.{Shows}
use simctty.Isa.Plain.{IsPlain}
use simctty.Isa.Execution.{Holds, Runs, run_loop-Runs}

module _ (c : Cpu) (lines : ℕ) where
  sample_lines-IsPlain : IsPlain c → IsPlain (sample_lines c lines)
  unfolding sample_lines
  sample_lines-IsPlain p = record {
    untranslated = ground (arith, p.untranslated);
    data_off = ground (arith, p.data_off);
    page = ground (arith, p.page);
    no_timer = ground (arith, p.no_timer);
  }

  sample_lines-Shows :
      (b : Bus) (m : Memory) (is : List Instruction) (pc : ℕ)
      → IsReset c pc
      → ((x : ℕ) → guest b.ram x ≡ image_memory m is x)
      → ((x : ℕ) → m x < 2 ^ 8)
      → Shows b (sample_lines c lines) (start_view m b.uart is pc)
  unfolding sample_lines
  sample_lines-Shows b m is pc r holds bytes = record {
    pc = ground (arith, r.at);
    next = ground (arith, r.at, r.no_delay);
    regs = λ q h. ground (arith, r.zero q h);
    words = λ q h. omega arith;
    flag = ground (arith, r.sr);
    supervisor = ground (arith, r.sr);
    memory = holds;
    bytes = λ x. image_memory-lt m is x (bytes x);
    port = refl;
  }

  check_interrupts-reset :
      (b : Bus) (pc : ℕ)
      → IsReset c pc
      → lines ≡ interrupts b
      → check_interrupts (record { cpu = c; bus = b })
        ≡ ok (record { cpu = sample_lines c lines; bus = b })
  unfolding sample_lines check_interrupts
  check_interrupts-reset b pc r e = ground (arith, r.sr)

-- The operands of every instruction fit their fields.
abbrev pub AllEncodable : List Instruction → Type 0
AllEncodable [] = Unit {0}
AllEncodable (i ∷ is) = IsEncodable i × AllEncodable is

AllEncodable-at :
    (is : List Instruction)
    → AllEncodable is
    → (k : ℕ) (i : Instruction) → get_elem? is k ≡ some i
    → IsEncodable i
AllEncodable-at [] h k i e = absurd cc
AllEncodable-at (j ∷ is) h zero i e = let same : j ≡ i = cc in subst IsEncodable same h.0
AllEncodable-at (j ∷ is) h (suc k) i e = AllEncodable-at is h.1 k i e

-- The load of a program and a run of `n` rounds end as the reference says.
pub record IsPerformed (m : Machine) (is : List Instruction) (pc n : ℕ) (p : Progress)
    : Type 0 where
  pub loaded : Machine
  pub after : Machine
  pub loads :
      load_image m (assembled [] is) (length (assembled [] is)) pc
      ≡ ok (length (assembled [] is), loaded)
  pub runs : run loaded n ≡ ok (record { running = p.running; machine = after })
  pub shows : Shows after.bus after.cpu p.view

-- Take a program of the assembler that fits in the memory, whose operands fit their fields, a
-- memory of bytes, and a number n of instructions after which the reference, from any start
-- address with registers of 0, the program in front of the memory and the serial port of the
-- machine, says how things stand. It does as long as the instructions reached are those of the
-- program, no jump is in the delay slot of another, loads and stores are in the memory at
-- multiples of their width or store a byte to the serial port, no store is over the program, no
-- division overflows, and there are no special registers and no exceptions. Then the load of the
-- assembled program succeeds, and CPU::Run for n rounds ends as the reference says: running, or
-- stopped by l.trap or l.nop 1, with its program counter and the one after it, registers, compare
-- flag, memory and serial port.
pub program_runs :
    (m : Machine) (is : List Instruction) (pc n : ℕ) {p : Progress}
    → 4 * length is ≤ size
    → AllEncodable is
    → HasBytes m.bus.ram
    → perform_run n is (start_view (guest m.bus.ram) m.bus.uart is pc) ≡ ok p
    → IsPerformed m is pc n p
unfolding run
program_runs m is pc n {p} room encodable bytes said =
    let old = guest m.bus.ram in
    let (c, r, loads, reset, image) = program_image m is pc room in
    let b = record (m.bus) { ram = r } in
    let c' = sample_lines c (interrupts b) in
    let plain : IsPlain c = record {
      untranslated = reset.mmus_off.0;
      page = inl reset.no_page.0;
      data_off = record { disabled = reset.mmus_off.1; no_page = reset.no_page.2 };
      no_timer = reset.quiet.1;
    } in
    let holds : Holds (image_memory old is) is = record {
      room = room;
      encodable = AllEncodable-at is encodable;
      words = image_memory-word old is;
    } in
    let done = Ensures-ok (Runs b n c') (perform_run n is (start_view old m.bus.uart is pc)) said (
      run_loop-Runs is n b c' (start_view old m.bus.uart is pc)
        (sample_lines-IsPlain c (interrupts b) plain)
        (sample_lines-Shows c (interrupts b) b old is pc reset image
          (λ x. bytes.bytes (bit_xor x 3)))
        holds) in
    record {
      loaded = record { cpu = c; bus = b };
      after = record { cpu = done.after; bus = done.bus };
      loads = loads;
      runs = rw (check_interrupts-reset c (interrupts b) b pc reset refl) done.ends;
      shows = done.shows;
    }
