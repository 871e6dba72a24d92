-- ===== src/Isa/Execution.antt =====
-- A program in the memory, run by the loop of simctty/cpu.cc.
use simctty.Prelude.{
  ℕ, zero, suc, ◌+◌, ◌*◌, ◌/◌, ◌%◌, ◌≤◌, ◌<◌, ◌≡◌, inl, inr, refl, sym, ◌∙◌, arith, Bool-cases,
  ◌==◌, false, List, Option, some, none, length, get_elem?, u32, ok, Ensures, Ensures-map,
  Ensures-bind,
}
use native.Mathlib.Nat.{mod-eq_of_lt}
use simctty.Ram.{max_ram_address, size}
use simctty.Ram.Memory
use simctty.Ram.Guest.{guest}
use simctty.Ram.Memory.{Memory}
use simctty.Bus.{Bus}
use simctty.Cpu.State.{Cpu}
use simctty.Cpu.Run.{
  tick_matches, tick_interrupts, cycle, next_cycle, execute, run_loop, continue_with,
}
use simctty.Isa.Instruction.{Instruction, word, IsEncodable}
use simctty.Isa.Width.{word-lt}
use simctty.Isa.Meaning.{execute_on}
use simctty.Isa.Runs.{run_instruction-word}
use simctty.Isa.Program.{get_elem?-lt}
use simctty.Isa.Plain.{IsPlain, Kept-IsPlain, fetch-Fetches}
use simctty.Isa.Reference.{View, Progress, perform, perform_found, perform_run, instruction_at}
use simctty.Isa.Shows.{Shows}
use simctty.Isa.Performs.{Performs}
use simctty.Isa.Simulation.{perform-Performs}

-- The words of the program are in the memory.
pub record Holds (m : Memory) (is : List Instruction) : Type 0 where
  pub room : 4 * length is ≤ size
  pub encodable : (k : ℕ) (i : Instruction) → get_elem? is k ≡ some i → IsEncodable i
  pub words :
      (k : ℕ) (i : Instruction) → get_elem? is k ≡ some i → Memory.load32 m (4 * k) ≡ u32 (word i)

-- They stay there where the bytes of the program stay.
Holds-low :
    (m n : Memory) (is : List Instruction)
    → ((x : ℕ) → x < 4 * length is → n x ≡ m x)
    → Holds m is
    → Holds n is
Holds-low m n is low h = record {
  room = h.room;
  encodable = h.encodable;
  words = λ k i e.
      let inside = get_elem?-lt is k i e in
      rw
        (
          low (4 * k) (omega arith),
          low (4 * k + 1) (omega arith),
          low (4 * k + 2) (omega arith),
          low (4 * k + 3) (omega arith),
        )
        (h.words k i e);
}

-- An instruction that the reference finds is in the memory.
record Found (m : Memory) (pc : ℕ) (i : Instruction) : Type 0 where
  pub aligned : pc % 4 ≡ 0
  pub inside : pc ≤ max_ram_address
  pub word_at : Memory.load32 m pc ≡ word i
  pub encodable : IsEncodable i

Holds-Found :
    (m : Memory) (is : List Instruction) (pc : ℕ) (i : Instruction)
    → Holds m is
    → instruction_at is pc ≡ some i
    → Found m pc i
Holds-Found m is pc i h e = elim (Bool-cases (pc % 4 == 0)) [
  | inl aligned ↦
      let found : get_elem? is (pc / 4) ≡ some i = ground arith in
      let inside = get_elem?-lt is (pc / 4) i found in
      let place : 4 * (pc / 4) ≡ pc = ground arith in
      record {
        aligned = ground arith;
        inside = omega (arith, h.room);
        word_at =
            rw (sym place) (h.words (pc / 4) i found)
            ∙ mod-eq_of_lt (word-lt i (h.encodable (pc / 4) i found));
        encodable = h.encodable (pc / 4) i found;
      }
  | inr odd ↦ absurd (ground arith)
]

-- A round of the loop does what the reference says, and the bytes below `floor` stay.
record Rounds (b : Bus) (c : Cpu) (v : View) (floor : ℕ) (p : Progress) : Type 0 where
  pub after : Cpu
  pub bus : Bus
  pub ends :
      cycle (record { cpu = c; bus = b })
      ≡ ok
          (next_cycle (record { running = p.running; machine = record { cpu = after; bus = bus } }))
  pub plain : IsPlain after
  pub shows : Shows bus after p.view
  pub low : (x : ℕ) → x < floor → p.view.memory x ≡ v.memory x

-- The loop does what the reference says.
pub record Runs (b : Bus) (n : ℕ) (c : Cpu) (p : Progress) : Type 0 where
  pub after : Cpu
  pub bus : Bus
  pub ends :
      run_loop n (record { cpu = c; bus = b })
      ≡ ok (record { running = p.running; machine = record { cpu = after; bus = bus } })
  pub shows : Shows bus after p.view

no_timer-quiet : (c : Cpu) → c.ttmr ≡ 0 → tick_interrupts c ≡ false
unfolding tick_interrupts tick_matches
no_timer-quiet c e = ground arith

load32-same :
    (m n : Memory) → ((x : ℕ) → m x ≡ n x) → (x : ℕ) → Memory.load32 m x ≡ Memory.load32 n x
load32-same m n same x = rw (same x, same (x + 1), same (x + 2), same (x + 3)) refl

module _ (is : List Instruction) where
  cycle-Rounds :
      (b : Bus) (c : Cpu) (v : View) (i : Instruction)
      → IsPlain c
      → Shows b c v
      → Found v.memory v.pc i
      → Ensures (Rounds b c v (4 * length is)) (perform (4 * length is) v i)
  unfolding cycle execute
  cycle-Rounds b c v i q s found =
      let f = fetch-Fetches b c q (rw s.pc found.aligned) (rw s.pc found.inside) in
      let t = f.shows v s in
      let here = load32-same (guest b.ram) v.memory s.memory v.pc ∙ found.word_at in
      let runs =
        run_instruction-word (record { cpu = f.after; bus = b }) i
          (λ r p. rw (t.regs r p) (t.words r p)) found.encodable in
      Ensures-map (Performs b f.after v (4 * length is) (execute_on b f.after i))
        (Rounds b c v (4 * length is)) (perform (4 * length is) v i)
        (perform-Performs b f.after v (4 * length is) f.plain.data_off t i found.encodable)
        λ p m. record {
          after = m.after;
          bus = m.bus;
          ends = rw (no_timer-quiet c q.no_timer, f.ends, s.pc, here, runs, m.ends) refl;
          plain = Kept-IsPlain f.after m.after m.kept f.plain;
          shows = m.shows;
          low = m.low;
        }

  found-Rounds :
      (b : Bus) (c : Cpu) (v : View) (o : Option Instruction)
      → IsPlain c
      → Shows b c v
      → Holds v.memory is
      → instruction_at is v.pc ≡ o
      → Ensures (Rounds b c v (4 * length is)) (perform_found (4 * length is) v o)
  found-Rounds b c v none q s h e = tt
  found-Rounds b c v (some i) q s h e =
      cycle-Rounds b c v i q s (Holds-Found v.memory is v.pc i h e)

  -- Any number of rounds of the loop do what the reference says, and stop where it stops.
  pub run_loop-Runs :
      (n : ℕ) (b : Bus) (c : Cpu) (v : View)
      → IsPlain c
      → Shows b c v
      → Holds v.memory is
      → Ensures (Runs b n c) (perform_run n is v)
  unfolding run_loop continue_with perform_run
  run_loop-Runs zero b c v q s h = record { after = c; bus = b; ends = refl; shows = s }
  run_loop-Runs (suc n) b c v q s h =
      Ensures-bind (Rounds b c v (4 * length is)) (Runs b (suc n) c)
        (perform_found (4 * length is) v (instruction_at is v.pc)) _
        (found-Rounds b c v (instruction_at is v.pc) q s h refl)
        λ p m. elim (Bool-cases p.running) [
          | inl going ↦
              let later = Holds-low v.memory p.view.memory is m.low h in
              rw going (
                Ensures-map (Runs m.bus n m.after) (Runs b (suc n) c) (perform_run n is p.view)
                  (run_loop-Runs n m.bus m.after p.view m.plain m.shows later)
                  λ p' r. record {
                    after = r.after;
                    bus = r.bus;
                    ends = rw (m.ends, going) r.ends;
                    shows = r.shows;
                  })
          | inr stopped ↦ rw stopped (record {
            after = m.after;
            bus = m.bus;
            ends = rw (m.ends, stopped) refl;
            shows = m.shows;
          })
        ]
