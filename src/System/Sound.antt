-- ===== src/System/Sound.antt =====
-- The machines that simctty/system.cc makes and loads are in good order.
use simctty.Prelude.{
  ℕ, zero, suc, ◌%◌, ◌^◌, ◌≤◌, ◌<◌, ◌≡◌, refl, arith, Bool, true, List, [], ◌∷◌, bit_xor, some,
  length, get_or, Returns, Returns-ok, Returns-bind, Ensures, Ensures-of, Ensures-ok, Ensures-bind,
}
use simctty.Prelude.Bits.{bit_xor_three}
use simctty.Ram.{Ram, size}
use simctty.Ram.Bytes.{HasBytes}
use simctty.Ram.Guest.{guest}
use simctty.Uart.Valid.{AllBytes}
use simctty.Bus.Valid.{new_bus-IsValid}
use simctty.Mmu
use simctty.Mmu.{Mmu, data_mmu, instruction_mmu}
use simctty.Mmu.Cache.{no_page-IsValid}
use simctty.Cpu.State
use simctty.Cpu.State.{Cpu, Machine, write_sr}
use simctty.Cpu.Valid.{IsValid, HasWords}
use simctty.Cpu.Safety.Dispatch.{IsSound}
use simctty.Ram.Image.{overlay}
use simctty.System.Image.{load_image_file-overlay}
use simctty.System.{new_system, start, load_image_file, load_blocks}

-- What new memory holds is of the types of the members: words of 32 bits.
pub record HasTypes (c : Cpu) : Type 0 where
  pub regs : (i : ℕ) → c.reg i < 2 ^ 32
  pub words : HasWords c
  pub immu_match : (i : ℕ) → c.immu.match_reg i < 2 ^ 32
  pub immu_translate : (i : ℕ) → c.immu.translate_reg i < 2 ^ 32
  pub dmmu_match : (i : ℕ) → c.dmmu.match_reg i < 2 ^ 32
  pub dmmu_translate : (i : ℕ) → c.dmmu.translate_reg i < 2 ^ 32

-- A reset needs the types only.
reset-Returns : (c : Cpu) → HasTypes c → Returns IsValid (State.reset c)
unfolding State.reset State.set_sup_reg State.write_sr Mmu.reset
reset-Returns c h = Returns-ok IsValid _ (record {
  regs = λ i. ground (arith, h.regs i);
  words = ground (arith, h.words);
  immu = no_page-IsValid _ (λ i. ground (arith, h.immu_match i)) h.immu_translate refl;
  dmmu = no_page-IsValid _ (λ i. ground (arith, h.dmmu_match i)) h.dmmu_translate refl;
  page = λ e. absurd (omega arith);
})

IsValid-HasTypes : (c : Cpu) → IsValid c → HasTypes c
IsValid-HasTypes c v = record {
  regs = v.regs;
  words = v.words;
  immu_match = v.immu.match_words;
  immu_translate = v.immu.translate_words;
  dmmu_match = v.dmmu.match_words;
  dmmu_translate = v.dmmu.translate_words;
}

new_cpu-Returns : (c : Cpu) → HasTypes c → Returns IsValid (State.new_cpu c)
unfolding State.new_cpu Mmu.new_mmu Mmu.reset
new_cpu-Returns c h = reset-Returns _ (record {
  regs = h.regs;
  words = ground (arith, h.words);
  immu_match = λ i. ground (arith, h.immu_match i);
  immu_translate = h.immu_translate;
  dmmu_match = λ i. ground (arith, h.dmmu_match i);
  dmmu_translate = h.dmmu_translate;
})

pub new_system-IsSound :
    (ram : Ram) (unset : Cpu)
    → HasBytes ram
    → HasTypes unset
    → Returns IsSound (new_system ram unset)
unfolding new_system
new_system-IsSound ram unset bytes h =
    Returns-bind IsValid IsSound _ _ (new_cpu-Returns unset h)
      (λ c v. Returns-ok IsSound _ (record { cpu = v; bus = new_bus-IsValid ram bytes }))

at_pc : (c : Cpu) (pc : ℕ) → IsValid c → pc < 2 ^ 32 → IsValid (State.set_pc c pc)
unfolding State.set_pc
at_pc c pc v h = record {
  regs = v.regs;
  words = ground (arith, v.words);
  immu = v.immu;
  dmmu = v.dmmu;
  page = v.page;
}

start-IsSound : (m : Machine) (pc : ℕ) → IsSound m → pc < 2 ^ 32 → Returns IsSound (start m pc)
unfolding start
start-IsSound m pc s h =
    Returns-bind IsValid IsSound _ _ (reset-Returns m.cpu (IsValid-HasTypes m.cpu s.cpu))
      (λ c v. Returns-ok IsSound _ (record { cpu = at_pc c pc v h; bus = s.bus }))

get_or-lt : (file : List ℕ) (i : ℕ) → AllBytes file → get_or file i 0 < 2 ^ 8
get_or-lt [] i h = omega arith
get_or-lt (x ∷ xs) zero h = h.0
get_or-lt (x ∷ xs) (suc i) h = get_or-lt xs i h.1

xor3_twice : (i : ℕ) → bit_xor (bit_xor i 3) 3 ≡ i
xor3_twice i = omega (arith, bit_xor_three i, bit_xor_three (bit_xor i 3))

-- A memory whose guest bytes come from a file and from a memory of bytes.
overlay-HasBytes :
    (old r : Ram) (file : List ℕ)
    → HasBytes old
    → AllBytes file
    → ((x : ℕ) → guest r x ≡ overlay (guest old) file 0 (length file) x)
    → HasBytes r
overlay-HasBytes old r file bytes h holds = record {
  bytes = λ i.
      ground
        (arith, xor3_twice i, holds (bit_xor i 3), bytes.bytes i, get_or-lt file (bit_xor i 3) h);
}

abbrev HasValidCpu : Bool × Machine → Type 0
HasValidCpu l = IsValid l.1.cpu

load_image_file-cpu :
    (m : Machine) (file buffer : List ℕ) (pc : ℕ)
    → IsSound m
    → pc < 2 ^ 32
    → Ensures HasValidCpu (load_image_file m (some file) buffer pc)
unfolding load_image_file
load_image_file-cpu m file buffer pc s h =
    let started = start-IsSound m pc s h in
    let blocks = load_blocks (length file) buffer file 0 started.value.bus.ram in
    rw started.returns (
      Ensures-bind (λ (r : Ram). Unit {0}) HasValidCpu blocks _
        (Ensures-of (λ (r : Ram). Unit {0}) blocks (λ r e. tt)) (λ r q. started.holds.cpu))

pub load_image_file-IsSound :
    (m : Machine) (file buffer : List ℕ) (pc : ℕ)
    → IsSound m
    → pc < 2 ^ 32
    → AllBytes file
    → length file % 4 ≡ 0
    → length file ≤ size
    → Returns
        (λ (l : Bool × Machine). (l.0 ≡ true) × IsSound l.1)
        (load_image_file m (some file) buffer pc)
load_image_file-IsSound m file buffer pc s h bytes words room =
    let (c, r, loads, reset, holds) = load_image_file-overlay m file buffer pc words room in
    let v = Ensures-ok HasValidCpu _ loads (load_image_file-cpu m file buffer pc s h) in
    record {
      value = _;
      returns = loads;
      holds = (
        refl,
        record {
          cpu = v;
          bus = record {
            ram = overlay-HasBytes m.bus.ram r file s.bus.ram bytes holds;
            uart = s.bus.uart;
          };
        },
      );
    }
