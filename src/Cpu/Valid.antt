-- ===== src/Cpu/Valid.antt =====
-- The processor of simctty/cpu.cc in good order: registers of 32 bits, valid MMUs, and a page kept
-- for fetches that lies in the memory; and the ways in which an instruction moves it on.
pub mod Special
use simctty.Prelude.{
  ℕ, ◌+◌, ◌-◌, ◌%◌, ◌^◌, ◌≤◌, ◌<◌, ◌≡◌, refl, arith, bit_and, bit_or, Bool, has, u32, add32, ok,
  update, Returns,
}
use simctty.Prelude.Bits.{bit_or-lt, bit_and-le}
use simctty.Exception.{Exception, exception_handlers}
use simctty.Ram.{max_ram_address}
use simctty.Mmu.{Mmu, set_is_enabled, clear_fast_auth_cache}
use simctty.Mmu.Cache
use simctty.Mmu.Cache.{set_is_enabled-IsValid, clear_fast_auth_cache-IsValid}
use simctty.Cpu.State.{Cpu, write_sr, k_f, k_ime, k_dme}
use simctty.Cpu.Control.{throw_exception, increment_pc, jump, set_compare_flag, sample_lines}
use simctty.Cpu.Exec.{write_reg}
use simctty.Cpu.Run.{tick}

-- The registers outside the general ones.
pub record HasWords (c : Cpu) : Type 0 where
  pub pc : c.pc < 2 ^ 32
  pub sr : c.sr < 2 ^ 32
  pub epcr0 : c.epcr0 < 2 ^ 32
  pub eear0 : c.eear0 < 2 ^ 32
  pub esr0 : c.esr0 < 2 ^ 32
  pub picmr : c.picmr < 2 ^ 32
  pub picsr : c.picsr < 2 ^ 32
  pub ttmr : c.ttmr < 2 ^ 32
  pub ttcr : c.ttcr < 2 ^ 32
  pub delayed : c.delayed_next_pc < 2 ^ 32
  pub immu_control : c.immu.control_register < 2 ^ 32
  pub dmmu_control : c.dmmu.control_register < 2 ^ 32

-- The page that is kept for fetches.
abbrev pub KeepsPage : ℕ → ℕ → Type 0
KeepsPage page phy = page % 8192 ≡ 0 → (phy % 8192 ≡ 0) × (phy + 8191 ≤ max_ram_address)

pub record IsValid (c : Cpu) : Type 0 where
  pub regs : (i : ℕ) → c.reg i < 2 ^ 32
  pub words : HasWords c
  pub immu : Cache.IsValid c.immu
  pub dmmu : Cache.IsValid c.dmmu
  pub page : KeepsPage c.authed_page c.authed_phy

module _ (c : Cpu) (v : IsValid c) where
  pub write_reg-IsValid : (d value : ℕ) → value < 2 ^ 32 → IsValid (write_reg c d value)
  write_reg-IsValid d value h = record {
    regs = λ i. ground (arith, v.regs i);
    words = ground (arith, v.words);
    immu = v.immu;
    dmmu = v.dmmu;
    page = v.page;
  }

  pub increment_pc-IsValid : IsValid (increment_pc c)
  unfolding increment_pc
  increment_pc-IsValid = record {
    regs = v.regs;
    words = ground (arith, v.words);
    immu = v.immu;
    dmmu = v.dmmu;
    page = v.page;
  }

  pub jump-IsValid : (target : ℕ) → target < 2 ^ 32 → IsValid (jump c target)
  unfolding jump
  jump-IsValid target h = record {
    regs = v.regs;
    words = ground (arith, v.words);
    immu = v.immu;
    dmmu = v.dmmu;
    page = v.page;
  }

  pub set_compare_flag-IsValid : (flag : Bool) → IsValid (set_compare_flag c flag)
  set_compare_flag-IsValid flag = record {
    regs = v.regs;
    words = ground (
      arith,
      v.words,
      bit_or-lt 32 c.sr k_f,
      bit_and-le (2 ^ 32 - 1 - k_f) c.sr (2 ^ 32 - 1 - k_f),
    );
    immu = v.immu;
    dmmu = v.dmmu;
    page = v.page;
  }

  pub tick-IsValid : IsValid (tick c)
  unfolding tick
  tick-IsValid = record {
    regs = ground (arith, v.regs);
    words = ground (arith, v.words, bit_or-lt 32 c.ttmr 0x10000000);
    immu = ground (arith, v.immu);
    dmmu = ground (arith, v.dmmu);
    page = ground (arith, v.page);
  }

  pub sample_lines-IsValid : (lines : ℕ) → lines < 2 ^ 32 → IsValid (sample_lines c lines)
  unfolding sample_lines
  sample_lines-IsValid lines h = record {
    regs = ground (arith, v.regs);
    words = ground (arith, v.words);
    immu = ground (arith, v.immu);
    dmmu = ground (arith, v.dmmu);
    page = ground (arith, v.page);
  }

  -- A new supervision register forgets the pages.
  pub write_sr-IsValid : (value : ℕ) → value < 2 ^ 32 → IsValid (write_sr c value)
  unfolding write_sr
  write_sr-IsValid value h = record {
    regs = v.regs;
    words = ground (arith, v.words);
    immu = clear_fast_auth_cache-IsValid _ (set_is_enabled-IsValid c.immu (has value k_ime) v.immu);
    dmmu = clear_fast_auth_cache-IsValid _ (set_is_enabled-IsValid c.dmmu (has value k_dme) v.dmmu);
    page = λ e. absurd (omega arith);
  }
