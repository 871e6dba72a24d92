-- ===== src/System/Start.antt =====
-- `CPU::Reset`, which every load of an image runs first.
use simctty.Prelude.{ℕ, ◌<◌, ◌≡◌, refl, arith, false, ok}
use simctty.Mmu
use simctty.Cpu.State
use simctty.Cpu.State.{Cpu, Machine}
use simctty.System.{start, new_system}
use simctty.Ram.{Ram}
use simctty.Bus.{new_bus}

-- A processor after a reset, at an address: supervisor mode, no translation, no page cached, all
-- general registers 0, no interrupt, and no delay slot.
pub record IsReset (c : Cpu) (pc : ℕ) : Type 0 where
  pub at : c.pc ≡ pc
  pub sr : c.sr ≡ 0x8001
  pub zero : (r : ℕ) → r < 32 → c.reg r ≡ 0
  pub no_page : (c.authed_page ≡ 1) × (c.immu.authed_page ≡ 1) × (c.dmmu.authed_page ≡ 1)
  pub mmus_off : (c.immu.is_enabled ≡ false) × (c.dmmu.is_enabled ≡ false)
  pub no_match : (i : ℕ) → i < 128 → (c.immu.match_reg i ≡ 0) × (c.dmmu.match_reg i ≡ 0)
  pub quiet : (c.pending_interrupt ≡ false) × (c.ttmr ≡ 0) × (c.picmr ≡ 0)
  pub no_delay : c.in_delay_slot ≡ false

pub start-IsReset :
    (m : Machine) (pc : ℕ)
    → (c : Cpu) × (start m pc ≡ ok (record { cpu = c; bus = m.bus })) × IsReset c pc
unfolding start State.reset State.set_sup_reg State.set_pc State.write_sr Mmu.reset
start-IsReset m pc = (
  _,
  refl,
  record {
    at = refl;
    sr = refl;
    zero = λ r h. ground arith;
    no_page = (refl, refl, refl);
    mmus_off = (refl, refl);
    no_match = λ i h. (ground arith, ground arith);
    quiet = (refl, refl, refl);
    no_delay = refl;
  },
)

-- A new System is reset, at address 0, with empty queues, whatever the memory of its members held.
pub new_system-IsReset :
    (ram : Ram) (unset : Cpu)
    → (c : Cpu) × (new_system ram unset ≡ ok (record { cpu = c; bus = new_bus ram })) × IsReset c 0
unfolding new_system State.new_cpu State.reset State.set_sup_reg State.write_sr Mmu.reset
    Mmu.new_mmu
new_system-IsReset ram unset = (
  _,
  refl,
  record {
    at = refl;
    sr = refl;
    zero = λ r h. ground arith;
    no_page = (refl, refl, refl);
    mmus_off = (refl, refl);
    no_match = λ i h. (ground arith, ground arith);
    quiet = (refl, refl, refl);
    no_delay = refl;
  },
)
