-- ===== src/Cpu/Exceptions.antt =====
-- `ThrowException` and l.rfe: entering a handler, and coming back.
use simctty.Prelude.{
  ℕ, ◌≡◌, refl, ap, arith, bit_or, true, false, if◌then◌else◌, has, sub32, ok, ◌>>=◌,
}
use simctty.Exception.{Exception, exception_handlers}
use simctty.Bus.{Bus}
use simctty.Cpu.State.{Cpu, write_sr, set_sup_reg, k_dsx, k_ime, k_dme}
use simctty.Cpu.Control.{throw_exception}
use simctty.Cpu.Exec.{return_from_exception}

pub set_sup_reg-write_sr : (c : Cpu) (v : ℕ) → set_sup_reg c v ≡ ok (write_sr c v)
unfolding set_sup_reg
set_sup_reg-write_sr c v = refl

-- The instruction to go back to: in a delay slot it is the branch, one word earlier.
abbrev pub resume_pc : Cpu → ℕ
resume_pc c = if c.in_delay_slot then sub32 c.pc 4 else c.pc

-- The saved supervision register, which records the delay slot.
abbrev pub saved_sr : Cpu → ℕ
saved_sr c = if c.in_delay_slot then bit_or c.sr k_dsx else c.sr

-- What the processor looks like in the handler of an exception.
pub record IsEntered (c : Cpu) (e : Exception) (ea : ℕ) (c' : Cpu) : Type 0 where
  pub pc : c'.pc ≡ (exception_handlers e).pc
  pub sr : c'.sr ≡ 0x8001
  pub epcr0 : c'.epcr0 ≡ resume_pc c
  pub esr0 : c'.esr0 ≡ saved_sr c
  pub eear0 : c'.eear0 ≡ (if (exception_handlers e).sets_eear then ea else c.eear0)
  pub no_delay : c'.in_delay_slot ≡ false
  pub immu_off : c'.immu.is_enabled ≡ false
  pub dmmu_off : c'.dmmu.is_enabled ≡ false
  pub no_page : (c'.authed_page ≡ 1) × (c'.immu.authed_page ≡ 1) × (c'.dmmu.authed_page ≡ 1)
  pub regs : c'.reg ≡ c.reg

-- ThrowException always returns, in the handler of the exception: supervisor mode, both
-- translations and all interrupts off, no page cached and no delay slot; where to resume and the
-- old supervision register are saved, the effective address is set where the handler's entry says
-- so, and the general registers are unchanged.
pub throw_exception-IsEntered :
    (c : Cpu) (e : Exception) (ea : ℕ)
    → (c' : Cpu) × (throw_exception c e ea ≡ ok c') × IsEntered c e ea c'
unfolding throw_exception set_sup_reg write_sr
throw_exception-IsEntered c e ea = (
  _,
  refl,
  record {
    pc = refl;
    sr = ground arith;
    epcr0 = ground arith;
    esr0 = ground arith;
    eear0 = ground arith;
    no_delay = ground arith;
    immu_off = ground arith;
    dmmu_off = ground arith;
    no_page = ground arith;
    regs = ground arith;
  },
)

-- What l.rfe leaves of a processor in a handler: it is back at the saved place.
pub record IsResumed (c c' : Cpu) : Type 0 where
  pub pc : c'.pc ≡ resume_pc c
  pub sr : c'.sr ≡ saved_sr c
  pub no_delay : c'.in_delay_slot ≡ false
  pub immu_switch : c'.immu.is_enabled ≡ has (saved_sr c) k_ime
  pub dmmu_switch : c'.dmmu.is_enabled ≡ has (saved_sr c) k_dme
  pub regs : c'.reg ≡ c.reg

abbrev resumed : Cpu → Cpu
resumed t = record (write_sr (record t { pc = t.epcr0 }) t.esr0) { in_delay_slot = false }

-- l.rfe straight after ThrowException comes back: to the instruction, or to the branch in whose
-- delay slot it stood, with the saved supervision register, the translations switched as that
-- says, and the general registers as they were.
pub throw_exception-return :
    (b : Bus) (c : Cpu) (e : Exception) (ea : ℕ)
    → (c' : Cpu) × ((throw_exception c e ea >>= return_from_exception b)
        ≡ ok (record { running = true; machine = record { cpu = c'; bus = b } }))
      × IsResumed c c'
unfolding return_from_exception set_sup_reg write_sr
throw_exception-return b c e ea =
    let (t, returns, entered) = throw_exception-IsEntered c e ea in
    (
      resumed t,
      rw returns,
      record {
        pc = entered.epcr0;
        sr = entered.esr0;
        no_delay = refl;
        immu_switch = ap (λ v. has v k_ime) entered.esr0;
        dmmu_switch = ap (λ v. has v k_dme) entered.esr0;
        regs = entered.regs;
      },
    )
