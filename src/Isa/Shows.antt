-- ===== src/Isa/Shows.antt =====
-- How the processor of simctty/cpu.cc stands for what a program has done so far, and that each
-- instruction keeps it so.
use simctty.Prelude.{
  ℕ, ◌^◌, ◌<◌, ◌≡◌, refl, ◌∙◌, arith, bit_or, bit_and, Bool, true, false, has, not32, add32,
  if◌then◌else◌,
}
use simctty.Prelude.Bits.{has-set, has-cleared, has-or, has-and}
use simctty.Ram.Guest.{guest}
use simctty.Bus.{Bus}
use simctty.Mmu.Physical.{IsOff}
use simctty.Cpu.State.{Cpu, k_f, k_sm}
use simctty.Cpu.Control.{increment_pc, jump, set_compare_flag}
use simctty.Cpu.Exec.{write_reg}
use simctty.Isa.Reference.{View, move_to, advance, with_reg, with_flag, after_jump}

-- Where the processor goes on, in a delay slot or not.
abbrev pub next_of : Cpu → ℕ
next_of c = if c.in_delay_slot then c.delayed_next_pc else add32 c.pc 4

pub record Shows (b : Bus) (c : Cpu) (v : View) : Type 0 where
  pub pc : c.pc ≡ v.pc
  pub next : next_of c ≡ v.next_pc
  pub regs : (r : ℕ) → r < 32 → c.reg r ≡ v.reg r
  pub words : (r : ℕ) → r < 32 → v.reg r < 2 ^ 32
  pub flag : has c.sr k_f ≡ v.flag
  pub supervisor : has c.sr k_sm ≡ true
  pub memory : (x : ℕ) → guest b.ram x ≡ v.memory x
  pub bytes : (x : ℕ) → v.memory x < 2 ^ 8
  pub port : b.uart ≡ v.port

-- What the fetches and accesses depend on.
pub record Kept (c c' : Cpu) : Type 0 where
  pub immu : c'.immu ≡ c.immu
  pub dmmu : IsOff c'.dmmu
  pub ttmr : c'.ttmr ≡ c.ttmr
  pub page : c'.authed_page ≡ c.authed_page
  pub phy : c'.authed_phy ≡ c.authed_phy

flag-set : (s : ℕ) (t : Bool) → has (if t then bit_or s k_f else bit_and s (not32 k_f)) k_f ≡ t
flag-set s true = has-set s 9
flag-set s false = has-cleared s 9 (not32 k_f) refl

flag-same :
    (s : ℕ) (t : Bool) → has (if t then bit_or s k_f else bit_and s (not32 k_f)) k_sm ≡ has s k_sm
flag-same s true = has-or s 0 k_f refl
flag-same s false = has-and s 0 (not32 k_f) refl

module _ (b : Bus) (c : Cpu) (v : View) (s : Shows b c v) where
  pub write_reg-Shows : (d x : ℕ) → x < 2 ^ 32 → Shows b (write_reg c d x) (with_reg v d x)
  write_reg-Shows d x h = record {
    pc = s.pc;
    next = s.next;
    regs = λ r p. ground (arith, s.regs r p);
    words = λ r p. ground (arith, s.words r p);
    flag = s.flag;
    supervisor = s.supervisor;
    memory = s.memory;
    bytes = s.bytes;
    port = s.port;
  }

  pub increment_pc-Shows : Shows b (increment_pc c) (advance v)
  unfolding increment_pc
  increment_pc-Shows = record {
    pc = s.next;
    next = ground (arith, s.next);
    regs = s.regs;
    words = s.words;
    flag = s.flag;
    supervisor = s.supervisor;
    memory = s.memory;
    bytes = s.bytes;
    port = s.port;
  }

  pub jump-Shows : (target : ℕ) → after_jump v ≡ false → Shows b (jump c target) (move_to v target)
  unfolding jump
  jump-Shows target e = record {
    pc = ground (arith, s.pc, s.next);
    next = refl;
    regs = s.regs;
    words = s.words;
    flag = s.flag;
    supervisor = s.supervisor;
    memory = s.memory;
    bytes = s.bytes;
    port = s.port;
  }

  pub set_compare_flag-Shows : (t : Bool) → Shows b (set_compare_flag c t) (with_flag v t)
  set_compare_flag-Shows t = record {
    pc = s.pc;
    next = s.next;
    regs = s.regs;
    words = s.words;
    flag = flag-set c.sr t;
    supervisor = flag-same c.sr t ∙ s.supervisor;
    memory = s.memory;
    bytes = s.bytes;
    port = s.port;
  }
