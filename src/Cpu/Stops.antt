-- ===== src/Cpu/Stops.antt =====
-- When `RunInstruction` of simctty/cpu.cc returns false.
use simctty.Prelude.{
  ℕ, ◌≡◌, refl, arith, bit_and, bit_or, Bool, true, false, Option, none, some, ◌&&◌, ◌||◌, not,
  ◌==◌, ◌>>>◌, if◌then◌else◌, has, u16, add32, Result, ◌>>=◌, Ensures, Ensures-bind, Ensures-of,
  Ensures-ok, Returns, Bool-cases, inl, inr,
}
use mathlib.Core.Path.{subst}
use simctty.Exception.{Exception, raised, system_call, tick_timer_interrupt}
use simctty.Bus.{Bus}
use simctty.Mmu.{Mmu}
use simctty.Mmu.Access.{Load, Store}
use simctty.Cpu.State.{Cpu, Machine, k_sm, k_tee, sp_reg, set_sp_reg, set_sup_reg}
use simctty.Cpu.Control.{throw_exception}
use simctty.Cpu.Decode.{
  opcode, decode_d, decode_a, decode_b, decode_i, decode_k, decode_ff, decode_split_i,
  decode_split_k, extend16,
}
use simctty.Cpu.Alu.{alu}
use simctty.Cpu.Safety.{is_tame}
use simctty.Cpu.Safety.Steps.{Kept}
use simctty.Cpu.Safety.Dispatch.{IsSound, run_instruction-Safe}
use simctty.Cpu.Exec.{
  Ran, ran, throw, illegal, branch, jump_register, nop, movhi, system, return_from_exception,
  finish_load, load, finish_store, store, immediate, move_from_spr, after_spr, move_to_spr,
  put_or_illegal, flag_or_illegal, arithmetic, shift, set_flag, set_flag_immediate, dispatch,
  run_instruction,
}

-- l.trap, and l.nop 1 in supervisor mode.
abbrev pub stops : Cpu → ℕ → Bool
stops c w =
    opcode w == 0x08 && bit_and (w >>> 16) 0xffff == 0x2100
    || opcode w == 0x05 && has c.sr k_sm && decode_k w == 1

-- The run goes on as said.
abbrev Says : Bool → Ran → Type 0
Says on r = r.running ≡ on

any : {A : Type 0} (r : Result A) → Ensures (λ (a : A). Unit {0}) r
any r = Ensures-of (λ a. Unit {0}) r (λ a e. tt)

-- A call, and then an instruction that goes on.
goes_on :
    {A : Type 0} (r : Result A) (f : A → Result Ran)
    → ((a : A) → Ensures (Says true) (f a))
    → Ensures (Says true) (r >>= f)
goes_on r f h = Ensures-bind (λ a. Unit {0}) (Says true) r f (any r) (λ a q. h a)

goes_if :
    (test : Bool) (x y : Result Ran)
    → Ensures (Says true) x
    → Ensures (Says true) y
    → Ensures (Says true) (if test then x else y)
goes_if true x y p q = p
goes_if false x y p q = q

-- A chain of tests.
record Goes (r : Result Ran) : Type 0 where
  says : Ensures (Says true) r

go : (r : Result Ran) → Ensures (Says true) r → Goes r
go r h = record { says = h }

infixr 2 ◌at◌otherwise◌
◌at◌otherwise◌ : {x y : Result Ran} → Goes x → (test : Bool) → Goes y → Goes (if test then x else y)
◌at◌otherwise◌ p true q = p
◌at◌otherwise◌ p false q = q

module _ (b : Bus) (c : Cpu) where
  throw-goes : (e : Exception) (ea : ℕ) → Ensures (Says true) (throw b c e ea)
  throw-goes e ea = goes_on (throw_exception c e ea) (ran b) (λ a. refl)

  illegal-goes : Ensures (Says true) (illegal b c)
  illegal-goes = throw-goes _ c.pc

  put_or_illegal-goes :
      (d : ℕ) (value : Option ℕ) → Ensures (Says true) (put_or_illegal b c d value)
  unfolding put_or_illegal
  put_or_illegal-goes d none = illegal-goes
  put_or_illegal-goes d (some v) = refl

  flag_or_illegal-goes : (flag : Option Bool) → Ensures (Says true) (flag_or_illegal b c flag)
  unfolding flag_or_illegal
  flag_or_illegal-goes none = illegal-goes
  flag_or_illegal-goes (some flag) = refl

module _ (b : Bus) (c : Cpu) (w : ℕ) where
  load-goes :
      (access : Mmu → Bus → ℕ → Bool → Result Load) (convert : ℕ → ℕ)
      → Ensures (Says true) (load access convert b c w)
  unfolding load finish_load
  load-goes access convert =
      let ea = add32 (c.reg (decode_a w)) (extend16 (decode_i w)) in
      goes_on (access c.dmmu b ea (has c.sr k_sm)) _
        (λ (l : Load). goes_if (raised l.exception) _ _ (throw-goes l.bus _ l.exception ea) refl)

  store-goes :
      (access : Mmu → Bus → ℕ → ℕ → Bool → Result Store) (convert : ℕ → ℕ)
      → Ensures (Says true) (store access convert b c w)
  unfolding store finish_store
  store-goes access convert =
      let ea = add32 (c.reg (decode_a w)) (extend16 (decode_split_i w)) in
      goes_on (access c.dmmu b ea (convert (c.reg (decode_b w))) (has c.sr k_sm)) _
        (λ (s : Store). goes_if (raised s.exception) _ _ (throw-goes s.bus _ s.exception ea) refl)

  move_from_spr-goes : Ensures (Says true) (move_from_spr b c w)
  unfolding move_from_spr
  move_from_spr-goes =
      goes_on (sp_reg c (u16 (bit_or (c.reg (decode_a w)) (decode_k w)))) _ (λ v. refl)

  move_to_spr-goes : Ensures (Says true) (move_to_spr b c w)
  unfolding move_to_spr after_spr
  move_to_spr-goes =
      let reg = u16 (bit_or (c.reg (decode_a w)) (decode_split_k w)) in
      goes_on (set_sp_reg c reg (c.reg (decode_b w))) _ (λ (d : Cpu).
        goes_if (has d.ttmr 0x10000000 && has d.sr k_tee) _ _
          (throw-goes b d tick_timer_interrupt 0) refl)

  return_from_exception-goes : Ensures (Says true) (return_from_exception b c)
  unfolding return_from_exception
  return_from_exception-goes =
      goes_on (set_sup_reg (record c { pc = c.epcr0 }) c.esr0) _ (λ s. refl)

  arithmetic-goes : Ensures (Says true) (arithmetic b c w)
  unfolding arithmetic
  arithmetic-goes =
      goes_on (alu (decode_ff w) (c.reg (decode_a w)) (c.reg (decode_b w))) _
        (put_or_illegal-goes b c (decode_d w))

  system-Says : Ensures (Says (not (bit_and (w >>> 16) 0xffff == 0x2100))) (system b c w)
  unfolding system
  system-Says = elim (Bool-cases (bit_and (w >>> 16) 0xffff == 0x2100)) [
    | inl trap ↦
        let other : (bit_and (w >>> 16) 0xffff == 0x2000) ≡ false = ground arith in
        rw (trap, other) refl
    | inr goes ↦ rw goes (
        goes_if (bit_and (w >>> 16) 0xffff == 0x2000) _ _
          (throw-goes b (record c { pc = add32 c.pc 4 }) system_call 0) (illegal-goes b c))
  ]

  nop-Says : Ensures (Says (not (has c.sr k_sm && decode_k w == 1))) (nop b c w)
  unfolding nop
  nop-Says = ground arith

  -- The instructions outside the opcodes of l.nop, l.sys and l.trap.
  others-go :
      (op : ℕ)
      → (op == 0x05) ≡ false
      → (op == 0x08) ≡ false
      → Ensures (Says true) (dispatch op b c w)
  unfolding dispatch branch movhi jump_register immediate shift set_flag set_flag_immediate
  others-go op no_nop no_system =
      rw (no_nop, no_system)
        ((go _ refl
          at op == 0x00 otherwise go _ refl
          at op == 0x01 otherwise go _ refl
          at op == 0x03 otherwise go _ refl
          at op == 0x04 otherwise go _ refl
          at op == 0x06 otherwise go _ return_from_exception-goes
          at op == 0x09 otherwise go _ refl
          at op == 0x11 otherwise go _ refl
          at op == 0x12 otherwise go _ (load-goes _ _)
          at op == 0x21 otherwise go _ (load-goes _ _)
          at op == 0x23 otherwise go _ (load-goes _ _)
          at op == 0x24 otherwise go _ (load-goes _ _)
          at op == 0x25 otherwise go _ (load-goes _ _)
          at op == 0x26 otherwise go _ refl
          at op == 0x27 otherwise go _ refl
          at op == 0x29 otherwise go _ refl
          at op == 0x2a otherwise go _ refl
          at op == 0x2b otherwise go _ move_from_spr-goes
          at op == 0x2d otherwise go _ (put_or_illegal-goes b c _ _)
          at op == 0x2e otherwise go _ (flag_or_illegal-goes b c _)
          at op == 0x2f otherwise go _ move_to_spr-goes
          at op == 0x30 otherwise go _ (store-goes _ _)
          at op == 0x35 otherwise go _ (store-goes _ _)
          at op == 0x36 otherwise go _ (store-goes _ _)
          at op == 0x37 otherwise go _ arithmetic-goes
          at op == 0x38 otherwise go _ (flag_or_illegal-goes b c _)
          at op == 0x39 otherwise go _ (illegal-goes b c)).says)

run_instruction-Says :
    (m : Machine) (w : ℕ)
    → Ensures (λ (r : Ran). r.running ≡ not (stops m.cpu w)) (run_instruction m w)
unfolding run_instruction dispatch
run_instruction-Says m w =
    let c = m.cpu in
    let P = λ (op : ℕ). Ensures (Says (not (stops c w))) (dispatch op m.bus c w) in
    elim (Bool-cases (opcode w == 0x05)) [
      | inl is_nop ↦
          let same : 0x05 ≡ opcode w = ground arith in
          let e : stops c w ≡ (has c.sr k_sm && decode_k w == 1) = ground arith in
          subst P same (rw e (nop-Says m.bus c w))
      | inr no_nop ↦ elim (Bool-cases (opcode w == 0x08)) [
        | inl is_system ↦
            let same : 0x08 ≡ opcode w = ground arith in
            let e : stops c w ≡ (bit_and (w >>> 16) 0xffff == 0x2100) = ground arith in
            subst P same (rw e (system-Says m.bus c w))
        | inr no_system ↦
            let e : stops c w ≡ false = ground arith in
            rw e (others-go m.bus c w (opcode w) no_nop no_system)
      ]
    ]

-- A machine in good order, with the bus led on by the guest alone, and whether the run goes on.
pub record IsSettled (m : Machine) (w : ℕ) (r : Ran) : Type 0 where
  pub kept : Kept m.bus r
  pub running : r.running ≡ not (stops m.cpu w)

-- On a machine in good order and a tame instruction word, RunInstruction returns, leaves a machine
-- in good order whose serial port was changed by loads and stores of the guest only, and returns
-- false exactly for l.trap, and for l.nop 1 in supervisor mode.
pub run_instruction-IsSettled :
    (m : Machine) (w : ℕ)
    → IsSound m
    → is_tame m.cpu w ≡ true
    → Returns (IsSettled m w) (run_instruction m w)
run_instruction-IsSettled m w s tame =
    let safe = run_instruction-Safe m w s tame in
    record {
      value = safe.value;
      returns = safe.returns;
      holds = record {
        kept = safe.holds;
        running = Ensures-ok (Says (not (stops m.cpu w))) _ safe.returns (run_instruction-Says m w);
      };
    }
