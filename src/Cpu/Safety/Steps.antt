-- ===== src/Cpu/Safety/Steps.antt =====
-- The groups of instructions of simctty/cpu.cc on a processor and a bus in good order.
use simctty.Prelude.{
  ℕ, ◌^◌, ◌>>>◌, ◌<◌, ◌≡◌, arith, bit_and, bit_or, Bool, true, false, Option, none, some, ◌&&◌,
  ◌==◌, has, u16, add32, Result, Returns, Returns-ok, Returns-if, Returns-bind,
}
use simctty.Exception.{Exception, raised, system_call, tick_timer_interrupt}
use simctty.Bus.{Bus}
use simctty.Bus.Valid
use simctty.Bus.Valid.{Leads, Leads-none, Leads-trans}
use simctty.Mmu.Cache
use simctty.Mmu.Access.{Load, Store}
use simctty.Mmu.Bounds.Parts.{Loads, Stores}
use simctty.Cpu.State.{Cpu, k_tee}
use simctty.Cpu.Control.{throw_exception}
use simctty.Cpu.Decode.{decode_d, decode_a, decode_b, decode_k, decode_split_k, decode_n}
use simctty.Cpu.Decode.Fields.{decode_k-eq}
use simctty.Cpu.Exec.{
  Ran, ran, stop, throw, illegal, put, branch, link, jump_register, nop, movhi, system,
  return_from_exception, finish_load, finish_store, immediate, move_from_spr, after_spr,
  move_to_spr, put_or_illegal, flag_or_illegal,
}
use simctty.Cpu.Alu.Width.{OptionalWord}
use simctty.Cpu.Exceptions.{set_sup_reg-write_sr}
use simctty.Cpu.Valid.{
  IsValid, write_reg-IsValid, increment_pc-IsValid, jump-IsValid, set_compare_flag-IsValid,
  write_sr-IsValid,
}
use simctty.Cpu.Valid.Special.{
  is_sp_reg, throw_exception-Returns, sp_reg-Returns, set_sp_reg-Returns, with_dmmu,
}

-- From a bus: the processor is in good order, and the bus was led on by the guest.
pub record Kept (b : Bus) (r : Ran) : Type 0 where
  pub cpu : IsValid r.machine.cpu
  pub leads : Leads b r.machine.bus

-- The instruction returns.
abbrev pub Safe : Bus → Result Ran → Type 0
Safe b result = Returns (Kept b) result

pub Safe-after : {b b' : Bus} (result : Result Ran) → Leads b b' → Safe b' result → Safe b result
Safe-after result l s = record {
  value = s.value;
  returns = s.returns;
  holds = record { cpu = s.holds.cpu; leads = Leads-trans l s.holds.leads };
}

module _ (b : Bus) (w : Valid.IsValid b) where
  ran-Safe : (c : Cpu) → IsValid c → Safe b (ran b c)
  ran-Safe c v = Returns-ok (Kept b) _ (record { cpu = v; leads = Leads-none b w })

  stop-Safe : (c : Cpu) → IsValid c → Safe b (stop b c)
  stop-Safe c v = Returns-ok (Kept b) _ (record { cpu = v; leads = Leads-none b w })

  put-Safe : (c : Cpu) (d value : ℕ) → IsValid c → value < 2 ^ 32 → Safe b (put b c d value)
  put-Safe c d value v h = ran-Safe _ (increment_pc-IsValid _ (write_reg-IsValid c v d value h))

  throw-Safe :
      (c : Cpu) (e : Exception) (ea : ℕ) → IsValid c → ea < 2 ^ 32 → Safe b (throw b c e ea)
  throw-Safe c e ea v h =
      Returns-bind IsValid (Kept b) (throw_exception c e ea) _ (throw_exception-Returns c e ea v h)
        ran-Safe

  pub illegal-Safe : (c : Cpu) → IsValid c → Safe b (illegal b c)
  illegal-Safe c v = throw-Safe c _ c.pc v v.words.pc

  pub put_or_illegal-Safe :
      (c : Cpu) (d : ℕ) (value : Option ℕ)
      → IsValid c
      → OptionalWord value
      → Safe b (put_or_illegal b c d value)
  unfolding put_or_illegal
  put_or_illegal-Safe c d none v h = illegal-Safe c v
  put_or_illegal-Safe c d (some value) v h = put-Safe c d value v h

  pub flag_or_illegal-Safe :
      (c : Cpu) (flag : Option Bool) → IsValid c → Safe b (flag_or_illegal b c flag)
  unfolding flag_or_illegal
  flag_or_illegal-Safe c none v = illegal-Safe c v
  flag_or_illegal-Safe c (some flag) v =
      ran-Safe _ (increment_pc-IsValid _ (set_compare_flag-IsValid c v flag))

  -- The program counter is set before a call, and before a return from an exception.
  with_pc : (c : Cpu) (pc : ℕ) → IsValid c → pc < 2 ^ 32 → IsValid (record c { pc = pc })
  with_pc c pc v h = record {
    regs = v.regs;
    words = ground (arith, v.words);
    immu = v.immu;
    dmmu = v.dmmu;
    page = v.page;
  }

  module _ (c : Cpu) (instruction : ℕ) (v : IsValid c) where
    pub link-IsValid : IsValid (link c)
    link-IsValid = write_reg-IsValid c v 9 (add32 c.pc 8) (omega arith)

    pub branch-Safe : (taken : Bool) → Safe b (branch b c instruction taken)
    unfolding branch
    branch-Safe true =
        ran-Safe _ (jump-IsValid c v (add32 c.pc (decode_n instruction)) (omega arith))
    branch-Safe false = ran-Safe _ (increment_pc-IsValid c v)

    pub jump_register-Safe : Safe b (jump_register b c instruction)
    unfolding jump_register
    jump_register-Safe = ran-Safe _ (jump-IsValid c v _ (v.regs (decode_b instruction)))

    pub nop-Safe : Safe b (nop b c instruction)
    unfolding nop
    nop-Safe =
        Returns-if (Kept b) _ _ _ (λ _. stop-Safe c v) (λ _. ran-Safe _ (increment_pc-IsValid c v))

    pub movhi-Safe : Safe b (movhi b c instruction)
    unfolding movhi
    movhi-Safe = put-Safe c (decode_d instruction) _ v (omega arith)

    pub system-Safe : Safe b (system b c instruction)
    unfolding system
    system-Safe =
        let code = bit_and (instruction >>> 16) 0xffff in
        Returns-if (Kept b) (code == 0x2000) _ _
          (λ _. throw-Safe _ system_call 0 (with_pc c (add32 c.pc 4) v (omega arith)) (omega arith))
          (λ _.
            Returns-if (Kept b) (code == 0x2100) _ _ (λ _. stop-Safe _ (increment_pc-IsValid c v))
              (λ _. illegal-Safe c v))

    no_delay : (c' : Cpu) → IsValid c' → IsValid (record c' { in_delay_slot = false })
    no_delay c' v' = record {
      regs = v'.regs;
      words = ground (arith, v'.words);
      immu = v'.immu;
      dmmu = v'.dmmu;
      page = v'.page;
    }

    pub return_from_exception-Safe : Safe b (return_from_exception b c)
    unfolding return_from_exception
    return_from_exception-Safe =
        let back = with_pc c c.epcr0 v v.words.epcr0 in
        rw set_sup_reg-write_sr
          (ran-Safe _ (no_delay _ (write_sr-IsValid _ back c.esr0 v.words.esr0)))

    pub immediate-Safe :
        (f : ℕ → ℕ → ℕ)
        → ((x k : ℕ) → x < 2 ^ 32 → k < 2 ^ 16 → f x k < 2 ^ 32)
        → Safe b (immediate f b c instruction)
    unfolding immediate
    immediate-Safe f h = put-Safe c (decode_d instruction) _ v (
        h _ (decode_k instruction) (v.regs (decode_a instruction))
          (ground (arith, decode_k-eq instruction)))

    pub move_from_spr-Safe :
        is_sp_reg (u16 (bit_or (c.reg (decode_a instruction)) (decode_k instruction))) ≡ true
        → Safe b (move_from_spr b c instruction)
    unfolding move_from_spr
    move_from_spr-Safe e =
        Returns-bind (λ x. x < 2 ^ 32) (Kept b) _ _ (sp_reg-Returns c v _ e)
          (λ x h. put-Safe c (decode_d instruction) x v h)

    after_spr-Safe : (c' : Cpu) → IsValid c' → Safe b (after_spr b c')
    unfolding after_spr
    after_spr-Safe c' v' =
        Returns-if (Kept b) (has c'.ttmr 0x10000000 && has c'.sr k_tee) _ _
          (λ _. throw-Safe c' tick_timer_interrupt 0 v' (omega arith))
          (λ _. ran-Safe _ (increment_pc-IsValid c' v'))

    pub move_to_spr-Safe :
        is_sp_reg (u16 (bit_or (c.reg (decode_a instruction)) (decode_split_k instruction))) ≡ true
        → Safe b (move_to_spr b c instruction)
    unfolding move_to_spr
    move_to_spr-Safe e =
        Returns-bind IsValid (Kept b) _ _
          (set_sp_reg-Returns c v _ _ e (v.regs (decode_b instruction))) after_spr-Safe

-- The MMU's result, whose object is valid.
abbrev pub LoadsValid : ℕ → Cpu → Bus → Load → Type 0
LoadsValid k c b l = Loads k c.dmmu.control_register b l × Cache.IsValid l.mmu

abbrev pub StoresValid : Cpu → Bus → Store → Type 0
StoresValid c b s = Stores c.dmmu.control_register b s × Cache.IsValid s.mmu

module _ (b : Bus) (c : Cpu) (v : IsValid c) (ea : ℕ) (h : ea < 2 ^ 32) where
  pub finish_load-Safe :
      (k d : ℕ) (convert : ℕ → ℕ) (l : Load)
      → ((x : ℕ) → x < 2 ^ k → convert x < 2 ^ 32)
      → LoadsValid k c b l
      → Safe b (finish_load c d ea convert l)
  unfolding finish_load
  finish_load-Safe k d convert l fits (loads, cached) =
      let v' = with_dmmu c v l.mmu cached (rw loads.register v.words.dmmu_control) in
      let w' = loads.leads.valid in
      Returns-if (Kept b) (raised l.exception) _ _
        (λ _. Safe-after _ loads.leads (throw-Safe l.bus w' _ l.exception ea v' h))
        (λ _. Safe-after _ loads.leads (put-Safe l.bus w' _ d _ v' (fits l.value loads.bits)))

  pub finish_store-Safe : (s : Store) → StoresValid c b s → Safe b (finish_store c ea s)
  unfolding finish_store
  finish_store-Safe s (stores, cached) =
      let v' = with_dmmu c v s.mmu cached (rw stores.register v.words.dmmu_control) in
      let w' = stores.leads.valid in
      Returns-if (Kept b) (raised s.exception) _ _
        (λ _. Safe-after _ stores.leads (throw-Safe s.bus w' _ s.exception ea v' h))
        (λ _. Safe-after _ stores.leads (ran-Safe s.bus w' _ (increment_pc-IsValid _ v')))
