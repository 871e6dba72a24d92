-- ===== src/Cpu/Valid/Special.antt =====
-- The special registers of simctty/cpu.cc, exceptions and l.rfe on a processor in good order.
use simctty.Prelude.{
  ℕ, ◌-◌, ◌^◌, ◌<◌, ◌≡◌, arith, bit_or, Bool, true, has, inl, inr, Bool-cases, ◌==◌, leb, ltb, ◌&&◌,
  Returns-if, ◌||◌, not, Returns-of, Ensures-of, Returns, Returns-ok, Returns-bind, if◌then◌else◌,
}
use simctty.Prelude.Bits.{bit_or-lt}
use simctty.Exception.{Exception, no_exception, exception_handlers}
use simctty.Mmu
use simctty.Mmu.{Mmu}
use simctty.Mmu.Cache
use simctty.Cpu.State.{
  Cpu, sp_group, sp_index, write_sr, set_system_reg, set_pic_reg, set_tick_reg, set_sp_reg, sp_reg,
  system_reg, pic_reg, tick_reg, k_fo, k_sm, k_dsx,
}
use simctty.Cpu.Control.{throw_exception, save_sr, enter_handler}
use simctty.Cpu.Exceptions.{set_sup_reg-write_sr}
use simctty.Cpu.Valid.{IsValid, write_sr-IsValid}

handler_pc-lt : (e : Exception) → (exception_handlers e).pc < 2 ^ 32
handler_pc-lt no_exception = omega arith
handler_pc-lt _ = omega arith

module _ (c : Cpu) (v : IsValid c) where
  save_sr-IsValid : IsValid (save_sr c)
  unfolding save_sr
  save_sr-IsValid = record {
    regs = ground (arith, v.regs);
    words = ground (arith, v.words, bit_or-lt 32 c.sr k_dsx);
    immu = ground (arith, v.immu);
    dmmu = ground (arith, v.dmmu);
    page = ground (arith, v.page);
  }

  enter_handler-IsValid : (e : Exception) (ea : ℕ) → ea < 2 ^ 32 → IsValid (enter_handler c e ea)
  unfolding enter_handler
  enter_handler-IsValid e ea h = record {
    regs = v.regs;
    words = ground (arith, v.words, handler_pc-lt e);
    immu = v.immu;
    dmmu = v.dmmu;
    page = v.page;
  }

pub throw_exception-Returns :
    (c : Cpu) (e : Exception) (ea : ℕ)
    → IsValid c
    → ea < 2 ^ 32
    → Returns IsValid (throw_exception c e ea)
unfolding throw_exception
throw_exception-Returns c e ea v h =
    let s = save_sr-IsValid c v in
    let w = write_sr-IsValid (save_sr c) s (bit_or k_fo k_sm) (omega arith) in
    rw set_sup_reg-write_sr (
      Returns-ok IsValid _
        (enter_handler-IsValid (write_sr (save_sr c) (bit_or k_fo k_sm)) w e ea h))

module _ (c : Cpu) (v : IsValid c) (value : ℕ) (h : value < 2 ^ 32) where
  set_system_reg-IsValid : (index : ℕ) → IsValid (set_system_reg c index value)
  unfolding set_system_reg
  set_system_reg-IsValid index = elim (Bool-cases (index == 17)) [
    | inl sup ↦ rw sup (write_sr-IsValid c v value h)
    | inr other ↦ rw other (record {
      regs = ground (arith, v.regs);
      words = ground (arith, v.words);
      immu = ground (arith, v.immu);
      dmmu = ground (arith, v.dmmu);
      page = ground (arith, v.page);
    })
  ]

  set_pic_reg-IsValid : (index : ℕ) → IsValid (set_pic_reg c index value)
  unfolding set_pic_reg
  set_pic_reg-IsValid index = record {
    regs = ground (arith, v.regs);
    words = ground (arith, v.words);
    immu = ground (arith, v.immu);
    dmmu = ground (arith, v.dmmu);
    page = ground (arith, v.page);
  }

  set_tick_reg-IsValid : (index : ℕ) → IsValid (set_tick_reg c index value)
  unfolding set_tick_reg
  set_tick_reg-IsValid index = record {
    regs = ground (arith, v.regs);
    words = ground (arith, v.words);
    immu = ground (arith, v.immu);
    dmmu = ground (arith, v.dmmu);
    page = ground (arith, v.page);
  }

-- The indices of the registers of an MMU: its control register and its two tables.
pub is_mmu_reg : ℕ → Bool
is_mmu_reg index = index == 0 || leb 512 index && ltb index 768

abbrev WordsMmu : Mmu → Type 0
WordsMmu m = Cache.IsValid m × (m.control_register < 2 ^ 32)

module _ (m : Mmu) (index : ℕ) (v : Cache.IsValid m) (h : m.control_register < 2 ^ 32) where
  mmu_reg-Returns : is_mmu_reg index ≡ true → Returns (λ w. w < 2 ^ 32) (Mmu.reg m index)
  unfolding is_mmu_reg
  mmu_reg-Returns e =
      Returns-of (λ w. w < 2 ^ 32) (Mmu.reg m index)
        (ground (arith, v.match_words (index - 512), v.translate_words (index - 640)))
        (ground arith)

  mmu_set_reg-Returns :
      (value : ℕ)
      → value < 2 ^ 32
      → is_mmu_reg index ≡ true
      → Returns WordsMmu (Mmu.set_reg m index value)
  unfolding is_mmu_reg Mmu.set_reg
  mmu_set_reg-Returns value k e =
      Returns-of WordsMmu (Mmu.set_reg m index value)
        (Ensures-of WordsMmu (Mmu.set_reg m index value)
          (λ m' q. ((Cache.set_reg-IsValid m index value v k q).0, ground arith)))
        (ground arith)

-- The special registers that exist: those of groups 1 and 2 are an MMU's.
pub is_sp_reg : ℕ → Bool
is_sp_reg reg = not (sp_group reg == 1 || sp_group reg == 2) || is_mmu_reg (sp_index reg)

module _ (c : Cpu) (v : IsValid c) where
  pub with_dmmu :
      (m : Mmu) → Cache.IsValid m → m.control_register < 2 ^ 32 → IsValid (record c { dmmu = m })
  with_dmmu m w k = record {
    regs = v.regs;
    words = ground (arith, v.words);
    immu = v.immu;
    dmmu = w;
    page = v.page;
  }

  pub with_immu :
      (m : Mmu) → Cache.IsValid m → m.control_register < 2 ^ 32 → IsValid (record c { immu = m })
  with_immu m w k = record {
    regs = v.regs;
    words = ground (arith, v.words);
    immu = w;
    dmmu = v.dmmu;
    page = v.page;
  }

  system_reg-lt : (index : ℕ) → system_reg c index < 2 ^ 32
  unfolding system_reg
  system_reg-lt index = ground (arith, v.words)

  pub sp_reg-Returns : (reg : ℕ) → is_sp_reg reg ≡ true → Returns (λ w. w < 2 ^ 32) (sp_reg c reg)
  unfolding sp_reg is_sp_reg pic_reg tick_reg
  sp_reg-Returns reg e =
      let W = λ (w : ℕ). w < 2 ^ 32 in
      let g = sp_group reg in
      let i = sp_index reg in
      Returns-if W (has (if c.sr == 0 then 1 else 0) k_sm) _ _ (λ _. Returns-ok W 0 (omega arith))
        (λ _.
          Returns-if W (g == 0) _ _ (λ _. Returns-ok W _ (system_reg-lt i))
            (λ _.
              Returns-if W (g == 1) _ _
                (λ q. mmu_reg-Returns c.dmmu i v.dmmu v.words.dmmu_control (ground arith))
                (λ _.
                  Returns-if W (g == 2) _ _
                    (λ q. mmu_reg-Returns c.immu i v.immu v.words.immu_control (ground arith))
                    (λ _.
                      Returns-if W (g == 9) _ _ (λ _. Returns-ok W _ (ground (arith, v.words)))
                        (λ _.
                          Returns-if W (g == 10) _ _ (λ _. Returns-ok W _ (ground (arith, v.words)))
                            (λ _. Returns-ok W 0 (omega arith)))))))

  pub set_sp_reg-Returns :
      (reg value : ℕ)
      → is_sp_reg reg ≡ true
      → value < 2 ^ 32
      → Returns IsValid (set_sp_reg c reg value)
  unfolding set_sp_reg is_sp_reg
  set_sp_reg-Returns reg value e h =
      let g = sp_group reg in
      let i = sp_index reg in
      Returns-if IsValid (g == 0) _ _
        (λ _. Returns-ok IsValid _ (set_system_reg-IsValid c v value h i))
        (λ _.
          Returns-if IsValid (g == 1) _ _
            (λ q.
              Returns-bind WordsMmu IsValid (Mmu.set_reg c.dmmu i value) _
                (mmu_set_reg-Returns c.dmmu i v.dmmu v.words.dmmu_control value h (ground arith))
                (λ m w. Returns-ok IsValid _ (with_dmmu m w.0 w.1)))
            (λ _.
              Returns-if IsValid (g == 2) _ _
                (λ q.
                  Returns-bind WordsMmu IsValid (Mmu.set_reg c.immu i value) _
                    (mmu_set_reg-Returns c.immu i v.immu v.words.immu_control value h
                      (ground arith))
                    (λ m w. Returns-ok IsValid _ (with_immu m w.0 w.1)))
                (λ _.
                  Returns-if IsValid (g == 9) _ _
                    (λ _. Returns-ok IsValid _ (set_pic_reg-IsValid c v value h i))
                    (λ _.
                      Returns-if IsValid (g == 10) _ _
                        (λ _. Returns-ok IsValid _ (set_tick_reg-IsValid c v value h i))
                        (λ _. Returns-ok IsValid c v)))))
