-- ===== src/Cpu/State.antt =====
-- The fields of `CPU`, its constructor and `Reset`, and the special registers (`SpReg`,
-- `SetSpReg`, `SetSupReg`).
use simctty.Prelude.{
  ℕ, ◌<<<◌, ◌>>>◌, bit_or, bit_and, Bool, false, ltb, ◌==◌, if◌then◌else◌, has, Result, ok, fault,
  ◌>>=◌, update,
}
use simctty.Bus.{Bus}
use simctty.Mmu
use simctty.Mmu.{Mmu, data_mmu, instruction_mmu}

-- Supervision register bits.
abbrev pub k_sm : ℕ
k_sm = 1 <<< 0

abbrev pub k_tee : ℕ
k_tee = 1 <<< 1

abbrev pub k_iee : ℕ
k_iee = 1 <<< 2

abbrev pub k_dme : ℕ
k_dme = 1 <<< 5

abbrev pub k_ime : ℕ
k_ime = 1 <<< 6

abbrev pub k_f : ℕ
k_f = 1 <<< 9

abbrev pub k_dsx : ℕ
k_dsx = 1 <<< 13

abbrev pub k_fo : ℕ
k_fo = 1 <<< 15

abbrev pub reg_count : ℕ
reg_count = 32

pub record Cpu : Type 0 where
  pub immu : Mmu
  pub dmmu : Mmu
  pub reg : ℕ → ℕ
  pub pc : ℕ
  pub sr : ℕ
  pub epcr0 : ℕ
  pub eear0 : ℕ
  pub esr0 : ℕ
  pub picmr : ℕ
  pub picsr : ℕ
  pub pending_interrupt : Bool
  pub ttmr : ℕ
  pub ttcr : ℕ
  pub in_delay_slot : Bool
  pub delayed_next_pc : ℕ
  pub authed_page : ℕ
  pub authed_phy : ℕ

-- The processor with the bus that its pointers `bus_` and `raw_` lead to.
pub record Machine : Type 0 where
  pub cpu : Cpu
  pub bus : Bus

-- The case of `SetSpReg` for the supervision register.
unfoldable pub write_sr : Cpu → ℕ → Cpu
unfolding Mmu.clear_fast_auth_cache Mmu.set_is_enabled
write_sr c value = record c {
  sr = value;
  immu = Mmu.clear_fast_auth_cache (Mmu.set_is_enabled c.immu (has value k_ime));
  dmmu = Mmu.clear_fast_auth_cache (Mmu.set_is_enabled c.dmmu (has value k_dme));
  authed_page = 0x1;
}

abbrev pub sp_group : ℕ → ℕ
sp_group reg = bit_and reg 0xf800 >>> 11

abbrev pub sp_index : ℕ → ℕ
sp_index reg = bit_and reg 0x07ff

-- Group 0. A register that is not known is only reported on stderr.
unfoldable pub set_system_reg : Cpu → ℕ → ℕ → Cpu
unfolding write_sr
set_system_reg c index value =
    if index == 17
    then write_sr c value
    else if index == 32
    then record c { epcr0 = value }
    else if index == 48
    then record c { eear0 = value }
    else if index == 64
    then record c { esr0 = value }
    else c

-- Group 9, the interrupt controller.
unfoldable pub set_pic_reg : Cpu → ℕ → ℕ → Cpu
set_pic_reg c index value =
    if index == 0
    then record c { picmr = value }
    else if index == 2
    then record c { picsr = value }
    else c

-- Group 10, the tick timer.
unfoldable pub set_tick_reg : Cpu → ℕ → ℕ → Cpu
set_tick_reg c index value =
    if index == 0
    then record c { ttmr = value }
    else if index == 1
    then record c { ttcr = value }
    else c

-- The register is a uint16 of a group and an index. A write to group 4 is ignored.
unfoldable pub set_sp_reg : Cpu → ℕ → ℕ → Result Cpu
unfolding set_system_reg set_pic_reg set_tick_reg
set_sp_reg c reg value =
    let group = sp_group reg in
    let index = sp_index reg in
    if group == 0
    then ok (set_system_reg c index value)
    else if group == 1
    then (Mmu.set_reg c.dmmu index value >>= λ m. ok (record c { dmmu = m }))
    else if group == 2
    then (Mmu.set_reg c.immu index value >>= λ m. ok (record c { immu = m }))
    else if group == 9
    then ok (set_pic_reg c index value)
    else if group == 10
    then ok (set_tick_reg c index value)
    else ok c

unfoldable pub set_sup_reg : Cpu → ℕ → Result Cpu
unfolding set_sp_reg
set_sup_reg c value = set_sp_reg c (bit_or (0 <<< 11) 17) value

-- Group 0 of `SpReg`. The fields that the source shifts in as 0 are left out.
unfoldable pub system_reg : Cpu → ℕ → ℕ
system_reg c index =
    if index == 0
    then bit_or (0x1 <<< 6) (0x10 <<< 24)
    else if index == 1
    then bit_or (bit_or (bit_or (bit_or (1 <<< 0) (1 <<< 3)) (1 <<< 4)) (1 <<< 9)) (1 <<< 10)
    else if index == 2
    then bit_or (1 <<< 5) (1 <<< 11)
    else if index == 3
    then 6 <<< 2
    else if index == 4
    then 6 <<< 2
    else if index == 10
    then 1 <<< 24
    else if index == 17
    then c.sr
    else if index == 32
    then c.epcr0
    else if index == 48
    then c.eear0
    else if index == 64
    then c.esr0
    else 0

unfoldable pub pic_reg : Cpu → ℕ → ℕ
pic_reg c index = if index == 0 then c.picmr else if index == 2 then c.picsr else 0

unfoldable pub tick_reg : Cpu → ℕ → ℕ
tick_reg c index = if index == 0 then c.ttmr else if index == 1 then c.ttcr else 0

-- The guard is `!sr_ & kSM`, which negates the whole register first.
unfoldable pub sp_reg : Cpu → ℕ → Result ℕ
unfolding system_reg pic_reg tick_reg
sp_reg c reg =
    let group = sp_group reg in
    let index = sp_index reg in
    if has (if c.sr == 0 then 1 else 0) k_sm
    then ok 0
    else if group == 0
    then ok (system_reg c index)
    else if group == 1
    then Mmu.reg c.dmmu index
    else if group == 2
    then Mmu.reg c.immu index
    else if group == 9
    then ok (pic_reg c index)
    else if group == 10
    then ok (tick_reg c index)
    else ok 0

-- `for (i = 0; i < kRegCount; i++) reg_[i] = 0`.
zero_regs : (ℕ → ℕ) → ℕ → ℕ
zero_regs r i = if ltb i reg_count then 0 else r i

unfoldable pub reset : Cpu → Result Cpu
unfolding set_sup_reg zero_regs
reset c = do
  s ← set_sup_reg (record c { reg = zero_regs c.reg; pc = 0 }) (bit_or k_fo k_sm)
  ok (record s {
    epcr0 = 0;
    eear0 = 0;
    esr0 = 0;
    picmr = 0;
    picsr = 0;
    pending_interrupt = false;
    ttmr = 0;
    ttcr = 0;
    dmmu = Mmu.reset s.dmmu;
    immu = Mmu.reset s.immu;
    in_delay_slot = false;
    authed_page = 0x1;
  })

-- The constructor. `c` holds the values that it does not set.
unfoldable pub new_cpu : Cpu → Result Cpu
new_cpu c =
    reset
      (record c { immu = Mmu.new_mmu instruction_mmu c.immu; dmmu = Mmu.new_mmu data_mmu c.dmmu })

-- `Reg` and `SetReg` do not check the index.
abbrev pub reg : Cpu → ℕ → Result ℕ
reg c r = if ltb r reg_count then ok (c.reg r) else fault

unfoldable pub set_reg : Cpu → ℕ → ℕ → Result Cpu
set_reg c r value = if ltb r reg_count then ok (record c { reg = update c.reg r value }) else fault

unfoldable pub set_pc : Cpu → ℕ → Cpu
set_pc c pc = record c { pc = pc }
