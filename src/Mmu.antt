-- ===== src/Mmu.antt =====
-- simctty/mmu.h and simctty/mmu.cc: address translation with a table of 64 entries in use, and
-- loads and stores through it.
pub mod Access
pub mod Translate
pub mod Cache
pub mod Safety
pub mod Fast
pub mod Values
pub mod Physical
pub mod Accesses
pub mod Bounds
pub mod Flaws
mod Tests
use simctty.Prelude.{
  ℕ, ◌+◌, ◌-◌, ◌*◌, ◌/◌, ◌%◌, ◌^◌, ◌>>>◌, bit_or, bit_and, Bool, true, false, ◌&&◌, not, ltb, leb,
  ◌==◌, if◌then◌else◌, has, Result, ok, exited, ◌>>=◌, update,
}
use simctty.Exception.{
  Exception, raised, no_exception, bus_error, data_page_fault, instruction_page_fault, alignment,
  dtlb_miss, itlb_miss,
}
use simctty.BusDevice.{Loaded, Stored, BusDevice}
use simctty.Ram
use simctty.Ram.{max_ram_address}
use simctty.Bus.{Bus, get_device}

-- `enum Type`.
pub data MmuType : Type 0 where
  data_mmu instruction_mmu : MmuType

pub record Mmu : Type 0 where
  pub type : MmuType
  pub is_enabled : Bool
  pub control_register : ℕ
  pub match_reg : ℕ → ℕ
  pub translate_reg : ℕ → ℕ
  pub authed_page : ℕ
  pub authed_phy : ℕ
  pub stats_fast_hit : ℕ
  pub stats_fast_miss : ℕ
  pub verbose : Bool
  pub verbose_store : Bool

abbrev pub match_reg_offset : ℕ
match_reg_offset = 512

abbrev pub translate_reg_offset : ℕ
translate_reg_offset = 640

abbrev pub set_count : ℕ
set_count = 128

abbrev pub used_set_count : ℕ
used_set_count = 64

unfoldable pub clear_fast_auth_cache : Mmu → Mmu
clear_fast_auth_cache m = record m { authed_page = 1 }

-- `Reset` clears the match registers only.
pub reset_loop : (ℕ → ℕ) → ℕ → ℕ
reset_loop match_reg i = if ltb i set_count then 0 else match_reg i

unfoldable pub reset : Mmu → Mmu
unfolding clear_fast_auth_cache reset_loop
reset m = clear_fast_auth_cache (record m { match_reg = reset_loop m.match_reg })

-- The constructor. `m` holds what it does not set: the contents of the registers.
unfoldable pub new_mmu : MmuType → Mmu → Mmu
new_mmu type m = reset (record m {
  type = type;
  is_enabled = false;
  authed_page = 1;
  authed_phy = 0;
  stats_fast_hit = 0;
  stats_fast_miss = 0;
  verbose = false;
  verbose_store = false;
})

unfoldable pub set_is_enabled : Mmu → Bool → Mmu
set_is_enabled m is_enabled = record m { authed_page = 1; is_enabled = is_enabled }

abbrev set_verbose : Mmu → Bool → Mmu
set_verbose m verbose = record m { verbose = verbose }

abbrev set_verbose_store : Mmu → Bool → Mmu
set_verbose_store m verbose = record m { verbose_store = verbose }

-- The permission bits of a translate register.
abbrev pub data_ure : ℕ
data_ure = 0x40

abbrev pub data_uwe : ℕ
data_uwe = 0x80

abbrev pub data_sre : ℕ
data_sre = 0x100

abbrev pub data_swe : ℕ
data_swe = 0x200

abbrev pub instruction_uxe : ℕ
instruction_uxe = 0x80

abbrev pub instruction_sxe : ℕ
instruction_sxe = 0x40

-- The variable `ok` of `MapAddress`.
pub permitted : MmuType → ℕ → Bool → Bool → Bool
permitted instruction_mmu tr is_sm is_write = has tr (bit_or instruction_sxe instruction_uxe)
permitted data_mmu tr is_sm is_write =
    if is_sm
    then if is_write then has tr (bit_or data_swe data_uwe) else has tr (bit_or data_sre data_ure)
    else if is_write
    then has tr data_uwe
    else has tr data_ure

abbrev pub page_fault : MmuType → Exception
page_fault data_mmu = data_page_fault
page_fault instruction_mmu = instruction_page_fault

abbrev pub tlb_miss : MmuType → Exception
tlb_miss data_mmu = dtlb_miss
tlb_miss instruction_mmu = itlb_miss

-- What `MapAddress` returns, sets through its pointers, and leaves in the object.
pub record Mapped : Type 0 where
  pub phy_address : ℕ
  pub exception : Exception
  pub is_ram : Bool
  pub mmu : Mmu

-- The branch of a matching entry whose permission bits allow the access.
map_page : Mmu → ℕ → ℕ → Mapped
map_page m address tr =
    let phy_address = bit_or (bit_and tr 0xffffe000) (bit_and address 0x1fff) in
    record {
      phy_address = phy_address;
      exception = no_exception;
      is_ram = leb phy_address max_ram_address;
      mmu =
          if leb phy_address max_ram_address
          then record m {
            authed_page = bit_and address 0xffffe000;
            authed_phy = bit_and tr 0xffffe000;
          }
          else record m { authed_page = 1 };
    }

refuse : Mmu → ℕ → Exception → Mapped
refuse m address e = record { phy_address = address; exception = e; is_ram = false; mmu = m }

unfoldable pub map_address : Mmu → ℕ → Bool → Bool → Mapped
unfolding map_page refuse
map_address m address is_sm is_write =
    let page = address >>> 0xd in
    let set = (address >>> 0xd) % used_set_count in
    let mr = m.match_reg set in
    let tr = m.translate_reg set in
    if not m.is_enabled
    then record {
      phy_address = address;
      exception = no_exception;
      is_ram = leb address max_ram_address;
      mmu = m;
    }
    else if has mr 0x1 && (mr >>> 0xd) == page
    then if permitted m.type tr is_sm is_write
      then map_page m address tr
      else refuse m address (page_fault m.type)
    else refuse m address (tlb_miss m.type)

-- Both end the process at an index that is no register. `SetReg` returns true otherwise.
unfoldable pub set_reg : Mmu → ℕ → ℕ → Result Mmu
unfolding clear_fast_auth_cache
set_reg m index value =
    let c = clear_fast_auth_cache m in
    if index == 0
    then ok (record c { control_register = value })
    else if leb match_reg_offset index && ltb index (match_reg_offset + set_count)
    then ok (record c { match_reg = update c.match_reg (index - match_reg_offset) value })
    else if leb translate_reg_offset index && ltb index (translate_reg_offset + set_count)
    then ok
        (record c { translate_reg = update c.translate_reg (index - translate_reg_offset) value })
    else exited

abbrev pub reg : Mmu → ℕ → Result ℕ
reg m index =
    if index == 0
    then ok m.control_register
    else if leb match_reg_offset index && ltb index (match_reg_offset + set_count)
    then ok (m.match_reg (index - match_reg_offset))
    else if leb translate_reg_offset index && ltb index (translate_reg_offset + set_count)
    then ok (m.translate_reg (index - translate_reg_offset))
    else exited
