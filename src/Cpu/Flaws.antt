-- ===== src/Cpu/Flaws.antt =====
-- Where simctty/cpu.cc leaves the rules of the processor: special registers in user mode, the page
-- that a fetch keeps, and a fetch from an address with no device.
use simctty.Prelude.{
  ℕ, ◌+◌, ◌%◌, ◌^◌, ◌<◌, ◌≡◌, ◌≢◌, refl, arith, bit_and, Bool, false, none, leb, ◌==◌, has, ok,
}
use simctty.Prelude.Bits.{page_base}
use simctty.Exception.{no_exception, bus_error}
use simctty.Ram.{max_ram_address}
use simctty.Bus.{Bus, get_device}
use simctty.Mmu
use simctty.Mmu.{Mmu, map_address}
use simctty.Mmu.Access
use simctty.Cpu.State.{Cpu, k_sm, sp_reg, set_sp_reg, write_sr}
use simctty.Cpu.Run.{fetched, fetch, fetch_mapped, fetch_device}

-- In user mode, with any other bit of the supervision register set, the supervision register, the
-- saved one and the saved program counter are read as they are, and a write to the supervision
-- register is carried out, with any value.
pub user_mode_escapes :
    (c : Cpu) (v : ℕ)
    → c.sr ≢ 0
    → c.sr % 2 ≡ 0
    → (sp_reg c 17 ≡ ok c.sr)
      × (sp_reg c 32 ≡ ok c.epcr0)
      × (sp_reg c 64 ≡ ok c.esr0)
      × (set_sp_reg c 17 v ≡ ok (write_sr c v))
      × ((write_sr c v).sr ≡ v)
unfolding sp_reg set_sp_reg write_sr
user_mode_escapes c v set user = (ground arith, ground arith, ground arith, refl, refl)

load32-nowhere :
    (m : Mmu) (b : Bus) (a : ℕ) (is_sm : Bool)
    → a < 2 ^ 32
    → m.is_enabled ≡ false
    → m.authed_page ≡ 1
    → max_ram_address < a
    → get_device a ≡ none
    → Access.load32 m b a is_sm
      ≡ ok (record {
        value = 0;
        exception = bus_error;
        mmu = record m { stats_fast_miss = (m.stats_fast_miss + 1) % 2 ^ 64 };
        bus = b;
      })
unfolding Access.load32 map_address
load32-nowhere m b a is_sm h off page out device =
    let far : (bit_and a 0xffffe000 == 1) ≡ false = ground (arith, page_base a h) in
    let past : leb a max_ram_address ≡ false = ground arith in rw (page, far, off, past, device)

map_address-off :
    (m : Mmu) (a : ℕ) (is_sm is_write : Bool)
    → m.is_enabled ≡ false
    → max_ram_address < a
    → map_address m a is_sm is_write
      ≡ record { phy_address = a; exception = no_exception; is_ram = false; mmu = m }
unfolding map_address
map_address-off m a is_sm is_write off out = ground arith

-- With no translation of instructions and no page kept, a fetch from a 32-bit address past the
-- memory with no device gives the word 0 as an instruction, and no exception, where the load that
-- it makes sets the bus error.
pub fetch_ignores_bus_error :
    (b : Bus) (c : Cpu)
    → c.pc < 2 ^ 32
    → c.immu.is_enabled ≡ false
    → c.authed_page ≡ 1
    → c.immu.authed_page ≡ 1
    → max_ram_address < c.pc
    → get_device c.pc ≡ none
    → (m : Mmu) × (Access.load32 c.immu b c.pc (has c.sr k_sm)
        ≡ ok (record { value = 0; exception = bus_error; mmu = m; bus = b }))
      × (fetch b c ≡ ok (fetched 0 (record { cpu = record c { immu = m }; bus = b })))
unfolding fetch fetch_mapped fetch_device
fetch_ignores_bus_error b c h off no_page mmu_page out device =
    let far : (bit_and c.pc 0xffffe000 == c.authed_page) ≡ false =
      ground (arith, page_base c.pc h) in
    let loads = load32-nowhere c.immu b c.pc (has c.sr k_sm) h off mmu_page out device in
    (
      record (c.immu) { stats_fast_miss = (c.immu.stats_fast_miss + 1) % 2 ^ 64 },
      loads,
      rw far (rw (map_address-off c.immu c.pc (has c.sr k_sm) false off out) (rw loads)),
    )
