-- ===== src/Mmu/Physical.antt =====
-- The loads and stores of simctty/mmu.cc where translation is off: addresses are physical.
use simctty.Prelude.{ℕ, ◌+◌, ◌%◌, ◌^◌, ◌≤◌, ◌≡◌, arith, Bool, false, update, Result, ok}
use simctty.Prelude.Bits.{page_base}
use simctty.Exception.{no_exception}
use simctty.Ram.{Ram, max_ram_address}
use simctty.Ram.Memory
use simctty.Ram.Memory.{Memory}
use simctty.Ram.Guest.{
  guest, read32-guest, load8-guest, load16-guest, store8-guest, store16-guest, store32-guest,
}
use simctty.Uart
use simctty.Uart.{Uart, min_uart_address, max_uart_address}
use simctty.Bus.{Bus, member, get_device}
use simctty.Mmu.{Mmu, map_address}
use simctty.Mmu.Access.{
  Load, Store, device_store, load8, load16, load32, load32_mapped, raw_load32, store8, store16,
  store32,
}
use simctty.Mmu.Values.{has-even, has-aligned}

-- Translation is off, and no page is kept.
pub record IsOff (m : Mmu) : Type 0 where
  pub disabled : m.is_enabled ≡ false
  pub no_page : m.authed_page ≡ 1

-- A load of the value `v`.
pub record Reads (b : Bus) (result : Result Load) (v : ℕ) : Type 0 where
  pub mmu : Mmu
  pub returns : result ≡ ok (record { value = v; exception = no_exception; mmu = mmu; bus = b })
  pub off : IsOff mmu

-- A store that makes the guest's memory `memory`.
pub record Leaves (m : Mmu) (b : Bus) (result : Result Store) (memory : Memory) : Type 0 where
  pub ram : Ram
  pub returns :
      result ≡ ok (record { exception = no_exception; mmu = m; bus = record b { ram = ram } })
  pub holds : (x : ℕ) → guest ram x ≡ memory x

module _ (m : Mmu) (b : Bus) (a : ℕ) (is_sm : Bool) (off : IsOff m)
    (near : a ≤ max_ram_address) where
  pub load8-Reads : Reads b (load8 m b a is_sm) (guest b.ram a)
  unfolding load8 map_address
  load8-Reads = record {
    mmu = m;
    returns = ground (arith, off.disabled, load8-guest b.ram a near);
    off = off;
  }

  pub load16-Reads : a % 2 ≡ 0 → Reads b (load16 m b a is_sm) (Memory.load16 (guest b.ram) a)
  unfolding load16 map_address
  load16-Reads even = record {
    mmu = m;
    returns = ground (arith, off.disabled, has-even a even, load16-guest b.ram a near even);
    off = off;
  }

  pub load32-Reads : a % 4 ≡ 0 → Reads b (load32 m b a is_sm) (Memory.load32 (guest b.ram) a)
  unfolding load32 load32_mapped raw_load32 map_address
  load32-Reads whole = record {
    mmu = record m { stats_fast_miss = (m.stats_fast_miss + 1) % 2 ^ 64 };
    returns =
        ground (arith, off.disabled, off.no_page, page_base a, read32-guest b.ram a near whole);
    off = record { disabled = off.disabled; no_page = off.no_page };
  }

  pub store8-Leaves : (v : ℕ) → Leaves m b (store8 m b a v is_sm) (update (guest b.ram) a v)
  unfolding store8 map_address
  store8-Leaves v =
      let s = store8-guest b.ram a v near in
      record { ram = s.ram; returns = ground (arith, off.disabled, s.returns); holds = s.holds }

  pub store16-Leaves :
      (v : ℕ) → a % 2 ≡ 0 → Leaves m b (store16 m b a v is_sm) (Memory.store16 (guest b.ram) a v)
  unfolding store16 map_address
  store16-Leaves v even =
      let s = store16-guest b.ram a v near even in
      record {
        ram = s.ram;
        returns = ground (arith, off.disabled, has-even a even, s.returns);
        holds = s.holds;
      }

  pub store32-Leaves :
      (v : ℕ) → a % 4 ≡ 0 → Leaves m b (store32 m b a v is_sm) (Memory.store32 (guest b.ram) a v)
  unfolding store32 map_address
  store32-Leaves v whole =
      let s = store32-guest b.ram a v near whole in
      record {
        ram = s.ram;
        returns = ground (arith, off.disabled, has-aligned a whole, s.returns);
        holds = s.holds;
      }

-- A store of a byte to the serial port, where translation is off.
pub store8-port :
    (m : Mmu) (b : Bus) (a v : ℕ) (is_sm : Bool) {u : Uart}
    → IsOff m
    → min_uart_address ≤ a
    → a ≤ max_uart_address
    → Uart.store8 b.uart a v ≡ ok (record { exception = no_exception; state = u })
    → store8 m b a v is_sm
      ≡ ok (record { exception = no_exception; mmu = m; bus = record b { uart = u } })
unfolding store8 map_address member get_device device_store
store8-port m b a v is_sm off low high e = ground (arith, off.disabled, e)
