-- ===== src/Mmu/Tests.antt =====
-- Concrete runs of simctty/mmu.cc.
use simctty.Prelude.{ℕ, ◌-◌, ◌^◌, ◌<◌, ◌≡◌, refl, arith, true, false, ok, fault}
use simctty.Exception.{no_exception, data_page_fault, dtlb_miss}
use simctty.Ram.{max_ram_address}
use simctty.Ram.Memory
use simctty.Ram.Guest.{guest}
use simctty.Samples.{zero_bus, one_page}
use simctty.Mmu.{Mmu, permitted, map_address}
use simctty.Mmu.Access.{load8, load32, store16, store32}
use simctty.Mmu.Translate.{map_address_lem}
use simctty.Mmu.Cache.{IsValid, map_address-IsValid}
use simctty.Bus.Valid
use simctty.Bus.Valid.{new_bus-IsValid}
use simctty.Mmu.Bounds.{LoadsWell, StoresWell, accesses-Well}
use simctty.Mmu.Fast.{LoadsWord, load32-LoadsWord}
use simctty.Mmu.Values.{Writes, loads_at, stores_at}
use simctty.Mmu.Flaws.{load32_skips_permission, load32_past_the_end, store16_ignores_translation}

-- Page 3 of the memory, for everybody to read and write; for everybody to write only; and the page
-- of the serial port.
abbrev open_page : Mmu
open_page = one_page 0x63c0

abbrev write_only : Mmu
write_only = one_page 0x6280

abbrev port_page : Mmu
port_page = one_page 0x900003c0

one_page-IsValid : (tr : ℕ) → tr < 2 ^ 32 → IsValid (one_page tr)
one_page-IsValid tr h = record {
  match_words = λ i. ground arith;
  translate_words = λ i. ground arith;
  cached = λ e. absurd (omega arith);
}

abbrev off : Mmu
off = record open_page { is_enabled = false }

off-IsValid : IsValid off
off-IsValid = record {
  match_words = λ i. ground arith;
  translate_words = λ i. ground arith;
  cached = λ e. absurd (omega arith);
}

map_address_lem_example :
    ((map_address open_page 0x2344 true false).phy_address ≡ 0x6344)
    × ((map_address write_only 0x2344 true false).exception ≡ data_page_fault)
    × ((map_address open_page 0x4344 true false).exception ≡ dtlb_miss)
map_address_lem_example =
    let reads = map_address_lem open_page 0x2344 true false (omega arith) in
    let denied = map_address_lem write_only 0x2344 true false (omega arith) in
    let missed = map_address_lem open_page 0x4344 true false (omega arith) in
    (
      (reads.1 refl (refl, refl) refl).1,
      (denied.2 refl (refl, refl) refl).0,
      (missed.3 refl (λ hit. absurd (omega (arith, hit.0)))).0,
    )

map_address-IsValid_example : IsValid (map_address open_page 0x2344 true false).mmu
map_address-IsValid_example =
    map_address-IsValid open_page 0x2344 true false (omega arith)
      (one_page-IsValid 0x63c0 (omega arith))

load32-LoadsWord_example :
    LoadsWord zero_bus
      (map_address open_page 0x2344 true false).phy_address
      (load32 open_page zero_bus 0x2344 true)
unfolding map_address permitted
load32-LoadsWord_example =
    load32-LoadsWord open_page zero_bus 0x2344 true (omega arith) refl
      (one_page-IsValid 0x63c0 (omega arith)) refl refl

loads_at_example :
    load8 open_page zero_bus 0x2345 true
    ≡ ok (record {
      value = guest zero_bus.ram (map_address open_page 0x2345 true false).phy_address;
      exception = no_exception;
      mmu = (map_address open_page 0x2345 true false).mmu;
      bus = zero_bus;
    })
unfolding map_address permitted
loads_at_example =
    (loads_at open_page zero_bus 0x2345 true (one_page-IsValid 0x63c0 (omega arith)) refl refl).0

stores_at_example :
    Writes zero_bus
      (Memory.store32
        (guest zero_bus.ram)
        (map_address open_page 0x2344 true true).phy_address
        0x12345678)
      (store32 open_page zero_bus 0x2344 0x12345678 true)
unfolding map_address permitted
stores_at_example =
    (stores_at open_page zero_bus 0x2344 true (one_page-IsValid 0x63c0 (omega arith)) 0x12345678
        refl refl).2
      refl

load32_skips_permission_example :
    ((map_address write_only 0x2344 true false).exception ≡ data_page_fault)
    × LoadsWord zero_bus 0x6344
        (load32 (map_address write_only 0x2344 true true).mmu zero_bus 0x2344 true)
load32_skips_permission_example =
    load32_skips_permission write_only zero_bus 0x2344 true (one_page-IsValid 0x6280 (omega arith))
      (omega arith) refl refl refl (refl, refl) refl refl (omega arith)

load32_past_the_end_example : load32 off zero_bus (max_ram_address - 1) true ≡ fault
load32_past_the_end_example =
    load32_past_the_end off zero_bus (max_ram_address - 1) true off-IsValid refl (omega arith)
      (omega arith)

store16_ignores_translation_example : store16 port_page zero_bus 0x2000 0x41 true ≡ fault
unfolding map_address permitted
store16_ignores_translation_example =
    store16_ignores_translation port_page zero_bus 0x2000 0x41 true
      (one_page-IsValid 0x900003c0 (omega arith)) refl (omega arith) refl refl

zero_bus-IsValid : Valid.IsValid zero_bus
zero_bus-IsValid = new_bus-IsValid zero_bus.ram (record { bytes = λ i. omega arith })

accesses-Well_example :
    LoadsWell 32 open_page zero_bus (load32 open_page zero_bus 0x2344 true)
    × StoresWell open_page zero_bus (store16 open_page zero_bus 0x2344 7 true)
unfolding map_address permitted
accesses-Well_example =
    let all =
      accesses-Well open_page zero_bus 0x2344 7 true (omega arith)
        (one_page-IsValid 0x63c0 (omega arith)) zero_bus-IsValid in
    (all.2 refl, all.4 (λ low. refl))
