-- ===== src/Mmu/Translate.antt =====
-- `MMU::MapAddress` against a description of translation in plain arithmetic: pages of 8192 bytes,
-- a table of 64 entries chosen by the page number, and permission bits in the translate register.
use simctty.Prelude.{
  ℕ, ◌+◌, ◌*◌, ◌/◌, ◌%◌, ◌^◌, ◌<◌, ◌≡◌, refl, arith, bit_and, bit_or, Bool, true, false, leb, ◌==◌,
  ◌||◌,
}
use simctty.Prelude.Bits.{has_bit, has_either, has_pair, page_base, page_offset, bit_or_fields}
use simctty.Exception.{no_exception}
use simctty.Ram.{max_ram_address}
use simctty.Mmu.{
  MmuType, data_mmu, instruction_mmu, Mmu, permitted, page_fault, tlb_miss, map_address,
}

abbrev pub page_of : ℕ → ℕ
page_of address = address / 8192

abbrev pub match_entry : Mmu → ℕ → ℕ
match_entry m address = m.match_reg (page_of address % 64)

abbrev pub translate_entry : Mmu → ℕ → ℕ
translate_entry m address = m.translate_reg (page_of address % 64)

-- The entry is valid and is that of the page.
abbrev pub IsHit : Mmu → ℕ → Type 0
IsHit m address = (match_entry m address % 2 ≡ 1) × (match_entry m address / 8192 ≡ page_of address)

abbrev pub bit : ℕ → ℕ → Bool
bit x k = x / 2 ^ k % 2 == 1

-- Bits 6 and 7 are read and write for the user, bits 8 and 9 for the supervisor, who may use the
-- user's too. For an instruction they are execution by the supervisor and by the user, and either
-- serves both.
abbrev pub may : MmuType → ℕ → Bool → Bool → Bool
may instruction_mmu tr is_sm is_write = bit tr 6 || bit tr 7
may data_mmu tr true true = bit tr 7 || bit tr 9
may data_mmu tr true false = bit tr 6 || bit tr 8
may data_mmu tr false true = bit tr 7
may data_mmu tr false false = bit tr 6

pub permitted-may :
    (type : MmuType) (tr : ℕ) (is_sm is_write : Bool)
    → permitted type tr is_sm is_write ≡ may type tr is_sm is_write
unfolding permitted
permitted-may instruction_mmu tr is_sm is_write = has_pair tr 6 7 refl
permitted-may data_mmu tr true true = has_either tr 7 9 refl
permitted-may data_mmu tr true false = has_either tr 6 8 refl
permitted-may data_mmu tr false true = has_bit tr 7
permitted-may data_mmu tr false false = has_bit tr 6

-- The physical address of an address in a page.
abbrev pub physical : ℕ → ℕ → ℕ
physical tr address = tr / 8192 * 8192 + address % 8192

pub physical-lem :
    (tr address : ℕ)
    → tr < 2 ^ 32
    → bit_or (bit_and tr 0xffffe000) (bit_and address 0x1fff) ≡ physical tr address
physical-lem tr address h =
    rw (page_base tr h, page_offset address)
      (bit_or_fields 13 (tr / 8192) (address % 8192) (omega arith))

-- MapAddress where the translate register of the page holds 32 bits. With translation off an
-- address is physical. With it on, the entry of the page decides: no valid entry or one of another
-- page is a miss, one whose bits do not permit the access is a page fault, and otherwise the page
-- is replaced and the offset kept. `is_ram` is set where there is no exception and the physical
-- address is in the memory.
pub map_address_lem :
    (m : Mmu) (address : ℕ) (is_sm is_write : Bool)
    → translate_entry m address < 2 ^ 32
    → let t = map_address m address is_sm is_write in
      let tr = translate_entry m address in
      (m.is_enabled ≡ false
        → (t.exception ≡ no_exception)
          × (t.phy_address ≡ address)
          × (t.is_ram ≡ leb address max_ram_address))
      × (m.is_enabled ≡ true
          → IsHit m address
          → may m.type tr is_sm is_write ≡ true
          → (t.exception ≡ no_exception)
            × (t.phy_address ≡ physical tr address)
            × (t.is_ram ≡ leb (physical tr address) max_ram_address))
      × (m.is_enabled ≡ true
          → IsHit m address
          → may m.type tr is_sm is_write ≡ false
          → (t.exception ≡ page_fault m.type) × (t.is_ram ≡ false))
      × (m.is_enabled ≡ true
          → ¬ IsHit m address
          → (t.exception ≡ tlb_miss m.type) × (t.is_ram ≡ false))
unfolding map_address
map_address_lem m address is_sm is_write k = (
  λ off. ground arith,
  λ enabled hit permit. ground (
    arith,
    permitted-may m.type (translate_entry m address) is_sm is_write,
    has_bit (match_entry m address) 0,
    physical-lem (translate_entry m address) address k,
  ),
  λ enabled hit deny. ground (
    arith,
    permitted-may m.type (translate_entry m address) is_sm is_write,
    has_bit (match_entry m address) 0,
  ),
  λ enabled miss. ground (arith, has_bit (match_entry m address) 0),
)
