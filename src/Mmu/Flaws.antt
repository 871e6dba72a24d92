-- ===== src/Mmu/Flaws.antt =====
-- Where the loads and stores of simctty/mmu.cc leave the rules: the fast path of `Load32` looks at
-- no permission, `Load32` checks no alignment, and `Store16` tests the address before translation.
use simctty.Prelude.{
  ℕ, ◌+◌, ◌*◌, ◌/◌, ◌%◌, ◌^◌, ◌≤◌, ◌<◌, ◌≡◌, ◌∙◌, ap, arith, bit_and, Bool, true, false, ◌==◌,
  fault, inl, inr, Bool-cases, le→leb,
}
use mathlib.Core.Path.{subst}
use simctty.Prelude.Bits.{has_bit, page_base}
use simctty.Exception.{no_exception, data_page_fault, raised}
use simctty.Ram.{max_ram_address, size}
use simctty.Ram.Faults.{read32-fault, store16-fault}
use simctty.Bus.{Bus}
use simctty.Mmu.{Mmu, data_mmu, map_address, page_fault}
use simctty.Mmu.Access.{load32, store16}
use simctty.Mmu.Translate.{
  translate_entry, physical, IsHit, may, match_entry, permitted-may, physical-lem, map_address_lem,
}
use simctty.Mmu.Cache.{IsValid, map_address-IsValid}
use simctty.Mmu.Safety.{map_address_place}
use simctty.Mmu.Values.{has-even}
use simctty.Mmu.Fast.{LoadsWord, load32-fast}

-- What a permitted translation to the memory leaves.
map_address-fresh :
    (m : Mmu) (a : ℕ) (is_sm is_write : Bool)
    → a < 2 ^ 32
    → translate_entry m a < 2 ^ 32
    → m.is_enabled ≡ true
    → IsHit m a
    → may m.type (translate_entry m a) is_sm is_write ≡ true
    → physical (translate_entry m a) a ≤ max_ram_address
    → (map_address m a is_sm is_write).mmu
      ≡ record m { authed_page = a / 8192 * 8192; authed_phy = translate_entry m a / 8192 * 8192 }
unfolding map_address
map_address-fresh m a is_sm is_write h k on hit permit room = ground (
  arith,
  permitted-may m.type (translate_entry m a) is_sm is_write,
  has_bit (match_entry m a) 0,
  page_base a h,
  page_base (translate_entry m a) k,
  physical-lem (translate_entry m a) a k,
)

-- Take a valid data MMU with translation on, and a 32-bit address that is a multiple of 4 in a
-- page whose entry leads to the memory and permits writes and not reads. A read there is a page
-- fault; but after the translation of a write, Load32 in the same mode returns the word and raises
-- nothing.
pub load32_skips_permission :
    (m : Mmu) (b : Bus) (a : ℕ) (is_sm : Bool)
    → IsValid m
    → a < 2 ^ 32
    → a % 4 ≡ 0
    → m.type ≡ data_mmu
    → m.is_enabled ≡ true
    → IsHit m a
    → may data_mmu (translate_entry m a) is_sm true ≡ true
    → may data_mmu (translate_entry m a) is_sm false ≡ false
    → physical (translate_entry m a) a ≤ max_ram_address
    → ((map_address m a is_sm false).exception ≡ data_page_fault)
      × LoadsWord b
          (physical (translate_entry m a) a)
          (load32 (map_address m a is_sm true).mmu b a is_sm)
load32_skips_permission m b a is_sm v h whole kind on hit writes reads room =
    let spec = map_address_lem m a is_sm false (v.translate_words _) in
    let fresh =
      map_address-fresh m a is_sm true h (v.translate_words _) on hit (rw kind writes) room in
    let v' = subst IsValid fresh (map_address-IsValid m a is_sm true h v) in
    (
      (spec.2 on hit (rw kind reads)).0 ∙ ap page_fault kind,
      rw fresh (load32-fast _ b a is_sm h whole v' (page_base a h)),
    )

-- On a valid MMU with translation off, Load32 at one of the last three bytes of the memory reads
-- past the end of the array.
pub load32_past_the_end :
    (m : Mmu) (b : Bus) (a : ℕ) (is_sm : Bool)
    → IsValid m
    → m.is_enabled ≡ false
    → a ≤ max_ram_address
    → size ≤ a + 3
    → load32 m b a is_sm ≡ fault
unfolding load32 map_address
load32_past_the_end m b a is_sm v off h past =
    elim (Bool-cases (bit_and a 0xffffe000 == m.authed_page)) [
      | inl fast ↦
          (let page : m.authed_page % 8192 ≡ 0 = ground (arith, page_base a (omega arith)) in
            let on = (v.cached page).enabled in cc)
      | inr slow ↦ ground (arith, read32-fault b.ram a past)
    ]

-- On a valid MMU, Store16 at an even virtual address that is low enough for the memory, where a
-- write is allowed and its translation does not go to the memory, goes to the memory all the same,
-- outside the array.
pub store16_ignores_translation :
    (m : Mmu) (b : Bus) (a value : ℕ) (is_sm : Bool)
    → IsValid m
    → a % 2 ≡ 0
    → a ≤ max_ram_address
    → (map_address m a is_sm true).exception ≡ no_exception
    → (map_address m a is_sm true).is_ram ≡ false
    → store16 m b a value is_sm ≡ fault
unfolding store16
store16_ignores_translation m b a value is_sm v even low fine elsewhere =
    let t = map_address m a is_sm true in
    let place = map_address_place m a is_sm true v in
    rw (
      has-even a even,
      fine,
      le→leb a max_ram_address low,
      store16-fault b.ram t.phy_address value (place.2 (ap raised fine) elsewhere),
    )
