-- ===== src/Mmu/Cache.antt =====
-- The page that was translated last (`authed_page` and `authed_phy` in the model of
-- simctty/mmu.cc), which the fast path of `Load32` uses, and what it means for it to be valid.
use simctty.Prelude.{
  ℕ, ◌+◌, ◌*◌, ◌/◌, ◌%◌, ◌^◌, ◌≤◌, ◌<◌, ◌≡◌, ◌⊎◌, refl, arith, Bool, true, leb, ok, inl, inr,
  Bool-cases, leb→le,
}
use simctty.Prelude.Bits.{has_bit, page_base}
use simctty.Ram.{max_ram_address}
use simctty.Mmu.{
  MmuType, Mmu, map_page, map_address, clear_fast_auth_cache, reset, new_mmu, set_is_enabled,
  set_reg,
}
use simctty.Mmu.Translate.{IsHit, match_entry, translate_entry, page_of, physical, physical-lem}

-- The cached page is translated by its entry.
pub record IsCached (m : Mmu) : Type 0 where
  pub enabled : m.is_enabled ≡ true
  pub hit : IsHit m m.authed_page
  pub base : m.authed_phy ≡ translate_entry m m.authed_page / 8192 * 8192
  pub in_ram : m.authed_phy + 8191 ≤ max_ram_address

-- The registers hold 32 bits, and a cached page, whose address is a multiple of the page size, is
-- cached rightly. The value 1 stands for no page.
pub record IsValid (m : Mmu) : Type 0 where
  pub match_words : (i : ℕ) → m.match_reg i < 2 ^ 32
  pub translate_words : (i : ℕ) → m.translate_reg i < 2 ^ 32
  pub cached : m.authed_page % 8192 ≡ 0 → IsCached m

-- A page that was just translated, and lies in the memory.
fresh-IsCached :
    (m : Mmu) (address : ℕ)
    → m.is_enabled ≡ true
    → IsHit m address
    → physical (translate_entry m address) address ≤ max_ram_address
    → IsCached (record m {
      authed_page = address / 8192 * 8192;
      authed_phy = translate_entry m address / 8192 * 8192;
    })
fresh-IsCached m address on hit room =
    let same : page_of (address / 8192 * 8192) ≡ page_of address = omega arith in
    record { enabled = on; hit = rw same hit; base = rw same; in_ram = omega arith }

map_page-IsCached :
    (m : Mmu) (address : ℕ)
    → address < 2 ^ 32
    → translate_entry m address < 2 ^ 32
    → m.is_enabled ≡ true
    → IsHit m address
    → let m' = (map_page m address (translate_entry m address)).mmu in
      m'.authed_page % 8192 ≡ 0 → IsCached m'
unfolding map_page
map_page-IsCached m address h k on hit =
    rw
      (
        physical-lem (translate_entry m address) address k,
        page_base address h,
        page_base (translate_entry m address) k,
      )
      (elim (Bool-cases (leb (physical (translate_entry m address) address) max_ram_address)) [
        | inl room ↦ rw room (λ e. fresh-IsCached m address on hit (leb→le _ _ room))
        | inr out ↦ rw out (λ e. absurd (omega arith))
      ])

-- A translation leaves the object alone, or goes through an entry that fits.
map_address-cases :
    (m : Mmu) (address : ℕ) (is_sm is_write : Bool)
    → let m' = (map_address m address is_sm is_write).mmu in
      (m' ≡ m)
      ⊎ ((m' ≡ (map_page m address (translate_entry m address)).mmu)
          × (m.is_enabled ≡ true)
          × IsHit m address)
unfolding map_address
map_address-cases m address is_sm is_write = ground (arith, has_bit (match_entry m address) 0)

map_page-IsValid :
    (m : Mmu) (address : ℕ)
    → address < 2 ^ 32
    → m.is_enabled ≡ true
    → IsHit m address
    → IsValid m
    → IsValid (map_page m address (translate_entry m address)).mmu
unfolding map_page
map_page-IsValid m address h on hit v = record {
  match_words = λ i. ground (arith, v.match_words i);
  translate_words = λ i. ground (arith, v.translate_words i);
  cached = map_page-IsCached m address h (v.translate_words _) on hit;
}

-- At a 32-bit address MapAddress keeps the MMU valid: its registers hold 32 bits, and a cached
-- page is one that its entry translates to a whole page of the memory.
pub map_address-IsValid :
    (m : Mmu) (address : ℕ) (is_sm is_write : Bool)
    → address < 2 ^ 32
    → IsValid m
    → IsValid (map_address m address is_sm is_write).mmu
map_address-IsValid m address is_sm is_write h v =
    elim (map_address-cases m address is_sm is_write) [
      | inl same ↦ rw same v
      | inr (page, on, hit) ↦ rw page (map_page-IsValid m address h on hit v)
    ]

-- An object with no cached page is valid if its registers are words.
pub no_page-IsValid :
    (m : Mmu)
    → ((i : ℕ) → m.match_reg i < 2 ^ 32)
    → ((i : ℕ) → m.translate_reg i < 2 ^ 32)
    → m.authed_page ≡ 1
    → IsValid m
no_page-IsValid m match_words translate_words one = record {
  match_words = match_words;
  translate_words = translate_words;
  cached = λ e. absurd (omega arith);
}

-- SetReg of a 32-bit value on a valid MMU, where the index is that of a register, leaves the MMU
-- valid with no page cached.
pub set_reg-IsValid :
    (m : Mmu) (index value : ℕ) {m' : Mmu}
    → IsValid m
    → value < 2 ^ 32
    → set_reg m index value ≡ ok m'
    → IsValid m' × (m'.authed_page ≡ 1)
unfolding set_reg
set_reg-IsValid m index value {m'} v h e = (
  no_page-IsValid m' (λ i. ground (arith, v.match_words i))
      (λ i. ground (arith, v.translate_words i)) (ground arith),
  ground arith,
)

pub set_is_enabled-IsValid : (m : Mmu) (on : Bool) → IsValid m → IsValid (set_is_enabled m on)
unfolding set_is_enabled
set_is_enabled-IsValid m on v = no_page-IsValid _ v.match_words v.translate_words refl

pub clear_fast_auth_cache-IsValid : (m : Mmu) → IsValid m → IsValid (clear_fast_auth_cache m)
unfolding clear_fast_auth_cache
clear_fast_auth_cache-IsValid m v = no_page-IsValid _ v.match_words v.translate_words refl

pub reset-IsValid : (m : Mmu) → IsValid m → IsValid (reset m)
unfolding reset
reset-IsValid m v = no_page-IsValid _ (λ i. ground (arith, v.match_words i)) v.translate_words refl

-- A new object is valid, whatever words its registers hold.
pub new_mmu-IsValid :
    (type : MmuType) (m : Mmu)
    → ((i : ℕ) → m.match_reg i < 2 ^ 32)
    → ((i : ℕ) → m.translate_reg i < 2 ^ 32)
    → IsValid (new_mmu type m)
unfolding new_mmu reset
new_mmu-IsValid type m match_words translate_words =
    no_page-IsValid _ (λ i. ground (arith, match_words i)) translate_words refl
