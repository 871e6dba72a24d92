-- ===== src/Mmu/Fast.antt =====
-- `MMU::Load32`, which reads the page translated last with no translation.
use simctty.Prelude.{
  ℕ, ◌+◌, ◌*◌, ◌/◌, ◌%◌, ◌^◌, ◌≤◌, ◌<◌, ◌≡◌, ◌≢◌, refl, sym, ◌∙◌, arith, bit_and, Bool, true, false,
  ◌==◌, ==_iff, Result, ok, inl, inr, Bool-cases,
}
use mathlib.Core.Path.{subst}
use simctty.Prelude.Bits.{page_base, page_offset}
use simctty.Exception.{no_exception}
use simctty.Ram.Memory
use simctty.Ram.Guest.{guest, read32-guest}
use simctty.Ram.{max_ram_address}
use simctty.Bus.{Bus, member}
use simctty.Mmu.{MmuType, data_mmu, instruction_mmu, Mmu, page_fault, map_address}
use simctty.Mmu.Access.{Load, raw_load32, load32}
use simctty.Mmu.Translate.{page_of, translate_entry, physical, IsHit, may, map_address_lem}
use simctty.Mmu.Cache.{IsValid, map_address-IsValid}
use simctty.Mmu.Safety.{LoadsSafely, map_address_place, mapped_load-safe}

-- The address lies in the page that was translated last.
abbrev pub IsFast : Mmu → ℕ → Type 0
IsFast m a = bit_and a 0xffffe000 ≡ m.authed_page

-- What such an address stands for.
fast_place :
    (m : Mmu) (a : ℕ)
    → a < 2 ^ 32
    → IsValid m
    → IsFast m a
    → (m.is_enabled ≡ true)
      × IsHit m a
      × (m.authed_phy + bit_and a 0x1fff ≡ physical (translate_entry m a) a)
      × (physical (translate_entry m a) a ≤ max_ram_address)
fast_place m a h v fast =
    let page : m.authed_page ≡ a / 8192 * 8192 = sym fast ∙ page_base a h in
    let c = v.cached (omega arith) in
    let same : page_of m.authed_page ≡ page_of a = omega arith in
    let hit : IsHit m a =
      subst (λ p. (m.match_reg (p % 64) % 2 ≡ 1) × (m.match_reg (p % 64) / 8192 ≡ p)) same c.hit in
    let base : m.authed_phy ≡ translate_entry m a / 8192 * 8192 =
      subst (λ p. m.authed_phy ≡ m.translate_reg (p % 64) / 8192 * 8192) same c.base in
    (c.enabled, hit, omega (arith, page_offset a), omega (arith, c.in_ram))

-- A word of the memory.
abbrev pub word_at : Bus → ℕ → ℕ
word_at b phy = Memory.load32 (guest b.ram) phy

-- A load that gives the word at a physical address, raises nothing and leaves the bus.
pub record LoadsWord (b : Bus) (phy : ℕ) (result : Result Load) : Type 0 where
  pub load : Load
  pub returns : result ≡ ok load
  pub value : load.value ≡ word_at b phy
  pub quiet : load.exception ≡ no_exception
  pub same_bus : load.bus ≡ b

raw_load32-LoadsWord :
    (m : Mmu) (b : Bus) (phy : ℕ)
    → phy ≤ max_ram_address
    → phy % 4 ≡ 0
    → LoadsWord b phy (raw_load32 m b phy)
unfolding raw_load32
raw_load32-LoadsWord m b phy h e = rw (read32-guest b.ram phy h e) (record {
  load = record { value = word_at b phy; exception = no_exception; mmu = m; bus = b };
  returns = refl;
  value = refl;
  quiet = refl;
  same_bus = refl;
})

raw_load32-safe :
    (m : Mmu) (b : Bus) (phy : ℕ)
    → IsValid m
    → phy ≤ max_ram_address
    → phy % 4 ≡ 0
    → LoadsSafely (raw_load32 m b phy)
unfolding raw_load32
raw_load32-safe m b phy v h e = rw (read32-guest b.ram phy h e) (record {
  load = record { value = word_at b phy; exception = no_exception; mmu = m; bus = b };
  returns = refl;
  valid = v;
})

-- The counters of the fast path play no part in translation.
abbrev pub counted : Mmu → ℕ → ℕ → Mmu
counted m hits misses = record m { stats_fast_hit = hits; stats_fast_miss = misses }

pub counted-IsValid : (m : Mmu) (hits misses : ℕ) → IsValid m → IsValid (counted m hits misses)
counted-IsValid m hits misses v = record {
  match_words = v.match_words;
  translate_words = v.translate_words;
  cached = λ e.
      let c = v.cached e in
      record { enabled = c.enabled; hit = c.hit; base = c.base; in_ram = c.in_ram };
}

map_address-counted :
    (m : Mmu) (hits misses a : ℕ) (is_sm is_write : Bool)
    → let t = map_address (counted m hits misses) a is_sm is_write in
      let t' = map_address m a is_sm is_write in
      (t.exception ≡ t'.exception) × (t.phy_address ≡ t'.phy_address) × (t.is_ram ≡ t'.is_ram)
unfolding map_address
map_address-counted m hits misses a is_sm is_write = ground arith

page_fault-ne : (type : MmuType) → page_fault type ≢ no_exception
page_fault-ne data_mmu e = cc
page_fault-ne instruction_mmu e = cc

phy_of_hit :
    (m : Mmu) (a : ℕ) (is_sm : Bool)
    → IsValid m
    → m.is_enabled ≡ true
    → IsHit m a
    → (map_address m a is_sm false).exception ≡ no_exception
    → (map_address m a is_sm false).phy_address ≡ physical (translate_entry m a) a
phy_of_hit m a is_sm v on hit e =
    let spec = map_address_lem m a is_sm false (v.translate_words _) in
    elim (Bool-cases (may m.type (translate_entry m a) is_sm false)) [
      | inl permit ↦ (spec.1 on hit permit).1
      | inr deny ↦ absurd (page_fault-ne m.type (sym (spec.2 on hit deny).0 ∙ e))
    ]

module _ (m : Mmu) (b : Bus) (a : ℕ) (is_sm : Bool) (h : a < 2 ^ 32) (whole : a % 4 ≡ 0)
    (v : IsValid m) where
  -- On the fast path the word is that at the translated address, whatever the mode of the access
  -- and the permission bits of the entry: they are not looked at.
  pub load32-fast : IsFast m a → LoadsWord b (physical (translate_entry m a) a) (load32 m b a is_sm)
  unfolding load32
  load32-fast fast =
      let place = fast_place m a h v fast in
      rw ((==_iff (bit_and a 0xffffe000) m.authed_page).1 fast, place.2)
        (raw_load32-LoadsWord (record m { stats_fast_hit = (m.stats_fast_hit + 1) % 2 ^ 64 }) b
          (physical (translate_entry m a) a) place.3 (omega (arith, whole)))

  -- On a valid MMU and a 32-bit address that is a multiple of 4, where a read is allowed and goes
  -- to the memory: Load32 returns the big-endian word at the translated address, raises nothing
  -- and leaves the bus, through the cached page and past it.
  pub load32-LoadsWord :
      let t = map_address m a is_sm false in
      t.exception ≡ no_exception → t.is_ram ≡ true → LoadsWord b t.phy_address (load32 m b a is_sm)
  unfolding load32
  load32-LoadsWord e ram = elim (Bool-cases (bit_and a 0xffffe000 == m.authed_page)) [
    | inl fast ↦
        (let near = (==_iff (bit_and a 0xffffe000) m.authed_page).0 fast in
          let place = fast_place m a h v near in
          rw (phy_of_hit m a is_sm v place.0 place.1 e) (load32-fast near))
    | inr slow ↦
        (let misses = (m.stats_fast_miss + 1) % 2 ^ 64 in
          let same = map_address-counted m m.stats_fast_hit misses a is_sm false in
          let t = map_address (counted m m.stats_fast_hit misses) a is_sm false in
          let place = map_address_place m a is_sm false v in
          rw (slow, same.0 ∙ e, same.1, same.2 ∙ ram)
            (raw_load32-LoadsWord t.mmu b _ (place.1 ram) (omega (arith, place.0, whole))))
  ]

  -- The load always returns, and leaves the object valid.
  pub load32-safe : LoadsSafely (load32 m b a is_sm)
  unfolding load32 member
  load32-safe = elim (Bool-cases (bit_and a 0xffffe000 == m.authed_page)) [
    | inl fast ↦
        (let place = fast_place m a h v ((==_iff (bit_and a 0xffffe000) m.authed_page).0 fast) in
          rw (fast, place.2)
            (raw_load32-safe (record m { stats_fast_hit = (m.stats_fast_hit + 1) % 2 ^ 64 }) b
              (physical (translate_entry m a) a)
              (counted-IsValid m ((m.stats_fast_hit + 1) % 2 ^ 64) m.stats_fast_miss v) place.3
              (omega (arith, whole))))
    | inr slow ↦
        (let misses = (m.stats_fast_miss + 1) % 2 ^ 64 in
          let v1 = counted-IsValid m m.stats_fast_hit misses v in
          let t = map_address (counted m m.stats_fast_hit misses) a is_sm false in
          let place = map_address_place (counted m m.stats_fast_hit misses) a is_sm false v1 in
          let v' = map_address-IsValid (counted m m.stats_fast_hit misses) a is_sm false h v1 in
          rw slow (
            mapped_load-safe t b v' place.2 (λ d. d.load32) _
              (λ ram.
                raw_load32-safe t.mmu b t.phy_address v' (place.1 ram)
                  (omega (arith, place.0, whole)))
              (_, refl)))
  ]
