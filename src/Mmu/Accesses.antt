-- ===== src/Mmu/Accesses.antt =====
-- All loads and stores of simctty/mmu.cc together, as one type of accesses and the function that
-- runs one on an object. The two that can fail have the condition under which they do not.
use simctty.Prelude.{
  ℕ, ◌%◌, ◌^◌, ◌≤◌, ◌<◌, ◌≡◌, refl, sym, ◌∙◌, arith, some, Bool, true, false, leb, leb→le, has, inl,
  inr, Bool-cases, if◌then◌else◌,
}
use mathlib.Core.Bool.{false≢true}
use simctty.Exception.{raised}
use simctty.Ram
use simctty.Ram.Guest.{store16-guest}
use simctty.Ram.{max_ram_address}
use simctty.Bus.{Bus, member, get_device, ram_member}
use simctty.Mmu.{Mmu, Mapped, map_address}
use simctty.Mmu.Access.{ram_store, device_store, load8, load16, load32, store8, store16, store32}
use simctty.Mmu.Cache.{IsValid, map_address-IsValid}
use simctty.Mmu.Safety.{
  LoadsSafely, StoresSafely, map_address_place, ram_store-safe, device_store-safe, load8-safe,
  load16-safe, store8-safe, store32-safe, even-of-has,
}
use simctty.Mmu.Fast.{load32-safe}

get_device_ram : (phy : ℕ) → phy ≤ max_ram_address → get_device phy ≡ some ram_member
unfolding get_device
get_device_ram phy h = ground arith

-- The memory, reached as a device of the bus.
ram_member_store16 :
    (m : Mmu) (b : Bus) (phy value : ℕ)
    → IsValid m
    → phy ≤ max_ram_address
    → phy % 2 ≡ 0
    → StoresSafely (device_store (λ d. d.store16) (get_device phy) m b phy value)
unfolding device_store member
ram_member_store16 m b phy value v h e =
    rw (get_device_ram phy h, (store16-guest b.ram phy value h e).returns)
      (record { store = _; returns = refl; valid = v })

-- The end of `Store16`, after a translation that raised nothing.
store16_end :
    (t : Mapped) (b : Bus) (a value : ℕ)
    → IsValid t.mmu
    → t.phy_address % 2 ≡ 0
    → (t.is_ram ≡ true → t.phy_address ≤ max_ram_address)
    → (t.is_ram ≡ false → max_ram_address < t.phy_address)
    → (a ≤ max_ram_address → t.is_ram ≡ true)
    → StoresSafely (
        if leb a max_ram_address
        then ram_store Ram.store16 t.mmu b t.phy_address value
        else device_store (λ d. d.store16) (get_device t.phy_address) t.mmu b t.phy_address value)
unfolding member
store16_end t b a value v even near far in_ram = elim (Bool-cases t.is_ram) [
  | inl ram ↦ elim (Bool-cases (leb a max_ram_address)) [
    | inl low ↦ rw low (
        ram_store-safe t.mmu b v Ram.store16 t.phy_address value
          (_, (store16-guest b.ram t.phy_address value (near ram) even).returns))
    | inr high ↦ rw high (ram_member_store16 t.mmu b t.phy_address value v (near ram) even)
  ]
  | inr other ↦ elim (Bool-cases (leb a max_ram_address)) [
    | inl low ↦ absurd (false≢true (sym other ∙ in_ram (leb→le a max_ram_address low)))
    | inr high ↦
        rw high
          (device_store-safe t.mmu b v (λ d. d.store16) t.phy_address value (far other) (_, refl))
  ]
]

module _ (m : Mmu) (b : Bus) (a : ℕ) (is_sm : Bool) (h : a < 2 ^ 32) (v : IsValid m) where
  pub store16-safe :
      (value : ℕ)
      → (a ≤ max_ram_address → (map_address m a is_sm true).is_ram ≡ true)
      → StoresSafely (store16 m b a value is_sm)
  unfolding store16
  store16-safe value in_ram =
      let t = map_address m a is_sm true in
      let place = map_address_place m a is_sm true v in
      let v' = map_address-IsValid m a is_sm true h v in
      elim (Bool-cases (has a 0x1)) [
        | inl odd ↦ rw odd (record { store = _; returns = refl; valid = v })
        | inr even ↦ elim (Bool-cases (raised t.exception)) [
          | inl bad ↦ rw (even, bad) (record { store = _; returns = refl; valid = v' })
          | inr fine ↦
              rw (even, fine)
                (store16_end t b a value v' (omega (arith, place.0, even-of-has a even)) place.1
                  (place.2 fine) in_ram)
        ]
      ]

-- On a valid MMU and a 32-bit address every load and store returns and leaves the MMU valid: bytes
-- always, loads of halfwords and stores of words always, loads of words at multiples of 4, and
-- stores of halfwords unless the address, before translation, is one of the memory and the
-- translated one is not.
pub accesses-safe :
    (m : Mmu) (b : Bus) (a value : ℕ) (is_sm : Bool)
    → a < 2 ^ 32
    → IsValid m
    → LoadsSafely (load8 m b a is_sm)
      × LoadsSafely (load16 m b a is_sm)
      × (a % 4 ≡ 0 → LoadsSafely (load32 m b a is_sm))
      × StoresSafely (store8 m b a value is_sm)
      × ((a ≤ max_ram_address → (map_address m a is_sm true).is_ram ≡ true)
          → StoresSafely (store16 m b a value is_sm))
      × StoresSafely (store32 m b a value is_sm)
accesses-safe m b a value is_sm h v = (
  load8-safe m b a is_sm h v,
  load16-safe m b a is_sm h v,
  λ whole. load32-safe m b a is_sm h whole v,
  store8-safe m b a is_sm h v value,
  store16-safe m b a is_sm h v value,
  store32-safe m b a is_sm h v value,
)
