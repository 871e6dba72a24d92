-- ===== src/Mmu/Safety.antt =====
-- The loads and stores of simctty/mmu.cc on a valid object, one by one: which of them can reach
-- undefined behaviour, and the object each leaves.
use simctty.Prelude.{
  ℕ, ◌%◌, ◌^◌, ◌≤◌, ◌<◌, ◌≡◌, ◌⊎◌, refl, arith, Bool, true, false, none, some, has, if◌then◌else◌,
  Result, ok, inl, inr, Bool-cases,
}
use simctty.Prelude.Bits.{has_bit, bit_and_ones}
use simctty.Exception.{raised}
use simctty.BusDevice.{Loaded, Stored, BusDevice}
use simctty.Ram
use simctty.Ram.{Ram, max_ram_address, size}
use simctty.Uart.Total.{load8-ok, store8-ok}
use simctty.Ram.Guest.{load8-guest, load16-guest, store8-guest, store32-guest}
use simctty.Bus.{Bus, member, uart_member, get_device}
use simctty.Mmu.{Mmu, Mapped, map_address}
use simctty.Mmu.Access.{
  Load, Store, failed_load, failed_store, device_load, device_store, ram_load, ram_store, load8,
  load16, store8, store32,
}
use simctty.Mmu.Translate.{translate_entry, physical-lem}
use simctty.Mmu.Cache.{IsValid, map_address-IsValid}

-- A load returns, and leaves the object valid; so for a store.
pub record LoadsSafely (result : Result Load) : Type 0 where
  pub load : Load
  pub returns : result ≡ ok load
  pub valid : IsValid load.mmu

pub record StoresSafely (result : Result Store) : Type 0 where
  pub store : Store
  pub returns : result ≡ ok store
  pub valid : IsValid store.mmu

-- A translation keeps the offset in the page, and `is_ram` says where the address lies.
pub map_address_place :
    (m : Mmu) (a : ℕ) (is_sm is_write : Bool)
    → IsValid m
    → let t = map_address m a is_sm is_write in
      (t.phy_address % 8192 ≡ a % 8192)
      × (t.is_ram ≡ true → t.phy_address ≤ max_ram_address)
      × (raised t.exception ≡ false → t.is_ram ≡ false → max_ram_address < t.phy_address)
unfolding map_address
map_address_place m a is_sm is_write v =
    ground (arith, physical-lem (translate_entry m a) a (v.translate_words _))

-- Past the memory the bus has the serial port or nothing.
get_device_past :
    (phy : ℕ)
    → max_ram_address < phy
    → (get_device phy ≡ none) ⊎ (get_device phy ≡ some uart_member)
unfolding get_device
get_device_past phy h = ground arith

module _ (m : Mmu) (b : Bus) (v : IsValid m) where
  device_load-safe :
      (f : BusDevice Bus → Bus → ℕ → Result (Loaded Bus)) (phy : ℕ)
      → max_ram_address < phy
      → (l : Loaded Bus) × (f uart_member b phy ≡ ok l)
      → LoadsSafely (device_load f (get_device phy) m b phy)
  unfolding device_load
  device_load-safe f phy h (l, e) = elim (get_device_past phy h) [
    | inl null ↦ rw null (record { load = _; returns = refl; valid = v })
    | inr uart ↦ rw (uart, e) (record { load = _; returns = refl; valid = v })
  ]

  ram_load-safe :
      (f : Ram → ℕ → Result (Loaded Ram)) (phy : ℕ)
      → (l : Loaded Ram) × (f b.ram phy ≡ ok l)
      → LoadsSafely (ram_load f m b phy)
  unfolding ram_load
  ram_load-safe f phy (l, e) = rw e (record { load = _; returns = refl; valid = v })

  pub device_store-safe :
      (f : BusDevice Bus → Bus → ℕ → ℕ → Result (Stored Bus)) (phy value : ℕ)
      → max_ram_address < phy
      → (s : Stored Bus) × (f uart_member b phy value ≡ ok s)
      → StoresSafely (device_store f (get_device phy) m b phy value)
  unfolding device_store
  device_store-safe f phy value h (s, e) = elim (get_device_past phy h) [
    | inl null ↦ rw null (record { store = _; returns = refl; valid = v })
    | inr uart ↦ rw (uart, e) (record { store = _; returns = refl; valid = v })
  ]

  pub ram_store-safe :
      (f : Ram → ℕ → ℕ → Result (Stored Ram)) (phy value : ℕ)
      → (s : Stored Ram) × (f b.ram phy value ≡ ok s)
      → StoresSafely (ram_store f m b phy value)
  unfolding ram_store
  ram_store-safe f phy value (s, e) = rw e (record { store = _; returns = refl; valid = v })

uart_load8 : (b : Bus) (phy : ℕ) → (l : Loaded Bus) × (uart_member.load8 b phy ≡ ok l)
unfolding member
uart_load8 b phy =
    let (l, e) = load8-ok b.uart phy in
    (record { value = l.value; exception = l.exception; state = record b { uart = l.state } }, rw e)

uart_store8 : (b : Bus) (phy v : ℕ) → (s : Stored Bus) × (uart_member.store8 b phy v ≡ ok s)
unfolding member
uart_store8 b phy v =
    let (s, e) = store8-ok b.uart phy v in
    (record { exception = s.exception; state = record b { uart = s.state } }, rw e)

-- What the loads and stores do with a translation `t`.
module _ (t : Mapped) (b : Bus) (v : IsValid t.mmu)
    (past : raised t.exception ≡ false → t.is_ram ≡ false → max_ram_address < t.phy_address) where
  pub mapped_load-safe :
      (f : BusDevice Bus → Bus → ℕ → Result (Loaded Bus)) (in_ram : Result Load)
      → (t.is_ram ≡ true → LoadsSafely in_ram)
      → (l : Loaded Bus) × (f uart_member b t.phy_address ≡ ok l)
      → LoadsSafely (
          if raised t.exception
          then ok (failed_load t.exception t.mmu b)
          else if t.is_ram
          then in_ram
          else device_load f (get_device t.phy_address) t.mmu b t.phy_address)
  mapped_load-safe f in_ram ram uart = elim (Bool-cases (raised t.exception)) [
    | inl bad ↦ rw bad (record { load = _; returns = refl; valid = v })
    | inr fine ↦ elim (Bool-cases t.is_ram) [
      | inl yes_ram ↦ rw (fine, yes_ram) (ram yes_ram)
      | inr no_ram ↦
          rw (fine, no_ram) (device_load-safe t.mmu b v f t.phy_address (past fine no_ram) uart)
    ]
  ]

  pub mapped_store-safe :
      (f : BusDevice Bus → Bus → ℕ → ℕ → Result (Stored Bus)) (value : ℕ) (in_ram : Result Store)
      → (t.is_ram ≡ true → StoresSafely in_ram)
      → (s : Stored Bus) × (f uart_member b t.phy_address value ≡ ok s)
      → StoresSafely (
          if raised t.exception
          then ok (failed_store t.exception t.mmu b)
          else if t.is_ram
          then in_ram
          else device_store f (get_device t.phy_address) t.mmu b t.phy_address value)
  mapped_store-safe f value in_ram ram uart = elim (Bool-cases (raised t.exception)) [
    | inl bad ↦ rw bad (record { store = _; returns = refl; valid = v })
    | inr fine ↦ elim (Bool-cases t.is_ram) [
      | inl yes_ram ↦ rw (fine, yes_ram) (ram yes_ram)
      | inr no_ram ↦
          rw (fine, no_ram)
            (device_store-safe t.mmu b v f t.phy_address value (past fine no_ram) uart)
    ]
  ]

pub even-of-has : (a : ℕ) → has a 0x1 ≡ false → a % 2 ≡ 0
even-of-has a e = ground (arith, has_bit a 0)

pub aligned-of-has : (a : ℕ) → has a 0x3 ≡ false → a % 4 ≡ 0
aligned-of-has a e = ground (arith, bit_and_ones 2 a)

module _ (m : Mmu) (b : Bus) (a : ℕ) (is_sm : Bool) (h : a < 2 ^ 32) (v : IsValid m) where
  pub load8-safe : LoadsSafely (load8 m b a is_sm)
  unfolding load8
  load8-safe =
      let t = map_address m a is_sm false in
      let place = map_address_place m a is_sm false v in
      let v' = map_address-IsValid m a is_sm false h v in
      mapped_load-safe t b v' place.2 (λ d. d.load8) _
        (λ ram.
          ram_load-safe t.mmu b v' Ram.load8 t.phy_address
            (_, load8-guest b.ram t.phy_address (place.1 ram)))
        (uart_load8 b t.phy_address)

  pub load16-safe : LoadsSafely (load16 m b a is_sm)
  unfolding load16 member
  load16-safe =
      let t = map_address m a is_sm false in
      let place = map_address_place m a is_sm false v in
      let v' = map_address-IsValid m a is_sm false h v in
      elim (Bool-cases (has a 0x1)) [
        | inl odd ↦ rw odd (record { load = _; returns = refl; valid = v })
        | inr even ↦ rw even (
            mapped_load-safe t b v' place.2 (λ d. d.load16) _
              (λ ram. ram_load-safe t.mmu b v' Ram.load16 t.phy_address (
                _,
                load16-guest b.ram t.phy_address (place.1 ram)
                    (omega (arith, even-of-has a even, place.0)),
              ))
              (_, refl))
      ]

  pub store8-safe : (value : ℕ) → StoresSafely (store8 m b a value is_sm)
  unfolding store8
  store8-safe value =
      let t = map_address m a is_sm true in
      let place = map_address_place m a is_sm true v in
      let v' = map_address-IsValid m a is_sm true h v in
      mapped_store-safe t b v' place.2 (λ d. d.store8) value _
        (λ ram.
          ram_store-safe t.mmu b v' Ram.store8 t.phy_address value
            (_, (store8-guest b.ram t.phy_address value (place.1 ram)).returns))
        (uart_store8 b t.phy_address value)

  pub store32-safe : (value : ℕ) → StoresSafely (store32 m b a value is_sm)
  unfolding store32 member
  store32-safe value =
      let t = map_address m a is_sm true in
      let place = map_address_place m a is_sm true v in
      let v' = map_address-IsValid m a is_sm true h v in
      elim (Bool-cases (has a 0x3)) [
        | inl odd ↦ rw odd (record { store = _; returns = refl; valid = v })
        | inr whole ↦ rw whole (
            mapped_store-safe t b v' place.2 (λ d. d.store32) value _
              (λ ram. ram_store-safe t.mmu b v' Ram.store32 t.phy_address value (
                _,
                (store32-guest b.ram t.phy_address value (place.1 ram)
                    (omega (arith, aligned-of-has a whole, place.0))).returns,
              ))
              (_, refl))
      ]
