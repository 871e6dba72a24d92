-- ===== src/Mmu/Bounds.antt =====
-- What the loads and stores of simctty/mmu.cc give and leave: values of their width, a bus of bytes
-- whose serial port only the guest has touched, and the same control register.
pub mod Parts
use simctty.Prelude.{
  ℕ, ◌+◌, ◌/◌, ◌%◌, ◌^◌, ◌<◌, ◌≡◌, refl, arith, Bool, true, false, Option, none, some, has, leb,
  ◌==◌, bit_and, if◌then◌else◌, Result, ok, Ensures, Ensures-bind, Returns, Ensures-ok, ◌≤◌,
}
use simctty.Exception.{raised}
use simctty.BusDevice.{Loaded, Stored, BusDevice}
use simctty.Ram
use simctty.Ram.Bytes
use simctty.Ram.Bytes.{HasBytes}
use simctty.Ram.{Ram, max_ram_address}
use simctty.Bus.{Bus, get_device}
use simctty.Bus.Valid
use simctty.Bus.Valid.{
  Leads, Leads-none, Leads-ram, LoadsBits, StoreLeads, device_load8, device_load16, device_load32,
  device_store8, device_store16, device_store32,
}
use simctty.Mmu.{Mmu, Mapped, map_address}
use simctty.Mmu.Access.{
  Load, Store, failed_load, failed_store, device_load, device_store, ram_load, ram_store,
  raw_load32, load8, load16, load32, load32_mapped, store8, store16, store32,
}
use simctty.Mmu.Translate.{translate_entry, physical-lem}
use simctty.Mmu.Cache
use simctty.Mmu.Fast.{counted-IsValid, load32-safe}
use simctty.Mmu.Safety.{
  LoadsSafely, StoresSafely, load8-safe, load16-safe, store8-safe, store32-safe,
}
use simctty.Mmu.Accesses.{store16-safe}
use simctty.Mmu.Bounds.Parts.{
  Loads, Stores, map_address_frame, ram_load-Loads, raw_load32-Loads, ram_store-Stores,
  device_load-Loads, device_store-Stores, Loads-if, Stores-if, mapped_load-Loads,
  mapped_store-Stores,
}

module _ (m : Mmu) (b : Bus) (a : ℕ) (is_sm : Bool) (h : a < 2 ^ 32) (v : Cache.IsValid m)
    (w : Valid.IsValid b) where
  pub load8-Loads : Ensures (Loads 8 m.control_register b) (load8 m b a is_sm)
  unfolding load8
  load8-Loads =
      let t = map_address m a is_sm false in
      let (near, same) = map_address_frame m a is_sm false h v in
      mapped_load-Loads m.control_register b w t same 8 _ _ (omega arith)
        (ram_load-Loads m.control_register b w t.mmu same 8 Ram.load8 t.phy_address
          (Bytes.load8-LoadsBits b.ram t.phy_address w.ram))
        (device_load-Loads m.control_register b w t.mmu same 8 (λ d. d.load8)
          (get_device t.phy_address) t.phy_address (omega arith)
          (device_load8 b t.phy_address w near))

  pub load16-Loads : Ensures (Loads 16 m.control_register b) (load16 m b a is_sm)
  unfolding load16
  load16-Loads =
      let t = map_address m a is_sm false in
      let (near, same) = map_address_frame m a is_sm false h v in
      Loads-if m.control_register b 16 (has a 0x1) _ _
        (record { bits = omega arith; leads = Leads-none b w; register = refl })
        (mapped_load-Loads m.control_register b w t same 16 _ _ (omega arith)
          (ram_load-Loads m.control_register b w t.mmu same 16 Ram.load16 t.phy_address
            (Bytes.load16-LoadsBits b.ram t.phy_address w.ram))
          (device_load-Loads m.control_register b w t.mmu same 16 (λ d. d.load16)
            (get_device t.phy_address) t.phy_address (omega arith)
            (device_load16 b t.phy_address w)))

  load32_mapped-Loads : Ensures (Loads 32 m.control_register b) (load32_mapped m b a is_sm)
  unfolding load32_mapped
  load32_mapped-Loads =
      let t = map_address m a is_sm false in
      let (near, same) = map_address_frame m a is_sm false h v in
      mapped_load-Loads m.control_register b w t same 32 _ _ (omega arith)
        (raw_load32-Loads m.control_register b w t.mmu same t.phy_address)
        (device_load-Loads m.control_register b w t.mmu same 32 (λ d. d.load32)
          (get_device t.phy_address) t.phy_address (omega arith) (device_load32 b t.phy_address w))

  pub store8-Stores :
      (value : ℕ) → value < 2 ^ 8 → Ensures (Stores m.control_register b) (store8 m b a value is_sm)
  unfolding store8
  store8-Stores value k =
      let t = map_address m a is_sm true in
      let (near, same) = map_address_frame m a is_sm true h v in
      mapped_store-Stores m.control_register b w t same t.is_ram _ _
        (ram_store-Stores m.control_register b w t.mmu same Ram.store8 t.phy_address value
          (Bytes.store8-HasBytes b.ram t.phy_address w.ram value k))
        (device_store-Stores m.control_register b w t.mmu same (λ d. d.store8)
          (get_device t.phy_address) t.phy_address value
          (device_store8 b t.phy_address w value near k))

  pub store16-Stores :
      (value : ℕ) → Ensures (Stores m.control_register b) (store16 m b a value is_sm)
  unfolding store16
  store16-Stores value =
      let t = map_address m a is_sm true in
      let (near, same) = map_address_frame m a is_sm true h v in
      Stores-if m.control_register b (has a 0x1) _ _
        (record { leads = Leads-none b w; register = refl })
        (mapped_store-Stores m.control_register b w t same (leb a max_ram_address) _ _
          (ram_store-Stores m.control_register b w t.mmu same Ram.store16 t.phy_address value
            (Bytes.store16-HasBytes b.ram t.phy_address w.ram value))
          (device_store-Stores m.control_register b w t.mmu same (λ d. d.store16)
            (get_device t.phy_address) t.phy_address value
            (device_store16 b t.phy_address w value)))

  pub store32-Stores :
      (value : ℕ) → Ensures (Stores m.control_register b) (store32 m b a value is_sm)
  unfolding store32
  store32-Stores value =
      let t = map_address m a is_sm true in
      let (near, same) = map_address_frame m a is_sm true h v in
      Stores-if m.control_register b (has a 0x3) _ _
        (record { leads = Leads-none b w; register = refl })
        (mapped_store-Stores m.control_register b w t same t.is_ram _ _
          (ram_store-Stores m.control_register b w t.mmu same Ram.store32 t.phy_address value
            (Bytes.store32-HasBytes b.ram t.phy_address w.ram value))
          (device_store-Stores m.control_register b w t.mmu same (λ d. d.store32)
            (get_device t.phy_address) t.phy_address value
            (device_store32 b t.phy_address w value)))

pub load32-Loads :
    (m : Mmu) (b : Bus) (a : ℕ) (is_sm : Bool)
    → a < 2 ^ 32
    → Cache.IsValid m
    → Valid.IsValid b
    → Ensures (Loads 32 m.control_register b) (load32 m b a is_sm)
unfolding load32
load32-Loads m b a is_sm h v w =
    let missed = record m { stats_fast_miss = (m.stats_fast_miss + 1) % 2 ^ 64 } in
    let v' = counted-IsValid m m.stats_fast_hit _ v in
    Loads-if m.control_register b 32 (bit_and a 0xffffe000 == m.authed_page) _ _
      (raw_load32-Loads m.control_register b w
        (record m { stats_fast_hit = (m.stats_fast_hit + 1) % 2 ^ 64 }) refl
        (m.authed_phy + bit_and a 0x1fff))
      (load32_mapped-Loads missed b a is_sm h v' w)

-- The access returns, what it gives fits, and the objects that it leaves are in good order.
abbrev pub LoadsWell : ℕ → Mmu → Bus → Result Load → Type 0
LoadsWell k m b = Returns (λ l. Loads k m.control_register b l × Cache.IsValid l.mmu)

abbrev pub StoresWell : Mmu → Bus → Result Store → Type 0
StoresWell m b = Returns (λ s. Stores m.control_register b s × Cache.IsValid s.mmu)

well_loaded :
    (k : ℕ) (m : Mmu) (b : Bus) (result : Result Load)
    → LoadsSafely result
    → Ensures (Loads k m.control_register b) result
    → LoadsWell k m b result
well_loaded k m b result safe e = record {
  value = safe.load;
  returns = safe.returns;
  holds = (Ensures-ok (Loads k m.control_register b) result safe.returns e, safe.valid);
}

well_stored :
    (m : Mmu) (b : Bus) (result : Result Store)
    → StoresSafely result
    → Ensures (Stores m.control_register b) result
    → StoresWell m b result
well_stored m b result safe e = record {
  value = safe.store;
  returns = safe.returns;
  holds = (Ensures-ok (Stores m.control_register b) result safe.returns e, safe.valid);
}

-- On a valid MMU, a bus of bytes and a 32-bit address every load and store returns: Load8, Load16
-- and Load32 give values of 8, 16 and 32 bits, the MMU stays valid with the same control register,
-- the memory and the serial port still hold bytes, and the port was changed by loads and stores of
-- the guest only. The conditions are that Load32 is at a multiple of 4, that the value of Store8
-- is a byte, and that Store16 is not at an address of the memory, before translation, that is
-- translated to one that is not.
pub accesses-Well :
    (m : Mmu) (b : Bus) (a value : ℕ) (is_sm : Bool)
    → a < 2 ^ 32
    → Cache.IsValid m
    → Valid.IsValid b
    → LoadsWell 8 m b (load8 m b a is_sm)
      × LoadsWell 16 m b (load16 m b a is_sm)
      × (a % 4 ≡ 0 → LoadsWell 32 m b (load32 m b a is_sm))
      × (value < 2 ^ 8 → StoresWell m b (store8 m b a value is_sm))
      × ((a ≤ max_ram_address → (map_address m a is_sm true).is_ram ≡ true)
          → StoresWell m b (store16 m b a value is_sm))
      × StoresWell m b (store32 m b a value is_sm)
accesses-Well m b a value is_sm h v w = (
  well_loaded 8 m b _ (load8-safe m b a is_sm h v) (load8-Loads m b a is_sm h v w),
  well_loaded 16 m b _ (load16-safe m b a is_sm h v) (load16-Loads m b a is_sm h v w),
  λ e. well_loaded 32 m b _ (load32-safe m b a is_sm h e v) (load32-Loads m b a is_sm h v w),
  λ k.
      well_stored m b _ (store8-safe m b a is_sm h v value)
        (store8-Stores m b a is_sm h v w value k),
  λ e.
      well_stored m b _ (store16-safe m b a is_sm h v value e)
        (store16-Stores m b a is_sm h v w value),
  well_stored m b _ (store32-safe m b a is_sm h v value) (store32-Stores m b a is_sm h v w value),
)
