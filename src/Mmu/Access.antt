-- ===== src/Mmu/Access.antt =====
-- The loads and stores of simctty/mmu.cc: each translates its address and goes to the memory or to
-- a device on the bus. The fast path of `Load32` reads the page that was translated last.
use simctty.Prelude.{
  ℕ, ◌+◌, ◌%◌, ◌^◌, bit_and, Bool, true, false, Option, none, some, leb, ◌==◌, if◌then◌else◌, has,
  Result, ok, ◌>>=◌,
}
use simctty.Exception.{Exception, raised, no_exception, bus_error, alignment}
use simctty.BusDevice.{Loaded, Stored, BusDevice}
use simctty.Ram
use simctty.Ram.{max_ram_address}
use simctty.Bus.{Bus, get_device}
use simctty.Mmu.{Mmu, map_address}

-- The result of a load and of a store, with the objects that it leaves.
pub record Load : Type 0 where
  pub value : ℕ
  pub exception : Exception
  pub mmu : Mmu
  pub bus : Bus

pub record Store : Type 0 where
  pub exception : Exception
  pub mmu : Mmu
  pub bus : Bus

abbrev pub failed_load : Exception → Mmu → Bus → Load
failed_load e m b = record { value = 0; exception = e; mmu = m; bus = b }

abbrev pub failed_store : Exception → Mmu → Bus → Store
failed_store e m b = record { exception = e; mmu = m; bus = b }

-- The device at a physical address: a null pointer is a bus error.
unfoldable pub device_load :
    (BusDevice Bus → Bus → ℕ → Result (Loaded Bus))
    → Option (BusDevice Bus)
    → Mmu
    → Bus
    → ℕ
    → Result Load
device_load f none m b phy = ok (failed_load bus_error m b)
device_load f (some d) m b phy = do
  l ← f d b phy
  ok (record { value = l.value; exception = l.exception; mmu = m; bus = l.state })

unfoldable pub device_store :
    (BusDevice Bus → Bus → ℕ → ℕ → Result (Stored Bus))
    → Option (BusDevice Bus)
    → Mmu
    → Bus
    → ℕ
    → ℕ
    → Result Store
device_store f none m b phy value = ok (failed_store bus_error m b)
device_store f (some d) m b phy value = do
  s ← f d b phy value
  ok (record { exception = s.exception; mmu = m; bus = s.state })

-- `ram_->LoadN` and `ram_->StoreN`, on the memory of the bus.
unfoldable pub ram_load : (Ram.Ram → ℕ → Result (Loaded Ram.Ram)) → Mmu → Bus → ℕ → Result Load
ram_load f m b phy = do
  l ← f b.ram phy
  ok (record {
    value = l.value;
    exception = l.exception;
    mmu = m;
    bus = record b { ram = l.state };
  })

unfoldable pub ram_store :
    (Ram.Ram → ℕ → ℕ → Result (Stored Ram.Ram)) → Mmu → Bus → ℕ → ℕ → Result Store
ram_store f m b phy value = do
  s ← f b.ram phy value
  ok (record { exception = s.exception; mmu = m; bus = record b { ram = s.state } })

unfoldable pub load8 : Mmu → Bus → ℕ → Bool → Result Load
unfolding ram_load device_load
load8 m b address is_sm =
    let t = map_address m address is_sm false in
    if raised t.exception
    then ok (failed_load t.exception t.mmu b)
    else if t.is_ram
    then ram_load Ram.load8 t.mmu b t.phy_address
    else device_load (λ d. d.load8) (get_device t.phy_address) t.mmu b t.phy_address

unfoldable pub store8 : Mmu → Bus → ℕ → ℕ → Bool → Result Store
unfolding ram_store device_store
store8 m b address value is_sm =
    let t = map_address m address is_sm true in
    if raised t.exception
    then ok (failed_store t.exception t.mmu b)
    else if t.is_ram
    then ram_store Ram.store8 t.mmu b t.phy_address value
    else device_store (λ d. d.store8) (get_device t.phy_address) t.mmu b t.phy_address value

unfoldable pub load16 : Mmu → Bus → ℕ → Bool → Result Load
unfolding ram_load device_load
load16 m b address is_sm =
    let t = map_address m address is_sm false in
    if has address 0x1
    then ok (failed_load alignment m b)
    else if raised t.exception
    then ok (failed_load t.exception t.mmu b)
    else if t.is_ram
    then ram_load Ram.load16 t.mmu b t.phy_address
    else device_load (λ d. d.load16) (get_device t.phy_address) t.mmu b t.phy_address

-- The source chooses the memory by `address`, not by `is_ram`.
unfoldable pub store16 : Mmu → Bus → ℕ → ℕ → Bool → Result Store
unfolding ram_store device_store
store16 m b address value is_sm =
    let t = map_address m address is_sm true in
    if has address 0x1
    then ok (failed_store alignment m b)
    else if raised t.exception
    then ok (failed_store t.exception t.mmu b)
    else if leb address max_ram_address
    then ram_store Ram.store16 t.mmu b t.phy_address value
    else device_store (λ d. d.store16) (get_device t.phy_address) t.mmu b t.phy_address value

-- `*u32address` through the raw pointer, with no exception.
unfoldable pub raw_load32 : Mmu → Bus → ℕ → Result Load
raw_load32 m b i = do
  v ← Ram.read32 b.ram i
  ok (record { value = v; exception = no_exception; mmu = m; bus = b })

-- The part of `Load32` below the test of the last authorised page.
unfoldable pub load32_mapped : Mmu → Bus → ℕ → Bool → Result Load
unfolding raw_load32 device_load
load32_mapped m b address is_sm =
    let t = map_address m address is_sm false in
    if raised t.exception
    then ok (failed_load t.exception t.mmu b)
    else if t.is_ram
    then raw_load32 t.mmu b t.phy_address
    else device_load (λ d. d.load32) (get_device t.phy_address) t.mmu b t.phy_address

unfoldable pub load32 : Mmu → Bus → ℕ → Bool → Result Load
unfolding load32_mapped raw_load32
load32 m b address is_sm =
    if bit_and address 0xffffe000 == m.authed_page
    then raw_load32 (record m { stats_fast_hit = (m.stats_fast_hit + 1) % 2 ^ 64 }) b
        (m.authed_phy + bit_and address 0x1fff)
    else load32_mapped (record m { stats_fast_miss = (m.stats_fast_miss + 1) % 2 ^ 64 }) b address
        is_sm

unfoldable pub store32 : Mmu → Bus → ℕ → ℕ → Bool → Result Store
unfolding ram_store device_store
store32 m b address value is_sm =
    let t = map_address m address is_sm true in
    if has address 0x3
    then ok (failed_store alignment m b)
    else if raised t.exception
    then ok (failed_store t.exception t.mmu b)
    else if t.is_ram
    then ram_store Ram.store32 t.mmu b t.phy_address value
    else device_store (λ d. d.store32) (get_device t.phy_address) t.mmu b t.phy_address value
