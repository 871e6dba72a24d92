-- ===== src/Mmu/Bounds/Parts.antt =====
-- The ends of the loads and stores of simctty/mmu.cc: an exception, the memory, a device.
use simctty.Prelude.{
  ℕ, ◌/◌, ◌%◌, ◌^◌, ◌<◌, ◌≡◌, refl, arith, Bool, true, false, Option, none, some, if◌then◌else◌,
  Result, ok, Ensures, Ensures-bind,
}
use simctty.Exception.{raised}
use simctty.BusDevice.{Loaded, Stored, BusDevice}
use simctty.Ram
use simctty.Ram.Bytes
use simctty.Ram.Bytes.{HasBytes}
use simctty.Ram.{Ram, max_ram_address}
use simctty.Bus.{Bus}
use simctty.Bus.Valid
use simctty.Bus.Valid.{
  Leads, Leads-none, Leads-ram, LoadsBits, StoreLeads, device_load8, device_load16, device_load32,
  device_store8, device_store16, device_store32,
}
use simctty.Mmu.{Mmu, Mapped, map_address}
use simctty.Mmu.Access.{
  Load, Store, failed_load, failed_store, device_load, device_store, ram_load, ram_store,
  raw_load32,
}
use simctty.Mmu.Translate.{translate_entry, physical-lem}
use simctty.Mmu.Cache

pub record Loads (k control : ℕ) (b : Bus) (l : Load) : Type 0 where
  pub bits : l.value < 2 ^ k
  pub leads : Leads b l.bus
  pub register : l.mmu.control_register ≡ control

pub record Stores (control : ℕ) (b : Bus) (s : Store) : Type 0 where
  pub leads : Leads b s.bus
  pub register : s.mmu.control_register ≡ control

-- A translation gives a 32-bit address and leaves the control register.
pub map_address_frame :
    (m : Mmu) (a : ℕ) (is_sm is_write : Bool)
    → a < 2 ^ 32
    → Cache.IsValid m
    → let t = map_address m a is_sm is_write in
      (t.phy_address < 2 ^ 32) × (t.mmu.control_register ≡ m.control_register)
unfolding map_address
map_address_frame m a is_sm is_write h v =
    let word = v.translate_words (a / 8192 % 64) in
    ground (arith, physical-lem (translate_entry m a) a word)

-- The memory and the devices, on an object `m'` with the given control register.
module _ (control : ℕ) (b : Bus) (v : Valid.IsValid b) (m' : Mmu)
    (same : m'.control_register ≡ control) where
  pub ram_load-Loads :
      (k : ℕ) (f : Ram → ℕ → Result (Loaded Ram)) (phy : ℕ)
      → Ensures (Bytes.LoadsBits k b.ram) (f b.ram phy)
      → Ensures (Loads k control b) (ram_load f m' b phy)
  unfolding ram_load
  ram_load-Loads k f phy h =
      Ensures-bind (Bytes.LoadsBits k b.ram) (Loads k control b) (f b.ram phy) _ h (λ l q. record {
        bits = q.0;
        leads = Leads-ram b l.state v (rw q.1 v.ram);
        register = same;
      })

  pub raw_load32-Loads : (i : ℕ) → Ensures (Loads 32 control b) (raw_load32 m' b i)
  unfolding raw_load32
  raw_load32-Loads i =
      Ensures-bind (λ w. w < 2 ^ 32) (Loads 32 control b) (Ram.read32 b.ram i) _
        (Bytes.read32-lt b.ram i v.ram)
        (λ w q. record { bits = q; leads = Leads-none b v; register = same })

  pub ram_store-Stores :
      (f : Ram → ℕ → ℕ → Result (Stored Ram)) (phy value : ℕ)
      → Ensures (λ (s : Stored Ram). HasBytes s.state) (f b.ram phy value)
      → Ensures (Stores control b) (ram_store f m' b phy value)
  unfolding ram_store
  ram_store-Stores f phy value h =
      Ensures-bind (λ (s : Stored Ram). HasBytes s.state) (Stores control b) (f b.ram phy value) _ h
        (λ s q. record { leads = Leads-ram b s.state v q; register = same })

  pub device_load-Loads :
      (k : ℕ) (f : BusDevice Bus → Bus → ℕ → Result (Loaded Bus)) (device : Option (BusDevice Bus))
      (phy : ℕ)
      → 0 < 2 ^ k
      → ((d : BusDevice Bus) → device ≡ some d → Ensures (LoadsBits k b) (f d b phy))
      → Ensures (Loads k control b) (device_load f device m' b phy)
  unfolding device_load
  device_load-Loads k f none phy pos h = record {
    bits = pos;
    leads = Leads-none b v;
    register = same;
  }
  device_load-Loads k f (some d) phy pos h =
      Ensures-bind (LoadsBits k b) (Loads k control b) (f d b phy) _ (h d refl)
        (λ l q. record { bits = q.bits; leads = q.leads; register = same })

  pub device_store-Stores :
      (f : BusDevice Bus → Bus → ℕ → ℕ → Result (Stored Bus)) (device : Option (BusDevice Bus))
      (phy value : ℕ)
      → ((d : BusDevice Bus) → device ≡ some d → Ensures (StoreLeads b) (f d b phy value))
      → Ensures (Stores control b) (device_store f device m' b phy value)
  unfolding device_store
  device_store-Stores f none phy value h = record { leads = Leads-none b v; register = same }
  device_store-Stores f (some d) phy value h =
      Ensures-bind (StoreLeads b) (Stores control b) (f d b phy value) _ (h d refl)
        (λ s q. record { leads = q; register = same })

-- Either branch will do.
module _ (control : ℕ) (b : Bus) where
  pub Loads-if :
      (k : ℕ) (test : Bool) (x y : Result Load)
      → Ensures (Loads k control b) x
      → Ensures (Loads k control b) y
      → Ensures (Loads k control b) (if test then x else y)
  Loads-if k true x y p q = p
  Loads-if k false x y p q = q

  pub Stores-if :
      (test : Bool) (x y : Result Store)
      → Ensures (Stores control b) x
      → Ensures (Stores control b) y
      → Ensures (Stores control b) (if test then x else y)
  Stores-if true x y p q = p
  Stores-if false x y p q = q

-- What the loads and stores do with a translation `t`.
module _ (control : ℕ) (b : Bus) (w : Valid.IsValid b) (t : Mapped)
    (same : t.mmu.control_register ≡ control) where
  pub mapped_load-Loads :
      (k : ℕ) (in_ram past : Result Load)
      → 0 < 2 ^ k
      → Ensures (Loads k control b) in_ram
      → Ensures (Loads k control b) past
      → Ensures (Loads k control b) (
          if raised t.exception
          then ok (failed_load t.exception t.mmu b)
          else if t.is_ram
          then in_ram
          else past)
  mapped_load-Loads k in_ram past pos p q =
      Loads-if control b k (raised t.exception) _ _
        (record { bits = pos; leads = Leads-none b w; register = same })
        (Loads-if control b k t.is_ram in_ram past p q)

  pub mapped_store-Stores :
      (test : Bool) (in_ram past : Result Store)
      → Ensures (Stores control b) in_ram
      → Ensures (Stores control b) past
      → Ensures (Stores control b) (
          if raised t.exception
          then ok (failed_store t.exception t.mmu b)
          else if test
          then in_ram
          else past)
  mapped_store-Stores test in_ram past p q =
      Stores-if control b (raised t.exception) _ _
        (record { leads = Leads-none b w; register = same })
        (Stores-if control b test in_ram past p q)
