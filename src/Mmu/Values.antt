-- ===== src/Mmu/Values.antt =====
-- What the loads and stores of simctty/mmu.cc read and write where a translation is allowed and
-- goes to the memory: the big-endian value at the physical address.
use simctty.Prelude.{
  ℕ, ◌%◌, ◌≡◌, ◌≢◌, refl, arith, Bool, true, false, leb, has, update, Result, ok, inl, inr,
  Bool-cases,
}
use simctty.Prelude.Bits.{has_bit, bit_and_ones}
use simctty.Exception.{no_exception, alignment}
use simctty.Ram.Memory
use simctty.Ram.Memory.{Memory}
use simctty.Ram.Guest.{guest, load8-guest, load16-guest, store8-guest, store16-guest, store32-guest}
use simctty.Ram.{Ram, max_ram_address}
use simctty.Bus.{Bus, member, get_device}
use simctty.Mmu.{Mmu, map_address}
use simctty.Mmu.Access.{Store, load8, load16, store8, store16, store32}
use simctty.Mmu.Cache.{IsValid}
use simctty.Mmu.Safety.{map_address_place}

-- A store that raises nothing, makes the guest's memory `m`, and leaves the rest of the bus.
pub record Writes (b : Bus) (m : Memory) (result : Result Store) : Type 0 where
  pub store : Store
  pub returns : result ≡ ok store
  pub quiet : store.exception ≡ no_exception
  pub memory : (x : ℕ) → guest store.bus.ram x ≡ m x
  pub same_uart : store.bus.uart ≡ b.uart

pub has-even : (a : ℕ) → a % 2 ≡ 0 → has a 0x1 ≡ false
has-even a e = ground (arith, has_bit a 0)

pub has-aligned : (a : ℕ) → a % 4 ≡ 0 → has a 0x3 ≡ false
has-aligned a e = ground (arith, bit_and_ones 2 a)

has-odd : (a : ℕ) → a % 2 ≢ 0 → has a 0x1 ≡ true
has-odd a e = ground (arith, has_bit a 0)

has-misaligned : (a : ℕ) → a % 4 ≢ 0 → has a 0x3 ≡ true
has-misaligned a e = ground (arith, bit_and_ones 2 a)

module _ (m : Mmu) (b : Bus) (a : ℕ) (is_sm : Bool) (v : IsValid m) where
  -- On a valid MMU, where a read is allowed and goes to the memory: Load8, and Load16 at even
  -- addresses, return the big-endian value at the translated address, raise nothing and leave the
  -- bus.
  pub loads_at :
      let t = map_address m a is_sm false in
      t.exception ≡ no_exception
      → t.is_ram ≡ true
      → (load8 m b a is_sm
          ≡ ok (record {
            value = guest b.ram t.phy_address;
            exception = no_exception;
            mmu = t.mmu;
            bus = b;
          }))
        × (a % 2 ≡ 0
            → load16 m b a is_sm
              ≡ ok (record {
                value = Memory.load16 (guest b.ram) t.phy_address;
                exception = no_exception;
                mmu = t.mmu;
                bus = b;
              }))
  unfolding load8 load16
  loads_at e ram =
      let place = map_address_place m a is_sm false v in
      let phy = (map_address m a is_sm false).phy_address in
      (
        rw (e, ram, load8-guest b.ram phy (place.1 ram)),
        λ even. rw (
          has-even a even,
          e,
          ram,
          load16-guest b.ram phy (place.1 ram) (omega (arith, place.0, even)),
        ),
      )

  -- The store that a store to the memory leaves.
  abbrev written : Ram → Store
  written r = record {
    exception = no_exception;
    mmu = (map_address m a is_sm true).mmu;
    bus = record b { ram = r };
  }

  store16-Writes :
      (value : ℕ)
      → let t = map_address m a is_sm true in
        t.exception ≡ no_exception
        → t.is_ram ≡ true
        → a % 2 ≡ 0
        → Writes b (Memory.store16 (guest b.ram) t.phy_address value) (store16 m b a value is_sm)
  unfolding store16 member get_device
  store16-Writes value e ram even =
      let place = map_address_place m a is_sm true v in
      let phy = (map_address m a is_sm true).phy_address in
      let s = store16-guest b.ram phy value (place.1 ram) (omega (arith, place.0, even)) in
      let near : leb phy max_ram_address ≡ true = ground (arith, place.1 ram) in
      record {
        store = written s.ram;
        returns = elim (Bool-cases (leb a max_ram_address)) [
          | inl low ↦ rw (has-even a even, e, low, s.returns)
          | inr high ↦ rw (has-even a even, e, high, near, s.returns)
        ];
        quiet = refl;
        memory = s.holds;
        same_uart = refl;
      }

  -- On a valid MMU, where a write is allowed and goes to the memory: Store8, Store16 at even
  -- addresses, and Store32 at multiples of 4, put the big-endian bytes of the value at the
  -- translated address and change nothing else of the memory or the serial port.
  pub stores_at :
      (value : ℕ)
      → let t = map_address m a is_sm true in
        t.exception ≡ no_exception
        → t.is_ram ≡ true
        → Writes b (update (guest b.ram) t.phy_address value) (store8 m b a value is_sm)
          × (a % 2 ≡ 0
              → Writes b
                  (Memory.store16 (guest b.ram) t.phy_address value)
                  (store16 m b a value is_sm))
          × (a % 4 ≡ 0
              → Writes b
                  (Memory.store32 (guest b.ram) t.phy_address value)
                  (store32 m b a value is_sm))
  unfolding store8 store32
  stores_at value e ram =
      let place = map_address_place m a is_sm true v in
      let phy = (map_address m a is_sm true).phy_address in
      let s8 = store8-guest b.ram phy value (place.1 ram) in
      (
        record {
          store = written s8.ram;
          returns = rw (e, ram, s8.returns);
          quiet = refl;
          memory = s8.holds;
          same_uart = refl;
        },
        store16-Writes value e ram,
        λ whole.
            let s32 = store32-guest b.ram phy value (place.1 ram) (omega (arith, place.0, whole)) in
            record {
              store = written s32.ram;
              returns = rw (has-aligned a whole, e, ram, s32.returns);
              quiet = refl;
              memory = s32.holds;
              same_uart = refl;
            },
      )

  -- On a valid MMU, Load16 and Store16 at odd addresses and Store32 at addresses that are no
  -- multiple of 4 raise the alignment exception, without a translation, and change nothing.
  pub misaligned :
      (value : ℕ)
      → (a % 2 ≢ 0
          → (load16 m b a is_sm
              ≡ ok (record { value = 0; exception = alignment; mmu = m; bus = b }))
            × (store16 m b a value is_sm ≡ ok (record { exception = alignment; mmu = m; bus = b })))
        × (a % 4 ≢ 0
            → store32 m b a value is_sm ≡ ok (record { exception = alignment; mmu = m; bus = b }))
  unfolding load16 store16 store32
  misaligned value =
      (λ odd. (rw (has-odd a odd), rw (has-odd a odd)), λ part. rw (has-misaligned a part))
