-- ===== src/Ram/Guest.antt =====
-- simctty/ram.cc beside the big-endian memory, whose byte at an address is the host byte at that
-- address `^ 3`.
use simctty.Prelude.{ℕ, ◌+◌, ◌/◌, ◌%◌, ◌≤◌, ◌<◌, ◌≡◌, bit_xor, arith, update, u8, Result, ok}
use simctty.Prelude.Bits.{bit_xor_two, bit_xor_three}
use simctty.Exception.{no_exception}
use simctty.BusDevice.{Loaded, Stored}
use simctty.Ram.{
  Ram, max_ram_address, size, read8, read16, read32, write8, write16, write32, load8, load16,
  load32, store8, store16, store32,
}
use simctty.Ram.Memory
use simctty.Ram.Memory.{Memory}

-- The memory that the guest sees.
abbrev pub guest : Ram → Memory
guest r address = r.ram (bit_xor address 3)

abbrev pub returned : ℕ → Ram → Result (Loaded Ram)
returned v r = ok (record { value = v; exception = no_exception; state = r })

-- A store leaves the memory `m`, with no exception.
pub record Leaves (result : Result (Stored Ram)) (m : Memory) : Type 0 where
  pub ram : Ram
  pub returns : result ≡ ok (record { exception = no_exception; state = ram })
  pub holds : (x : ℕ) → guest ram x ≡ m x

pub xor3_lt : (a : ℕ) → a ≤ max_ram_address → bit_xor a 3 < size
xor3_lt a h = omega (arith, bit_xor_three a)

pub load8-guest : (r : Ram) (a : ℕ) → a ≤ max_ram_address → load8 r a ≡ returned (guest r a) r
unfolding load8 read8
load8-guest r a h = ground (arith, xor3_lt a h)

pub load16-guest :
    (r : Ram) (a : ℕ)
    → a ≤ max_ram_address
    → a % 2 ≡ 0
    → load16 r a ≡ returned (Memory.load16 (guest r) a) r
unfolding load16 read16
load16-guest r a h e = ground (arith, bit_xor_two a, bit_xor_three a, bit_xor_three (a + 1))

pub read32-guest :
    (r : Ram) (a : ℕ)
    → a ≤ max_ram_address
    → a % 4 ≡ 0
    → read32 r a ≡ ok (Memory.load32 (guest r) a)
unfolding read32
read32-guest r a h e =
    ground
      (arith, bit_xor_three a, bit_xor_three (a + 1), bit_xor_three (a + 2), bit_xor_three (a + 3))

pub load32-guest :
    (r : Ram) (a : ℕ)
    → a ≤ max_ram_address
    → a % 4 ≡ 0
    → load32 r a ≡ returned (Memory.load32 (guest r) a) r
unfolding load32 read32
load32-guest r a h e =
    ground
      (arith, bit_xor_three a, bit_xor_three (a + 1), bit_xor_three (a + 2), bit_xor_three (a + 3))

-- Loads of 1, 2 and 4 bytes from RAM, at addresses in the memory that are multiples of their
-- width, give the big-endian value there, raise no exception and change nothing.
pub loads-Memory :
    (r : Ram) (a : ℕ)
    → a ≤ max_ram_address
    → (load8 r a ≡ returned (guest r a) r)
      × (a % 2 ≡ 0 → load16 r a ≡ returned (Memory.load16 (guest r) a) r)
      × (a % 4 ≡ 0 → load32 r a ≡ returned (Memory.load32 (guest r) a) r)
loads-Memory r a h = (load8-guest r a h, load16-guest r a h, load32-guest r a h)

module _ (r : Ram) (a v : ℕ) (h : a ≤ max_ram_address) where
  pub store8-guest : Leaves (store8 r a v) (update (guest r) a v)
  unfolding store8 write8
  store8-guest = record {
    ram = record { ram = update r.ram (bit_xor a 3) v };
    returns = ground (arith, xor3_lt a h);
    holds = λ x. ground (arith, bit_xor_three a, bit_xor_three x);
  }

  pub store16-guest : a % 2 ≡ 0 → Leaves (store16 r a v) (Memory.store16 (guest r) a v)
  unfolding store16 write16
  store16-guest e = record {
    ram = record {
      ram = update (update r.ram (bit_xor a 2) (u8 v)) (bit_xor a 2 + 1) (u8 (v / 256));
    };
    returns = ground (arith, bit_xor_two a);
    holds = λ x. ground (arith, bit_xor_two a, bit_xor_three x);
  }

  pub store32-guest : a % 4 ≡ 0 → Leaves (store32 r a v) (Memory.store32 (guest r) a v)
  unfolding store32 write32
  store32-guest e = record {
    ram = record {
      ram =
          update
            (update (update (update r.ram a (u8 v)) (a + 1) (u8 (v / 256))) (a + 2)
              (u8 (v / 65536)))
            (a + 3) (u8 (v / 16777216));
    };
    returns = ground arith;
    holds = λ x. ground (arith, bit_xor_three x);
  }

-- Stores of 1, 2 and 4 bytes to RAM, at addresses in the memory that are multiples of their width,
-- put the big-endian bytes of the value there, leave every other byte, and raise no exception.
pub stores-Memory :
    (r : Ram) (a v : ℕ)
    → a ≤ max_ram_address
    → Leaves (store8 r a v) (update (guest r) a v)
      × (a % 2 ≡ 0 → Leaves (store16 r a v) (Memory.store16 (guest r) a v))
      × (a % 4 ≡ 0 → Leaves (store32 r a v) (Memory.store32 (guest r) a v))
stores-Memory r a v h = (store8-guest r a v h, store16-guest r a v h, store32-guest r a v h)
