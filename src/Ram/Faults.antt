-- ===== src/Ram/Faults.antt =====
-- Accesses of simctty/ram.cc outside the array.
use simctty.Prelude.{ℕ, ◌+◌, ◌≤◌, ◌<◌, ◌≡◌, arith, fault}
use simctty.Prelude.Bits.{bit_xor_two}
use simctty.Ram.{Ram, size, max_ram_address, read32, write16, store16}

pub read32-fault : (r : Ram) (i : ℕ) → size ≤ i + 3 → read32 r i ≡ fault
unfolding read32
read32-fault r i h = ground arith

pub store16-fault : (r : Ram) (a v : ℕ) → max_ram_address < a → store16 r a v ≡ fault
unfolding store16 write16
store16-fault r a v h = ground (arith, bit_xor_two a)
