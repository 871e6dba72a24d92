-- ===== src/Ram/Dump.antt =====
-- `RAM::DumpU8`: the bytes of the guest's memory in order.
use simctty.Prelude.{
  ℕ, zero, suc, ◌+◌, ◌-◌, ◌≤◌, ◌<◌, ◌≡◌, refl, arith, true, List, [], ◌∷◌, some, length, get_elem?,
  ok,
}
use simctty.Ram.{Ram, size, max_ram_address, read8, dump_from, dump_u8}
use simctty.Ram.Guest.{guest, xor3_lt}

-- `n` guest bytes from address `i` on.
abbrev guest_bytes : Ram → ℕ → ℕ → List ℕ
guest_bytes r zero i = []
guest_bytes r (suc n) i = guest r i ∷ guest_bytes r n (i + 1)

dump_from-guest_bytes :
    (r : Ram) (n i : ℕ) → i + n ≤ size → dump_from r n i ≡ ok (guest_bytes r n i)
unfolding dump_from read8
dump_from-guest_bytes r zero i h = refl
dump_from-guest_bytes r (suc n) i h =
    ground (arith, xor3_lt i (omega arith), dump_from-guest_bytes r n (i + 1) (omega arith))

length-guest_bytes : (r : Ram) (n i : ℕ) → length (guest_bytes r n i) ≡ n
length-guest_bytes r zero i = refl
length-guest_bytes r (suc n) i = omega (arith, length-guest_bytes r n (i + 1))

get_elem?-guest_bytes :
    (r : Ram) (n i k : ℕ) → k < n → get_elem? (guest_bytes r n i) k ≡ some (guest r (i + k))
get_elem?-guest_bytes r zero i k h = absurd (omega arith)
get_elem?-guest_bytes r (suc n) i zero h = ground arith
get_elem?-guest_bytes r (suc n) i (suc k) h = ground (arith, get_elem?-guest_bytes r n (i + 1) k)

get_elem?-first_bytes :
    (r : Ram) (n k : ℕ) → k < n → get_elem? (guest_bytes r n 0) k ≡ some (guest r k)
get_elem?-first_bytes r n k h = ground (arith, get_elem?-guest_bytes r n 0 k h)

-- DumpU8 to a file that opens writes the bytes of the guest in the order of their addresses, all
-- but the last byte of the memory.
pub dump_u8-guest :
    (r : Ram)
    → (bytes : List ℕ) × (dump_u8 r true ≡ ok bytes)
      × (length bytes ≡ size - 1)
      × ((k : ℕ) → k < size - 1 → get_elem? bytes k ≡ some (guest r k))
unfolding dump_u8
dump_u8-guest r = (
  guest_bytes r max_ram_address 0,
  dump_from-guest_bytes r max_ram_address 0 (omega arith),
  length-guest_bytes r max_ram_address 0,
  get_elem?-first_bytes r max_ram_address,
)
