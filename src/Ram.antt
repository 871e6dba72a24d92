-- ===== src/Ram.antt =====
-- simctty/ram.h, simctty/ram.cc and the little-endian branch of simctty/bitwise.h. The host is
-- little-endian and each aligned guest word is kept as one host word, so a guest byte lies at its
-- address `^ 3` and a guest halfword at its address `^ 2`.
pub mod Memory
pub mod Guest
pub mod Faults
pub mod Image
pub mod Dump
pub mod Bytes
mod Tests
use simctty.Prelude.{
  ℕ, zero, suc, ◌+◌, ◌-◌, ◌*◌, ◌/◌, ◌%◌, bit_xor, Bool, true, false, List, [], ◌∷◌, ltb, ◌==◌,
  if◌then◌else◌, u8, Result, ok, exited, fault, checked, ◌>>=◌, update, get_elem?,
}
use simctty.Exception.{no_exception}
use simctty.BusDevice.{Loaded, Stored, BusDevice}

abbrev pub max_ram_address : ℕ
max_ram_address = 0x2000000 - 1

-- `ram_`, an array of `size` bytes whose first contents are not set.
pub record Ram : Type 0 where
  pub ram : ℕ → ℕ

abbrev pub size : ℕ
size = max_ram_address + 1

-- Reads and writes of 1, 2 and 4 bytes through a host pointer `ram_ + i`. Outside the array they
-- are undefined.
pub read8 : Ram → ℕ → Result ℕ
read8 r i = if ltb i size then ok (r.ram i) else fault

pub read16 : Ram → ℕ → Result ℕ
read16 r i = if ltb (i + 1) size then ok (r.ram i + r.ram (i + 1) * 256) else fault

unfoldable pub read32 : Ram → ℕ → Result ℕ
read32 r i =
    if ltb (i + 3) size
    then ok (r.ram i + r.ram (i + 1) * 256 + r.ram (i + 2) * 65536 + r.ram (i + 3) * 16777216)
    else fault

unfoldable pub write8 : Ram → ℕ → ℕ → Result Ram
write8 r i v = if ltb i size then ok (record { ram = update r.ram i v }) else fault

pub write16 : Ram → ℕ → ℕ → Result Ram
write16 r i v =
    if ltb (i + 1) size
    then ok (record { ram = update (update r.ram i (u8 v)) (i + 1) (u8 (v / 256)) })
    else fault

pub write32 : Ram → ℕ → ℕ → Result Ram
write32 r i v =
    if ltb (i + 3) size
    then ok (record {
      ram =
          update
            (update (update (update r.ram i (u8 v)) (i + 1) (u8 (v / 256))) (i + 2)
              (u8 (v / 65536)))
            (i + 3) (u8 (v / 16777216));
    })
    else fault

loaded : Ram → ℕ → Loaded Ram
loaded r v = record { value = v; exception = no_exception; state = r }

stored : Ram → Stored Ram
stored r = record { exception = no_exception; state = r }

pub load8 : Ram → ℕ → Result (Loaded Ram)
unfolding loaded
load8 r address = do v ← read8 r (bit_xor address 3); ok (loaded r v)

pub store8 : Ram → ℕ → ℕ → Result (Stored Ram)
unfolding stored
store8 r address value = do r' ← write8 r (bit_xor address 3) value; ok (stored r')

pub load16 : Ram → ℕ → Result (Loaded Ram)
unfolding loaded
load16 r address = do v ← read16 r (bit_xor address 2); ok (loaded r v)

pub store16 : Ram → ℕ → ℕ → Result (Stored Ram)
unfolding stored
store16 r address value = do r' ← write16 r (bit_xor address 2) value; ok (stored r')

pub load32 : Ram → ℕ → Result (Loaded Ram)
unfolding loaded
load32 r address = do v ← read32 r address; ok (loaded r v)

pub store32 : Ram → ℕ → ℕ → Result (Stored Ram)
unfolding stored
store32 r address value = do r' ← write32 r address value; ok (stored r')

-- `RAM` overrides every virtual function.
abbrev pub ram_device : BusDevice Ram
ram_device = record {
  load8 = load8;
  load16 = load16;
  load32 = load32;
  store8 = store8;
  store16 = store16;
  store32 = store32;
}

-- One round of the loop of `LoadImage`: `data` is the caller's buffer.
unfoldable pub copy_word : List ℕ → ℕ → ℕ → Ram → Result Ram
copy_word buffer offset i r = do
  b0 ← checked (get_elem? buffer (i + 3))
  r0 ← write8 r (offset + i) b0
  b1 ← checked (get_elem? buffer (i + 2))
  r1 ← write8 r0 (offset + i + 1) b1
  b2 ← checked (get_elem? buffer (i + 1))
  r2 ← write8 r1 (offset + i + 2) b2
  b3 ← checked (get_elem? buffer i)
  write8 r2 (offset + i + 3) b3

-- The loop from `i` on. Each round adds 4 to `i`, so `len` rounds are enough.
unfoldable pub copy_words : ℕ → List ℕ → ℕ → ℕ → ℕ → Ram → Result Ram
copy_words zero buffer len offset i r = ok r
copy_words (suc rounds) buffer len offset i r = elim (ltb i len) [
  | true ↦ copy_word buffer offset i r >>= λ r'. copy_words rounds buffer len offset (i + 4) r'
  | false ↦ ok r
]

-- A length that is no multiple of 4 ends the process, after the loop has run; what follows the
-- exit in the source is not reached.
unfoldable pub load_image : Ram → List ℕ → ℕ → ℕ → Result (Bool × Ram)
load_image r buffer len offset = if ltb size (offset + len) then ok (false, r) else do
  r' ← copy_words len buffer len offset 0 r
  if len % 4 == 0 then ok (true, r') else exited

-- What `DumpU8` writes: the loop from `i` on, with `n` rounds left.
dump_from : Ram → ℕ → ℕ → Result (List ℕ)
dump_from r zero i = ok []
dump_from r (suc n) i = do b ← read8 r (bit_xor i 3); bs ← dump_from r n (i + 1); ok (b ∷ bs)

-- `opened` is whether `fopen` gave a file.
pub dump_u8 : Ram → Bool → Result (List ℕ)
dump_u8 r opened = if opened then dump_from r max_ram_address 0 else ok []
