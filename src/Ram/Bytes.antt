-- ===== src/Ram/Bytes.antt =====
-- The contents of the memory of simctty/ram.cc as bytes, and the widths of what its loads give.
use simctty.Prelude.{
  ℕ, ◌+◌, ◌^◌, ◌<◌, ◌≡◌, inl, inr, bit_xor, arith, ltb, Bool-cases, Ensures, update,
}
use simctty.BusDevice.{Loaded, Stored}
use simctty.Ram.{
  Ram, size, read8, read16, read32, write8, write16, write32, load8, load16, load32, store8,
  store16, store32,
}

pub record HasBytes (r : Ram) : Type 0 where
  pub bytes : (i : ℕ) → r.ram i < 2 ^ 8

-- A load gives `k` bits and leaves the memory.
abbrev pub LoadsBits : ℕ → Ram → Loaded Ram → Type 0
LoadsBits k r l = (l.value < 2 ^ k) × (l.state ≡ r)

module _ (r : Ram) (a : ℕ) (h : HasBytes r) where
  pub read32-lt : Ensures (λ v. v < 2 ^ 32) (read32 r a)
  unfolding read32
  read32-lt = ground (arith, h.bytes a, h.bytes (a + 1), h.bytes (a + 2), h.bytes (a + 3))

  pub load8-LoadsBits : Ensures (LoadsBits 8 r) (load8 r a)
  unfolding load8 read8
  load8-LoadsBits = ground (arith, h.bytes (bit_xor a 3))

  pub load16-LoadsBits : Ensures (LoadsBits 16 r) (load16 r a)
  unfolding load16 read16
  load16-LoadsBits = ground (arith, h.bytes (bit_xor a 2), h.bytes (bit_xor a 2 + 1))

  pub load32-LoadsBits : Ensures (LoadsBits 32 r) (load32 r a)
  unfolding load32 read32
  load32-LoadsBits = ground (arith, h.bytes a, h.bytes (a + 1), h.bytes (a + 2), h.bytes (a + 3))

  update-HasBytes : (i v : ℕ) → v < 2 ^ 8 → HasBytes (record { ram = update r.ram i v })
  update-HasBytes i v k = record { bytes = λ j. ground (arith, h.bytes j) }

  pub store8-HasBytes :
      (v : ℕ) → v < 2 ^ 8 → Ensures (λ (s : Stored Ram). HasBytes s.state) (store8 r a v)
  unfolding store8 write8
  store8-HasBytes v k = ground (arith, update-HasBytes (bit_xor a 3) v k)

  pub store16-HasBytes : (v : ℕ) → Ensures (λ (s : Stored Ram). HasBytes s.state) (store16 r a v)
  unfolding store16 write16
  store16-HasBytes v = elim (Bool-cases (ltb (bit_xor a 2 + 1) size)) [
    | inl fits ↦ rw fits (record { bytes = λ j. ground (arith, h.bytes j) })
    | inr past ↦ rw past tt
  ]

  pub store32-HasBytes : (v : ℕ) → Ensures (λ (s : Stored Ram). HasBytes s.state) (store32 r a v)
  unfolding store32 write32
  store32-HasBytes v = elim (Bool-cases (ltb (a + 3) size)) [
    | inl fits ↦ rw fits (record { bytes = λ j. ground (arith, h.bytes j) })
    | inr past ↦ rw past tt
  ]
