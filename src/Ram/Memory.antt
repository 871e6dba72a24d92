-- ===== src/Ram/Memory.antt =====
-- What the guest is promised: a big-endian memory of bytes, with the accesses of the OpenRISC
-- architecture. `address` is that of the first, most significant byte.
use simctty.Prelude.{ℕ, ◌+◌, ◌*◌, ◌/◌, u8, update}

abbrev pub Memory : Type 0
Memory = ℕ → ℕ

abbrev pub load16 : Memory → ℕ → ℕ
load16 m address = m address * 256 + m (address + 1)

abbrev pub load32 : Memory → ℕ → ℕ
load32 m address =
    m address * 16777216 + m (address + 1) * 65536 + m (address + 2) * 256 + m (address + 3)

abbrev pub store16 : Memory → ℕ → ℕ → Memory
store16 m address v = update (update m address (u8 (v / 256))) (address + 1) (u8 v)

abbrev pub store32 : Memory → ℕ → ℕ → Memory
store32 m address v =
    update
      (update (update (update m address (u8 (v / 16777216))) (address + 1) (u8 (v / 65536)))
        (address + 2) (u8 (v / 256)))
      (address + 3) (u8 v)
