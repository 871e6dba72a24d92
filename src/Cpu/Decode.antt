-- ===== src/Cpu/Decode.antt =====
-- The DECODE_ macros of simctty/cpu.cc, on a 32-bit instruction word. A signed field is its
-- pattern, sign-extended to 32 bits where the source converts it.
pub mod Fields
use simctty.Prelude.{ℕ, ◌<<<◌, ◌>>>◌, bit_or, bit_and, u32}
use simctty.Prelude.Int.{int32, int16, uint32, shift_right}

abbrev pub reg_mask : ℕ
reg_mask = 0x1f

unfoldable pub opcode : ℕ → ℕ
opcode instruction = bit_and (instruction >>> 26) 0x3f

unfoldable pub decode_d : ℕ → ℕ
decode_d instruction = bit_and (instruction >>> 21) reg_mask

unfoldable pub decode_a : ℕ → ℕ
decode_a instruction = bit_and (instruction >>> 16) reg_mask

pub decode_b : ℕ → ℕ
decode_b instruction = bit_and (instruction >>> 11) reg_mask

pub decode_k : ℕ → ℕ
decode_k instruction = bit_and instruction 0xffff

-- The uint16 pattern of the int16 `i`.
unfoldable pub decode_i : ℕ → ℕ
decode_i instruction = bit_and instruction 0xffff

pub decode_split_i : ℕ → ℕ
decode_split_i instruction =
    bit_or (bit_and instruction 0x7ff) (bit_and instruction 0x03e00000 >>> 10)

pub decode_split_k : ℕ → ℕ
decode_split_k instruction =
    bit_or (bit_and instruction 0x7ff) (bit_and instruction 0x03e00000 >>> 10)

pub decode_opcode11 : ℕ → ℕ
decode_opcode11 instruction = bit_and (instruction >>> 21) 0x7ff

-- The uint32 pattern of the int32 `n`: 26 bits, signed, times 4.
pub decode_n : ℕ → ℕ
decode_n instruction = uint32 (shift_right (int32 (u32 (instruction <<< 6))) 4)

pub decode_l : ℕ → ℕ
decode_l instruction = bit_and instruction 0x1f

pub decode_f : ℕ → ℕ
decode_f instruction = bit_and (instruction >>> 6) 0x3

pub decode_ff : ℕ → ℕ
decode_ff instruction = bit_or (bit_and instruction 0xf) (bit_and instruction 0x3c0 >>> 2)

-- An int16 converted to uint32.
unfoldable pub extend16 : ℕ → ℕ
extend16 i = uint32 (int16 i)
