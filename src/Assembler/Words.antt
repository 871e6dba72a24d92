-- ===== src/Assembler/Words.antt =====
-- The word that each `AppendInstructionType...` hands to `AppendInstruction`, and the bytes that
-- this appends. An int16 argument is its uint16 pattern.
use simctty.Prelude.{
  ℕ, ◌/◌, ◌%◌, ◌<<<◌, ◌>>>◌, bit_or, bit_and, Bool, List, [], ◌∷◌, ◌++◌, if◌then◌else◌, u32,
}
use simctty.Cpu.Decode.{reg_mask}

unfoldable pub type_n : ℕ → ℕ → ℕ
type_n opcode n = bit_or (u32 (opcode <<< 26)) (bit_and n 0x3ffffff)

unfoldable pub type_exk : ℕ → ℕ → ℕ
type_exk opcode k = bit_or (u32 (opcode <<< 24)) k

unfoldable pub type_dfk : ℕ → ℕ → Bool → ℕ → ℕ
type_dfk opcode d f k =
    bit_or (bit_or (bit_or (u32 (opcode <<< 26)) (u32 (d <<< 21))) ((if f then 1 else 0) <<< 16)) k

unfoldable pub type_k : ℕ → ℕ → ℕ
type_k opcode k = bit_or (u32 (opcode <<< 16)) k

unfoldable pub type_x : ℕ → ℕ
type_x opcode = u32 (opcode <<< 26)

unfoldable pub type_b : ℕ → ℕ → ℕ
type_b opcode b = bit_or (u32 (opcode <<< 26)) (bit_and b reg_mask <<< 11)

-- Declared and defined in the source, and used by no instruction.
abbrev type_xai : ℕ → ℕ → ℕ → ℕ
type_xai opcode a i = bit_or (bit_or (u32 (opcode <<< 26)) (bit_and a reg_mask <<< 16)) i

unfoldable pub type_dai : ℕ → ℕ → ℕ → ℕ → ℕ
type_dai opcode d a i =
    bit_or
      (bit_or (bit_or (u32 (opcode <<< 26)) (bit_and d reg_mask <<< 21))
        (bit_and a reg_mask <<< 16))
      i

unfoldable pub type_dak : ℕ → ℕ → ℕ → ℕ → ℕ
type_dak opcode d a k =
    bit_or
      (bit_or (bit_or (u32 (opcode <<< 26)) (bit_and d reg_mask <<< 21))
        (bit_and a reg_mask <<< 16))
      k

unfoldable pub type_dafl : ℕ → ℕ → ℕ → ℕ → ℕ → ℕ
type_dafl opcode d a f l =
    bit_or
      (bit_or
        (bit_or (bit_or (u32 (opcode <<< 26)) (bit_and d reg_mask <<< 21))
          (bit_and a reg_mask <<< 16))
        (bit_and f 0x3 <<< 6))
      (bit_and l 0x3f)

unfoldable pub type_ai : ℕ → ℕ → ℕ → ℕ
type_ai opcode a i =
    bit_or (bit_or (u32 (bit_and opcode 0x7ff <<< 21)) (bit_and a reg_mask <<< 16)) i

unfoldable pub type_abk : ℕ → ℕ → ℕ → ℕ → ℕ
type_abk opcode a b k =
    let k_top = bit_and k 0xf800 >>> 11 in
    let k_bottom = bit_and k 0x7ff in
    bit_or
      (bit_or (bit_or (bit_or (u32 (opcode <<< 26)) (k_top <<< 21)) (bit_and a reg_mask <<< 16))
        (bit_and b reg_mask <<< 11))
      k_bottom

unfoldable pub type_abi : ℕ → ℕ → ℕ → ℕ → ℕ
type_abi opcode a b i =
    let i_top = bit_and i 0xf800 >>> 11 in
    let i_bottom = bit_and i 0x7ff in
    bit_or
      (bit_or (bit_or (bit_or (u32 (opcode <<< 26)) (i_top <<< 21)) (bit_and a reg_mask <<< 16))
        (bit_and b reg_mask <<< 11))
      i_bottom

unfoldable pub type_dabff : ℕ → ℕ → ℕ → ℕ → ℕ → ℕ → ℕ
type_dabff opcode d a b f1 f2 =
    bit_or
      (bit_or
        (bit_or
          (bit_or (bit_or (u32 (opcode <<< 26)) (bit_and d reg_mask <<< 21))
            (bit_and a reg_mask <<< 16))
          (bit_and b reg_mask <<< 11))
        (bit_and f1 0xf <<< 6))
      (bit_and f2 0xf)

unfoldable pub type_ab : ℕ → ℕ → ℕ → ℕ
type_ab opcode a b =
    bit_or (bit_or (u32 (bit_and opcode 0x7ff <<< 21)) (bit_and a reg_mask <<< 16))
      (bit_and b reg_mask <<< 11)

-- `B32ENDIANSWAP` of simctty/bitwise.h on a little-endian host.
unfoldable pub endian_swap : ℕ → ℕ
endian_swap x =
    bit_or
      (bit_or (bit_or (bit_and (x >>> 24) 0x000000ff) (bit_and (u32 (x <<< 8)) 0x00ff0000))
        (bit_and (x >>> 8) 0x0000ff00))
      (bit_and (u32 (x <<< 24)) 0xff000000)

-- The bytes of a uint32 in the memory of a little-endian host.
abbrev pub host_bytes : ℕ → List ℕ
host_bytes x = x % 256 ∷ (x / 256 % 256) ∷ (x / 65536 % 256) ∷ (x / 16777216 % 256) ∷ []

unfoldable pub append_instruction : List ℕ → ℕ → List ℕ
unfolding endian_swap
append_instruction s instruction = s ++ host_bytes (endian_swap instruction)
