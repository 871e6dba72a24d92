-- ===== src/Cpu/Decode/Fields.antt =====
-- What the DECODE_ macros of simctty/cpu.cc read from a word, as quotients and remainders.
use simctty.Prelude.{ℕ, ◌+◌, ◌-◌, ◌*◌, ◌/◌, ◌%◌, ◌^◌, ◌≡◌, arith, ltb, if◌then◌else◌}
use simctty.Prelude.Int.{int32, shift_right, uint32}
use simctty.Prelude.Bits.{and_field, or_high, bit_and_ones}
use simctty.Cpu.Decode.{
  opcode, decode_d, decode_a, decode_b, decode_k, decode_i, decode_split_i, decode_split_k,
  decode_opcode11, decode_l, decode_f, decode_n, decode_ff,
}

module _ (w : ℕ) where
  pub opcode-eq : opcode w ≡ w / 2 ^ 26 % 64
  unfolding opcode
  opcode-eq = bit_and_ones 6 (w / 2 ^ 26)

  pub decode_d-eq : decode_d w ≡ w / 2 ^ 21 % 32
  unfolding decode_d
  decode_d-eq = bit_and_ones 5 (w / 2 ^ 21)

  pub decode_a-eq : decode_a w ≡ w / 2 ^ 16 % 32
  unfolding decode_a
  decode_a-eq = bit_and_ones 5 (w / 2 ^ 16)

  pub decode_b-eq : decode_b w ≡ w / 2 ^ 11 % 32
  unfolding decode_b
  decode_b-eq = bit_and_ones 5 (w / 2 ^ 11)

  pub decode_i-eq : decode_i w ≡ w % 2 ^ 16
  unfolding decode_i
  decode_i-eq = bit_and_ones 16 w

  pub decode_opcode11-eq : decode_opcode11 w ≡ w / 2 ^ 21 % 2 ^ 11
  unfolding decode_opcode11
  decode_opcode11-eq = bit_and_ones 11 (w / 2 ^ 21)

  pub decode_split_i-eq : decode_split_i w ≡ w / 2 ^ 21 % 32 * 2 ^ 11 + w % 2 ^ 11
  unfolding decode_split_i
  decode_split_i-eq =
      ground (arith, bit_and_ones 11 w, and_field 21 5 w, or_high 11 (w / 2 ^ 21 % 32) (w % 2 ^ 11))

  pub decode_ff-eq : decode_ff w ≡ w / 2 ^ 6 % 16 * 16 + w % 16
  unfolding decode_ff
  decode_ff-eq =
      ground (arith, bit_and_ones 4 w, and_field 6 4 w, or_high 4 (w / 2 ^ 6 % 16) (w % 16))

  pub decode_l-eq : decode_l w ≡ w % 32
  unfolding decode_l
  decode_l-eq = bit_and_ones 5 w

  pub decode_f-eq : decode_f w ≡ w / 2 ^ 6 % 4
  unfolding decode_f
  decode_f-eq = bit_and_ones 2 (w / 2 ^ 6)

  -- The fields of an offset: 26 bits with a sign, times 4.
  pub decode_n-eq :
      decode_n w ≡ w % 2 ^ 26 * 4 + (if ltb (w % 2 ^ 26) (2 ^ 25) then 0 else 2 ^ 32 - 2 ^ 28)
  unfolding decode_n int32 shift_right uint32
  decode_n-eq = ground arith

  pub decode_k-eq : decode_k w ≡ w % 2 ^ 16
  unfolding decode_k
  decode_k-eq = bit_and_ones 16 w

  pub decode_split_k-eq : decode_split_k w ≡ w / 2 ^ 21 % 32 * 2 ^ 11 + w % 2 ^ 11
  unfolding decode_split_k decode_split_i
  decode_split_k-eq = decode_split_i-eq
