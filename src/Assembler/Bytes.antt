-- ===== src/Assembler/Bytes.antt =====
-- `AppendInstruction` of simctty/assembler.cc: the bytes of the swapped word in a little-endian
-- host's memory, and the big-endian bytes of the instruction.
use simctty.Prelude.{
  ℕ, ◌+◌, ◌*◌, ◌/◌, ◌%◌, ◌^◌, ◌<◌, ◌≡◌, arith, ap, bit_or, List, [], ◌∷◌, ◌++◌, u32,
}
use simctty.Prelude.Bits.{and_field, or_field, or_high, or_split, bit_or-zero, bit_and_ones}
use simctty.Assembler.Words.{append_instruction, endian_swap}

abbrev pub big_endian : ℕ → List ℕ
big_endian x = (x / 2 ^ 24 % 256) ∷ (x / 2 ^ 16 % 256) ∷ (x / 2 ^ 8 % 256) ∷ x % 256 ∷ []

-- A field between two others.
or_middle :
    (a b c : ℕ)
    → a < 2 ^ 8
    → c < 2 ^ 8
    → bit_or (b * 2 ^ 16 + a) (c * 2 ^ 8) ≡ b * 2 ^ 16 + c * 2 ^ 8 + a
or_middle a b c p q =
    ground (arith, or_split 8 (b * 2 ^ 16 + a) (c * 2 ^ 8), or_field 8 (b * 2 ^ 8) c, bit_or-zero a)

endian_swap-sum :
    (x : ℕ)
    → endian_swap x
      ≡ x % 256 * 2 ^ 24 + x / 2 ^ 8 % 256 * 2 ^ 16 + x / 2 ^ 16 % 256 * 2 ^ 8 + x / 2 ^ 24 % 256
unfolding endian_swap
endian_swap-sum x = ground (
  arith,
  bit_and_ones 8 (x / 2 ^ 24),
  and_field 16 8 (u32 (x * 2 ^ 8)),
  and_field 8 8 (x / 2 ^ 8),
  and_field 24 8 (u32 (x * 2 ^ 24)),
  or_high 16 (x / 2 ^ 8 % 256) (x / 2 ^ 24 % 256),
  or_middle (x / 2 ^ 24 % 256) (x / 2 ^ 8 % 256) (x / 2 ^ 16 % 256),
  or_high 24 (x % 256) (x / 2 ^ 8 % 256 * 2 ^ 16 + x / 2 ^ 16 % 256 * 2 ^ 8 + x / 2 ^ 24 % 256),
)

-- An instruction is appended as four bytes, the most significant first.
pub append_instruction-big_endian :
    (s : List ℕ) (x : ℕ) → append_instruction s x ≡ s ++ big_endian x
unfolding append_instruction
append_instruction-big_endian s x = rw (endian_swap-sum x) (ap (λ l. s ++ l) (ground arith))
