-- ===== src/Isa/Width.antt =====
-- The width of the words that simctty/assembler.cc makes.
use simctty.Prelude.{◌+◌, ◌^◌, ◌<◌, arith, true, false}
use simctty.Assembler.Encoding.{
  type_n-sum, type_exk-sum, type_k-sum, type_dfk-sum, type_x-sum, type_b-sum, type_dai-sum,
  type_dak-sum, type_dafl-sum, type_abi-sum, type_abk-sum, type_dabff-sum, type_ai-sum, type_ab-sum,
}
use simctty.Isa.Instruction.{
  BranchKind, plain, linked, on_clear, on_set, LoadKind, load_word, load_byte, load_signed_byte,
  load_half, load_signed_half, StoreKind, store_word, store_byte, store_half, ImmediateKind,
  add_immediate, and_immediate, or_immediate, xor_immediate, ShiftKind, left, right, right_signed,
  ArithmeticKind, sum, difference, conjunction, disjunction, exclusive, first_one, last_one,
  product, quotient, quotient_unsigned, shifted, above, at_least, below, at_most, Comparison, equal,
  not_equal, unsigned, signed, Instruction, branch_by, no_operation, call_system, stop_here,
  high_half, leave_handler, jump_to, load_from, store_to, compute_immediate, shift_by, from_spr,
  to_spr, flag_immediate, flag_registers, compute, IsEncodable, word, branch_opcode, load_opcode,
  store_opcode, immediate_opcode, shift_code, function_high, function_low, comparison_code,
}

-- The opcode of a comparison is the upper part of its code.
pub comparison_code-lt : (t : Comparison) → comparison_code t < 16
comparison_code-lt equal = omega arith
comparison_code-lt not_equal = omega arith
comparison_code-lt (unsigned above) = omega arith
comparison_code-lt (unsigned at_least) = omega arith
comparison_code-lt (unsigned below) = omega arith
comparison_code-lt (unsigned at_most) = omega arith
comparison_code-lt (signed above) = omega arith
comparison_code-lt (signed at_least) = omega arith
comparison_code-lt (signed below) = omega arith
comparison_code-lt (signed at_most) = omega arith

branch_opcode-lt : (kind : BranchKind) → branch_opcode kind < 64
branch_opcode-lt plain = omega arith
branch_opcode-lt linked = omega arith
branch_opcode-lt on_clear = omega arith
branch_opcode-lt on_set = omega arith

load_opcode-lt : (kind : LoadKind) → load_opcode kind < 64
load_opcode-lt load_word = omega arith
load_opcode-lt load_byte = omega arith
load_opcode-lt load_signed_byte = omega arith
load_opcode-lt load_half = omega arith
load_opcode-lt load_signed_half = omega arith

store_opcode-lt : (kind : StoreKind) → store_opcode kind < 64
store_opcode-lt store_word = omega arith
store_opcode-lt store_byte = omega arith
store_opcode-lt store_half = omega arith

immediate_opcode-lt : (kind : ImmediateKind) → immediate_opcode kind < 64
immediate_opcode-lt add_immediate = omega arith
immediate_opcode-lt and_immediate = omega arith
immediate_opcode-lt or_immediate = omega arith
immediate_opcode-lt xor_immediate = omega arith

shift_code-lt : (kind : ShiftKind) → shift_code kind < 4
shift_code-lt left = omega arith
shift_code-lt right = omega arith
shift_code-lt right_signed = omega arith

functions-lt : (kind : ArithmeticKind) → (function_high kind < 16) × (function_low kind < 16)
functions-lt (shifted kind) = (omega (arith, shift_code-lt kind), omega arith)
functions-lt sum = (omega arith, omega arith)
functions-lt difference = (omega arith, omega arith)
functions-lt conjunction = (omega arith, omega arith)
functions-lt disjunction = (omega arith, omega arith)
functions-lt exclusive = (omega arith, omega arith)
functions-lt first_one = (omega arith, omega arith)
functions-lt last_one = (omega arith, omega arith)
functions-lt product = (omega arith, omega arith)
functions-lt quotient = (omega arith, omega arith)
functions-lt quotient_unsigned = (omega arith, omega arith)

pub word-lt : (i : Instruction) → IsEncodable i → word i < 2 ^ 32
word-lt (branch_by kind n) h =
    rw (type_n-sum (branch_opcode kind) n (branch_opcode-lt kind))
      (omega (arith, branch_opcode-lt kind))
word-lt (no_operation k) h = rw (type_exk-sum 0x15 k (omega arith) h) (omega arith)
word-lt (call_system k) h = rw (type_k-sum 0x2000 k (omega arith) h) (omega arith)
word-lt (stop_here k) h = rw (type_k-sum 0x2100 k (omega arith) h) (omega arith)
word-lt (high_half d k) (p, q) = rw (type_dfk-sum 0x6 d k (omega arith) p q) (omega arith)
word-lt leave_handler h = rw (type_x-sum 0x9 (omega arith)) (omega arith)
word-lt (jump_to false b) h = rw (type_b-sum 0x11 b (omega arith) h) (omega arith)
word-lt (jump_to true b) h = rw (type_b-sum 0x12 b (omega arith) h) (omega arith)
word-lt (load_from kind d a i) (p, q, r) =
    rw (type_dai-sum (load_opcode kind) d a i (load_opcode-lt kind) p q r)
      (omega (arith, load_opcode-lt kind))
word-lt (store_to kind a b i) (p, q, r) =
    rw (type_abi-sum (store_opcode kind) a b i (store_opcode-lt kind) p q r)
      (omega (arith, store_opcode-lt kind))
word-lt (compute_immediate kind d a k) (p, q, r) =
    rw (type_dai-sum (immediate_opcode kind) d a k (immediate_opcode-lt kind) p q r)
      (omega (arith, immediate_opcode-lt kind))
word-lt (shift_by kind d a l) (p, q, r) =
    rw
      (type_dafl-sum 0x2e d a (shift_code kind) l (omega arith) p q (shift_code-lt kind)
        (omega arith))
      (omega (arith, shift_code-lt kind))
word-lt (from_spr d a k) (p, q, r) = rw (type_dak-sum 0x2d d a k (omega arith) p q r) (omega arith)
word-lt (to_spr a b k) (p, q, r) = rw (type_abk-sum 0x30 a b k (omega arith) p q r) (omega arith)
word-lt (flag_immediate t a i) (p, q) =
    rw (type_ai-sum (0x5e0 + comparison_code t) a i (omega (arith, comparison_code-lt t)) p q)
      (omega (arith, comparison_code-lt t))
word-lt (flag_registers t a b) (p, q) =
    rw (type_ab-sum (0x720 + comparison_code t) a b (omega (arith, comparison_code-lt t)) p q)
      (omega (arith, comparison_code-lt t))
word-lt (compute kind d a b) (p, q, r) =
    let (t, u) = functions-lt kind in
    rw (type_dabff-sum 0x38 d a b (function_high kind) (function_low kind) (omega arith) p q r t u)
      (omega arith)
