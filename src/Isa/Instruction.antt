-- ===== src/Isa/Instruction.antt =====
-- The instructions as data: the method of `Assembler` that appends each, and its word.
use simctty.Prelude.{ℕ, ◌+◌, ◌-◌, ◌^◌, ◌≤◌, ◌<◌, ◌⊎◌, Bool, true, false}
use simctty.Assembler.Words.{
  type_n, type_exk, type_dfk, type_k, type_x, type_b, type_dai, type_dak, type_dafl, type_ai,
  type_abk, type_abi, type_dabff, type_ab,
}

-- l.j, l.jal, l.bnf and l.bf.
pub data BranchKind : Type 0 where
  plain linked on_clear on_set : BranchKind

pub data LoadKind : Type 0 where
  load_word load_byte load_signed_byte load_half load_signed_half : LoadKind

pub data StoreKind : Type 0 where
  store_word store_byte store_half : StoreKind

pub data ImmediateKind : Type 0 where
  add_immediate and_immediate or_immediate xor_immediate : ImmediateKind

pub data ShiftKind : Type 0 where
  left right right_signed : ShiftKind

pub data ArithmeticKind : Type 0 where
  sum difference conjunction disjunction exclusive first_one last_one : ArithmeticKind
  product quotient quotient_unsigned : ArithmeticKind
  shifted : ShiftKind → ArithmeticKind

pub data Relation : Type 0 where
  above at_least below at_most : Relation

pub data Comparison : Type 0 where
  equal not_equal : Comparison
  unsigned signed : Relation → Comparison

pub data Instruction : Type 0 where
  branch_by : BranchKind → ℕ → Instruction
  no_operation call_system stop_here : ℕ → Instruction
  high_half : ℕ → ℕ → Instruction
  leave_handler : Instruction
  jump_to : Bool → ℕ → Instruction
  load_from : LoadKind → ℕ → ℕ → ℕ → Instruction
  store_to : StoreKind → ℕ → ℕ → ℕ → Instruction
  compute_immediate : ImmediateKind → ℕ → ℕ → ℕ → Instruction
  shift_by : ShiftKind → ℕ → ℕ → ℕ → Instruction
  from_spr to_spr : ℕ → ℕ → ℕ → Instruction
  flag_immediate : Comparison → ℕ → ℕ → Instruction
  flag_registers : Comparison → ℕ → ℕ → Instruction
  compute : ArithmeticKind → ℕ → ℕ → ℕ → Instruction

-- A jump goes 2 ^ 25 words forward or back at most; back is the pattern of a negative number.
abbrev pub IsOffset : ℕ → Type 0
IsOffset n = (n < 2 ^ 25) ⊎ ((2 ^ 32 - 2 ^ 25 ≤ n) × (n < 2 ^ 32))

-- The operands fit their fields.
abbrev pub IsEncodable : Instruction → Type 0
IsEncodable (branch_by kind n) = IsOffset n
IsEncodable (no_operation k) = k < 2 ^ 16
IsEncodable (call_system k) = k < 2 ^ 16
IsEncodable (stop_here k) = k < 2 ^ 16
IsEncodable (high_half d k) = (d < 32) × (k < 2 ^ 16)
IsEncodable leave_handler = Unit {0}
IsEncodable (jump_to links b) = b < 32
IsEncodable (load_from kind d a i) = (d < 32) × (a < 32) × (i < 2 ^ 16)
IsEncodable (store_to kind a b i) = (a < 32) × (b < 32) × (i < 2 ^ 16)
IsEncodable (compute_immediate kind d a k) = (d < 32) × (a < 32) × (k < 2 ^ 16)
IsEncodable (shift_by kind d a l) = (d < 32) × (a < 32) × (l < 32)
IsEncodable (from_spr d a k) = (d < 32) × (a < 32) × (k < 2 ^ 16)
IsEncodable (to_spr a b k) = (a < 32) × (b < 32) × (k < 2 ^ 16)
IsEncodable (flag_immediate c a i) = (a < 32) × (i < 2 ^ 16)
IsEncodable (flag_registers c a b) = (a < 32) × (b < 32)
IsEncodable (compute kind d a b) = (d < 32) × (a < 32) × (b < 32)

abbrev pub branch_opcode : BranchKind → ℕ
branch_opcode plain = 0x0
branch_opcode linked = 0x1
branch_opcode on_clear = 0x3
branch_opcode on_set = 0x4

abbrev pub load_opcode : LoadKind → ℕ
load_opcode load_word = 0x21
load_opcode load_byte = 0x23
load_opcode load_signed_byte = 0x24
load_opcode load_half = 0x25
load_opcode load_signed_half = 0x26

abbrev pub store_opcode : StoreKind → ℕ
store_opcode store_word = 0x35
store_opcode store_byte = 0x36
store_opcode store_half = 0x37

abbrev pub immediate_opcode : ImmediateKind → ℕ
immediate_opcode add_immediate = 0x27
immediate_opcode and_immediate = 0x29
immediate_opcode or_immediate = 0x2a
immediate_opcode xor_immediate = 0x2b

abbrev pub shift_code : ShiftKind → ℕ
shift_code left = 0
shift_code right = 1
shift_code right_signed = 2

-- The two function fields of an instruction on registers.
abbrev pub function_high : ArithmeticKind → ℕ
function_high (shifted kind) = shift_code kind
function_high last_one = 0x4
function_high product = 0xc
function_high quotient = 0xc
function_high quotient_unsigned = 0xc
function_high _ = 0x0

abbrev pub function_low : ArithmeticKind → ℕ
function_low sum = 0x0
function_low difference = 0x2
function_low conjunction = 0x3
function_low disjunction = 0x4
function_low exclusive = 0x5
function_low first_one = 0xf
function_low last_one = 0xf
function_low product = 0x6
function_low quotient = 0x9
function_low quotient_unsigned = 0xa
function_low (shifted kind) = 0x8

abbrev pub comparison_code : Comparison → ℕ
comparison_code equal = 0x0
comparison_code not_equal = 0x1
comparison_code (unsigned above) = 0x2
comparison_code (unsigned at_least) = 0x3
comparison_code (unsigned below) = 0x4
comparison_code (unsigned at_most) = 0x5
comparison_code (signed above) = 0xa
comparison_code (signed at_least) = 0xb
comparison_code (signed below) = 0xc
comparison_code (signed at_most) = 0xd

-- The word of an instruction.
abbrev pub word : Instruction → ℕ
word (branch_by kind n) = type_n (branch_opcode kind) n
word (no_operation k) = type_exk 0x15 k
word (call_system k) = type_k 0x2000 k
word (stop_here k) = type_k 0x2100 k
word (high_half d k) = type_dfk 0x6 d false k
word leave_handler = type_x 0x9
word (jump_to false b) = type_b 0x11 b
word (jump_to true b) = type_b 0x12 b
word (load_from kind d a i) = type_dai (load_opcode kind) d a i
word (store_to kind a b i) = type_abi (store_opcode kind) a b i
word (compute_immediate kind d a k) = type_dai (immediate_opcode kind) d a k
word (shift_by kind d a l) = type_dafl 0x2e d a (shift_code kind) l
word (from_spr d a k) = type_dak 0x2d d a k
word (to_spr a b k) = type_abk 0x30 a b k
word (flag_immediate c a i) = type_ai (0x5e0 + comparison_code c) a i
word (flag_registers c a b) = type_ab (0x720 + comparison_code c) a b
word (compute kind d a b) = type_dabff 0x38 d a b (function_high kind) (function_low kind)
