-- ===== src/Isa/Meaning.antt =====
-- What each instruction does, from its operands: the effect that the OpenRISC manual describes, on
-- the state of simctty/cpu.cc.
use simctty.Prelude.{
  ℕ, ◌+◌, ◌*◌, ◌%◌, ◌^◌, bit_or, bit_and, bit_xor, Bool, true, false, ◌&&◌, not, ltb, leb, ◌==◌,
  if◌then◌else◌, has, u16, u32, add32, sub32, Result, ok, ◌>>=◌,
}
use simctty.Prelude.Int.{int8, uint32}
use simctty.Exception.{raised, tick_timer_interrupt, system_call}
use simctty.Bus.{Bus}
use simctty.Mmu.{Mmu}
use simctty.Mmu.Access
use simctty.Mmu.Access.{Load, Store}
use simctty.Cpu.State.{Cpu, sp_reg, set_sp_reg, k_sm, k_tee, k_f}
use simctty.Cpu.Control.{increment_pc, jump, set_compare_flag}
use simctty.Cpu.Decode.{extend16}
use simctty.Cpu.Alu.{
  shift_left_logical, shift_right_logical, shift_right_arithmetic, ff1, fl1, multiply, divide,
  divide_unsigned,
}
use simctty.Cpu.Exec.{Ran, ran, stop, throw, put, link, return_from_exception}
use simctty.Isa.Instruction.{
  BranchKind, linked, on_clear, on_set, LoadKind, load_word, load_byte, load_signed_byte, load_half,
  load_signed_half, StoreKind, store_word, store_byte, store_half, ImmediateKind, add_immediate,
  and_immediate, or_immediate, xor_immediate, ShiftKind, left, right, right_signed, ArithmeticKind,
  sum, difference, conjunction, disjunction, exclusive, first_one, last_one, product, quotient,
  quotient_unsigned, shifted, Relation, above, at_least, below, at_most, Comparison, equal,
  not_equal, unsigned, signed, Instruction, branch_by, no_operation, call_system, stop_here,
  high_half, leave_handler, jump_to, load_from, store_to, compute_immediate, shift_by, from_spr,
  to_spr, flag_immediate, flag_registers, compute,
}

abbrev pub related : Relation → ℕ → ℕ → Bool
related above x y = ltb y x
related at_least x y = leb y x
related below x y = ltb x y
related at_most x y = leb x y

-- The order of signed words is that of unsigned words with the sign bit flipped.
abbrev pub flip_sign : ℕ → ℕ
flip_sign x = u32 (x + 2 ^ 31)

abbrev pub compares : Comparison → ℕ → ℕ → Bool
compares equal x y = x == y
compares not_equal x y = not (x == y)
compares (unsigned r) x y = related r x y
compares (signed r) x y = related r (flip_sign x) (flip_sign y)

abbrev pub shift_value : ShiftKind → ℕ → ℕ → ℕ
shift_value left x l = shift_left_logical x l
shift_value right x l = shift_right_logical x l
shift_value right_signed x l = shift_right_arithmetic x l

-- A shift takes the low 5 bits of its second operand.
abbrev pub arithmetic_value : ArithmeticKind → ℕ → ℕ → Result ℕ
arithmetic_value sum x y = ok (add32 x y)
arithmetic_value difference x y = ok (sub32 x y)
arithmetic_value conjunction x y = ok (bit_and x y)
arithmetic_value disjunction x y = ok (bit_or x y)
arithmetic_value exclusive x y = ok (bit_xor x y)
arithmetic_value first_one x y = ok (ff1 x)
arithmetic_value last_one x y = ok (fl1 x)
arithmetic_value product x y = ok (multiply x y)
arithmetic_value quotient x y = divide x y
arithmetic_value quotient_unsigned x y = ok (divide_unsigned x y)
arithmetic_value (shifted kind) x y = ok (shift_value kind x (y % 32))

-- l.addi and l.xori extend the sign of the immediate.
abbrev pub immediate_value : ImmediateKind → ℕ → ℕ → ℕ
immediate_value add_immediate x k = add32 x (extend16 k)
immediate_value and_immediate x k = bit_and x k
immediate_value or_immediate x k = bit_or x k
immediate_value xor_immediate x k = bit_xor x (extend16 k)

abbrev pub load_access : LoadKind → Mmu → Bus → ℕ → Bool → Result Load
load_access load_word = Access.load32
load_access load_byte = Access.load8
load_access load_signed_byte = Access.load8
load_access load_half = Access.load16
load_access load_signed_half = Access.load16

abbrev pub load_value : LoadKind → ℕ → ℕ
load_value load_signed_byte v = uint32 (int8 v)
load_value load_signed_half v = extend16 v
load_value _ v = v

abbrev pub store_access : StoreKind → Mmu → Bus → ℕ → ℕ → Bool → Result Store
store_access store_word = Access.store32
store_access store_byte = Access.store8
store_access store_half = Access.store16

abbrev pub store_value : StoreKind → ℕ → ℕ
store_value store_word v = v
store_value store_byte v = v % 2 ^ 8
store_value store_half v = v % 2 ^ 16

abbrev pub taken : BranchKind → Cpu → Bool
taken on_clear c = not (has c.sr k_f)
taken on_set c = has c.sr k_f
taken _ c = true

-- The register that a linked jump sets before it jumps.
abbrev pub linking : Bool → Cpu → Cpu
linking true c = link c
linking false c = c

abbrev pub links : BranchKind → Bool
links linked = true
links _ = false

abbrev pub effective_address : Cpu → ℕ → ℕ → ℕ
effective_address c a i = add32 (c.reg a) (extend16 i)

unfoldable pub execute_on : Bus → Cpu → Instruction → Result Ran
execute_on b c (branch_by kind n) =
    let c' = linking (links kind) c in
    ran b (if taken kind c' then jump c' (add32 c.pc (u32 (n * 4))) else increment_pc c')
execute_on b c (no_operation k) =
    if has c.sr k_sm && k == 1 then stop b c else ran b (increment_pc c)
execute_on b c (call_system k) = throw b (record c { pc = add32 c.pc 4 }) system_call 0
execute_on b c (stop_here k) = stop b (increment_pc c)
execute_on b c (high_half d k) = put b c d (k * 2 ^ 16)
execute_on b c leave_handler = return_from_exception b c
execute_on b c (jump_to with_link b_reg) =
    let c' = linking with_link c in ran b (jump c' (c'.reg b_reg))
execute_on b c (load_from kind d a i) =
    load_access kind c.dmmu b (effective_address c a i) (has c.sr k_sm) >>= λ l.
    (if raised l.exception
      then throw l.bus (record c { dmmu = l.mmu }) l.exception (effective_address c a i)
      else put l.bus (record c { dmmu = l.mmu }) d (load_value kind l.value))
execute_on b c (store_to kind a b_reg i) =
    store_access kind c.dmmu b (effective_address c a i) (store_value kind (c.reg b_reg))
      (has c.sr k_sm)
    >>= λ s.
        (if raised s.exception
          then throw s.bus (record c { dmmu = s.mmu }) s.exception (effective_address c a i)
          else ran s.bus (increment_pc (record c { dmmu = s.mmu })))
execute_on b c (compute_immediate kind d a k) = put b c d (immediate_value kind (c.reg a) k)
execute_on b c (shift_by kind d a l) = put b c d (shift_value kind (c.reg a) l)
execute_on b c (from_spr d a k) = do v ← sp_reg c (u16 (bit_or (c.reg a) k)); put b c d v
execute_on b c (to_spr a b_reg k) = do
  c' ← set_sp_reg c (u16 (bit_or (c.reg a) k)) (c.reg b_reg)
  if has c'.ttmr 0x10000000 && has c'.sr k_tee
      then throw b c' tick_timer_interrupt 0
      else ran b (increment_pc c')
execute_on b c (flag_immediate t a i) =
    ran b (increment_pc (set_compare_flag c (compares t (c.reg a) (extend16 i))))
execute_on b c (flag_registers t a b_reg) =
    ran b (increment_pc (set_compare_flag c (compares t (c.reg a) (c.reg b_reg))))
execute_on b c (compute kind d a b_reg) = do
  v ← arithmetic_value kind (c.reg a) (c.reg b_reg)
  put b c d v
