-- ===== src/Isa/Bytes.antt =====
-- The method of `Assembler` that appends each instruction, and the four bytes that it appends.
use simctty.Prelude.{ℕ, ◌≡◌, refl, true, false, List}
use simctty.Assembler.Words.{append_instruction, type_dai, type_dak}
use simctty.Assembler.Emit.{
  l_j, l_jal, l_bnf, l_bf, l_nop, l_movhi, l_sys, l_trap, l_rfe, l_jr, l_jalr, l_lwz, l_lbz, l_lbs,
  l_lhz, l_lhs, l_addi, l_andi, l_ori, l_xori, l_mfspr, l_slli, l_srli, l_srai, l_sfeqi, l_sfnei,
  l_sfgtui, l_sfgeui, l_sfltui, l_sfleui, l_sfgtsi, l_sfgesi, l_sfltsi, l_sflesi, l_mtspr, l_sw,
  l_sb, l_sh, l_add, l_sub, l_and, l_or, l_xor, l_ff1, l_sll, l_srl, l_sra, l_fl1, l_mul, l_div,
  l_divu, l_sfeq, l_sfne, l_sfgtu, l_sfgeu, l_sfltu, l_sfleu, l_sfgts, l_sfges, l_sflts, l_sfles,
}
use simctty.Isa.Instruction.{
  Instruction, branch_by, no_operation, call_system, stop_here, high_half, leave_handler, jump_to,
  load_from, store_to, compute_immediate, shift_by, from_spr, to_spr, flag_immediate,
  flag_registers, compute, plain, linked, on_clear, on_set, load_word, load_byte, load_signed_byte,
  load_half, load_signed_half, store_word, store_byte, store_half, add_immediate, and_immediate,
  or_immediate, xor_immediate, left, right, right_signed, sum, difference, conjunction, disjunction,
  exclusive, first_one, last_one, product, quotient, quotient_unsigned, shifted, above, at_least,
  below, at_most, equal, not_equal, unsigned, signed, word,
}

-- The call that appends an instruction.
abbrev pub emit : List ℕ → Instruction → List ℕ
emit s (branch_by plain n) = l_j s n
emit s (branch_by linked n) = l_jal s n
emit s (branch_by on_clear n) = l_bnf s n
emit s (branch_by on_set n) = l_bf s n
emit s (no_operation k) = l_nop s k
emit s (call_system k) = l_sys s k
emit s (stop_here k) = l_trap s k
emit s (high_half d k) = l_movhi s d k
emit s leave_handler = l_rfe s
emit s (jump_to false b) = l_jr s b
emit s (jump_to true b) = l_jalr s b
emit s (load_from load_word d a i) = l_lwz s d a i
emit s (load_from load_byte d a i) = l_lbz s d a i
emit s (load_from load_signed_byte d a i) = l_lbs s d a i
emit s (load_from load_half d a i) = l_lhz s d a i
emit s (load_from load_signed_half d a i) = l_lhs s d a i
emit s (store_to store_word a b i) = l_sw s a b i
emit s (store_to store_byte a b i) = l_sb s a b i
emit s (store_to store_half a b i) = l_sh s a b i
emit s (compute_immediate add_immediate d a k) = l_addi s d a k
emit s (compute_immediate and_immediate d a k) = l_andi s d a k
emit s (compute_immediate or_immediate d a k) = l_ori s d a k
emit s (compute_immediate xor_immediate d a k) = l_xori s d a k
emit s (shift_by left d a l) = l_slli s d a l
emit s (shift_by right d a l) = l_srli s d a l
emit s (shift_by right_signed d a l) = l_srai s d a l
emit s (from_spr d a k) = l_mfspr s d a k
emit s (to_spr a b k) = l_mtspr s a b k
emit s (flag_immediate equal a i) = l_sfeqi s a i
emit s (flag_immediate not_equal a i) = l_sfnei s a i
emit s (flag_immediate (unsigned above) a i) = l_sfgtui s a i
emit s (flag_immediate (unsigned at_least) a i) = l_sfgeui s a i
emit s (flag_immediate (unsigned below) a i) = l_sfltui s a i
emit s (flag_immediate (unsigned at_most) a i) = l_sfleui s a i
emit s (flag_immediate (signed above) a i) = l_sfgtsi s a i
emit s (flag_immediate (signed at_least) a i) = l_sfgesi s a i
emit s (flag_immediate (signed below) a i) = l_sfltsi s a i
emit s (flag_immediate (signed at_most) a i) = l_sflesi s a i
emit s (flag_registers equal a b) = l_sfeq s a b
emit s (flag_registers not_equal a b) = l_sfne s a b
emit s (flag_registers (unsigned above) a b) = l_sfgtu s a b
emit s (flag_registers (unsigned at_least) a b) = l_sfgeu s a b
emit s (flag_registers (unsigned below) a b) = l_sfltu s a b
emit s (flag_registers (unsigned at_most) a b) = l_sfleu s a b
emit s (flag_registers (signed above) a b) = l_sfgts s a b
emit s (flag_registers (signed at_least) a b) = l_sfges s a b
emit s (flag_registers (signed below) a b) = l_sflts s a b
emit s (flag_registers (signed at_most) a b) = l_sfles s a b
emit s (compute sum d a b) = l_add s d a b
emit s (compute difference d a b) = l_sub s d a b
emit s (compute conjunction d a b) = l_and s d a b
emit s (compute disjunction d a b) = l_or s d a b
emit s (compute exclusive d a b) = l_xor s d a b
emit s (compute first_one d a b) = l_ff1 s d a b
emit s (compute last_one d a b) = l_fl1 s d a b
emit s (compute product d a b) = l_mul s d a b
emit s (compute quotient d a b) = l_div s d a b
emit s (compute quotient_unsigned d a b) = l_divu s d a b
emit s (compute (shifted left) d a b) = l_sll s d a b
emit s (compute (shifted right) d a b) = l_srl s d a b
emit s (compute (shifted right_signed) d a b) = l_sra s d a b

pub emit-append_instruction :
    (s : List ℕ) (i : Instruction) → emit s i ≡ append_instruction s (word i)
unfolding l_j l_jal l_bnf l_bf l_nop l_movhi l_sys l_trap l_rfe l_jr l_jalr l_lwz l_lbz l_lbs l_lhz
    l_lhs l_addi l_andi l_ori l_xori l_mfspr l_slli l_srli l_srai l_sfeqi l_sfnei l_sfgtui l_sfgeui
    l_sfltui l_sfleui l_sfgtsi l_sfgesi l_sfltsi l_sflesi l_mtspr l_sw l_sb l_sh l_add l_sub l_and
    l_or l_xor l_ff1 l_sll l_srl l_sra l_fl1 l_mul l_div l_divu l_sfeq l_sfne l_sfgtu l_sfgeu
    l_sfltu l_sfleu l_sfgts l_sfges l_sflts l_sfles type_dak type_dai
emit-append_instruction s (branch_by plain n) = refl
emit-append_instruction s (branch_by linked n) = refl
emit-append_instruction s (branch_by on_clear n) = refl
emit-append_instruction s (branch_by on_set n) = refl
emit-append_instruction s (no_operation k) = refl
emit-append_instruction s (call_system k) = refl
emit-append_instruction s (stop_here k) = refl
emit-append_instruction s (high_half d k) = refl
emit-append_instruction s leave_handler = refl
emit-append_instruction s (jump_to false b) = refl
emit-append_instruction s (jump_to true b) = refl
emit-append_instruction s (load_from load_word d a i) = refl
emit-append_instruction s (load_from load_byte d a i) = refl
emit-append_instruction s (load_from load_signed_byte d a i) = refl
emit-append_instruction s (load_from load_half d a i) = refl
emit-append_instruction s (load_from load_signed_half d a i) = refl
emit-append_instruction s (store_to store_word a b i) = refl
emit-append_instruction s (store_to store_byte a b i) = refl
emit-append_instruction s (store_to store_half a b i) = refl
emit-append_instruction s (compute_immediate add_immediate d a k) = refl
emit-append_instruction s (compute_immediate and_immediate d a k) = refl
emit-append_instruction s (compute_immediate or_immediate d a k) = refl
emit-append_instruction s (compute_immediate xor_immediate d a k) = refl
emit-append_instruction s (shift_by left d a l) = refl
emit-append_instruction s (shift_by right d a l) = refl
emit-append_instruction s (shift_by right_signed d a l) = refl
emit-append_instruction s (from_spr d a k) = refl
emit-append_instruction s (to_spr a b k) = refl
emit-append_instruction s (flag_immediate equal a i) = refl
emit-append_instruction s (flag_immediate not_equal a i) = refl
emit-append_instruction s (flag_immediate (unsigned above) a i) = refl
emit-append_instruction s (flag_immediate (unsigned at_least) a i) = refl
emit-append_instruction s (flag_immediate (unsigned below) a i) = refl
emit-append_instruction s (flag_immediate (unsigned at_most) a i) = refl
emit-append_instruction s (flag_immediate (signed above) a i) = refl
emit-append_instruction s (flag_immediate (signed at_least) a i) = refl
emit-append_instruction s (flag_immediate (signed below) a i) = refl
emit-append_instruction s (flag_immediate (signed at_most) a i) = refl
emit-append_instruction s (flag_registers equal a b) = refl
emit-append_instruction s (flag_registers not_equal a b) = refl
emit-append_instruction s (flag_registers (unsigned above) a b) = refl
emit-append_instruction s (flag_registers (unsigned at_least) a b) = refl
emit-append_instruction s (flag_registers (unsigned below) a b) = refl
emit-append_instruction s (flag_registers (unsigned at_most) a b) = refl
emit-append_instruction s (flag_registers (signed above) a b) = refl
emit-append_instruction s (flag_registers (signed at_least) a b) = refl
emit-append_instruction s (flag_registers (signed below) a b) = refl
emit-append_instruction s (flag_registers (signed at_most) a b) = refl
emit-append_instruction s (compute sum d a b) = refl
emit-append_instruction s (compute difference d a b) = refl
emit-append_instruction s (compute conjunction d a b) = refl
emit-append_instruction s (compute disjunction d a b) = refl
emit-append_instruction s (compute exclusive d a b) = refl
emit-append_instruction s (compute first_one d a b) = refl
emit-append_instruction s (compute last_one d a b) = refl
emit-append_instruction s (compute product d a b) = refl
emit-append_instruction s (compute quotient d a b) = refl
emit-append_instruction s (compute quotient_unsigned d a b) = refl
emit-append_instruction s (compute (shifted left) d a b) = refl
emit-append_instruction s (compute (shifted right) d a b) = refl
emit-append_instruction s (compute (shifted right_signed) d a b) = refl
