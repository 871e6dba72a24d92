-- ===== src/Assembler/Emit.antt =====
-- The methods of `Assembler`, on the bytes that it holds: one for each instruction.
use simctty.Prelude.{ℕ, zero, suc, ◌/◌, true, false, List, [], ltb, length}
use simctty.Assembler.Words.{
  type_n, type_exk, type_dfk, type_k, type_x, type_b, type_dai, type_dak, type_dafl, type_ai,
  type_abk, type_abi, type_dabff, type_ab, append_instruction,
}

unfoldable pub size : List ℕ → ℕ
size s = length s

abbrev instruction_count : List ℕ → ℕ
instruction_count s = length s / 4

abbrev clear : List ℕ → List ℕ
clear s = []

unfoldable pub l_j : List ℕ → ℕ → List ℕ
l_j s n = append_instruction s (type_n 0x0 n)

unfoldable pub l_jal : List ℕ → ℕ → List ℕ
l_jal s n = append_instruction s (type_n 0x1 n)

unfoldable pub l_bnf : List ℕ → ℕ → List ℕ
l_bnf s n = append_instruction s (type_n 0x3 n)

unfoldable pub l_bf : List ℕ → ℕ → List ℕ
l_bf s n = append_instruction s (type_n 0x4 n)

unfoldable pub l_nop : List ℕ → ℕ → List ℕ
l_nop s k = append_instruction s (type_exk 0x15 k)

unfoldable pub l_movhi : List ℕ → ℕ → ℕ → List ℕ
l_movhi s d k = append_instruction s (type_dfk 0x6 d false k)

unfoldable pub l_sys : List ℕ → ℕ → List ℕ
l_sys s k = append_instruction s (type_k 0x2000 k)

unfoldable pub l_trap : List ℕ → ℕ → List ℕ
l_trap s k = append_instruction s (type_k 0x2100 k)

unfoldable pub l_rfe : List ℕ → List ℕ
l_rfe s = append_instruction s (type_x 0x9)

unfoldable pub l_jr : List ℕ → ℕ → List ℕ
l_jr s b = append_instruction s (type_b 0x11 b)

unfoldable pub l_jalr : List ℕ → ℕ → List ℕ
l_jalr s b = append_instruction s (type_b 0x12 b)

unfoldable pub l_lwz : List ℕ → ℕ → ℕ → ℕ → List ℕ
l_lwz s d a i = append_instruction s (type_dai 0x21 d a i)

unfoldable pub l_lbz : List ℕ → ℕ → ℕ → ℕ → List ℕ
l_lbz s d a i = append_instruction s (type_dai 0x23 d a i)

unfoldable pub l_lbs : List ℕ → ℕ → ℕ → ℕ → List ℕ
l_lbs s d a i = append_instruction s (type_dai 0x24 d a i)

unfoldable pub l_lhz : List ℕ → ℕ → ℕ → ℕ → List ℕ
l_lhz s d a i = append_instruction s (type_dai 0x25 d a i)

unfoldable pub l_lhs : List ℕ → ℕ → ℕ → ℕ → List ℕ
l_lhs s d a i = append_instruction s (type_dai 0x26 d a i)

unfoldable pub l_addi : List ℕ → ℕ → ℕ → ℕ → List ℕ
l_addi s d a i = append_instruction s (type_dai 0x27 d a i)

unfoldable pub l_andi : List ℕ → ℕ → ℕ → ℕ → List ℕ
l_andi s d a k = append_instruction s (type_dak 0x29 d a k)

unfoldable pub l_ori : List ℕ → ℕ → ℕ → ℕ → List ℕ
l_ori s d a k = append_instruction s (type_dak 0x2a d a k)

unfoldable pub l_xori : List ℕ → ℕ → ℕ → ℕ → List ℕ
l_xori s d a i = append_instruction s (type_dai 0x2b d a i)

unfoldable pub l_mfspr : List ℕ → ℕ → ℕ → ℕ → List ℕ
l_mfspr s d a k = append_instruction s (type_dak 0x2d d a k)

unfoldable pub l_slli : List ℕ → ℕ → ℕ → ℕ → List ℕ
l_slli s d a l = append_instruction s (type_dafl 0x2e d a 0x00 l)

unfoldable pub l_srli : List ℕ → ℕ → ℕ → ℕ → List ℕ
l_srli s d a l = append_instruction s (type_dafl 0x2e d a 0x01 l)

unfoldable pub l_srai : List ℕ → ℕ → ℕ → ℕ → List ℕ
l_srai s d a l = append_instruction s (type_dafl 0x2e d a 0x02 l)

unfoldable pub l_sfeqi : List ℕ → ℕ → ℕ → List ℕ
l_sfeqi s a i = append_instruction s (type_ai 0x5e0 a i)

unfoldable pub l_sfnei : List ℕ → ℕ → ℕ → List ℕ
l_sfnei s a i = append_instruction s (type_ai 0x5e1 a i)

unfoldable pub l_sfgtui : List ℕ → ℕ → ℕ → List ℕ
l_sfgtui s a i = append_instruction s (type_ai 0x5e2 a i)

unfoldable pub l_sfgeui : List ℕ → ℕ → ℕ → List ℕ
l_sfgeui s a i = append_instruction s (type_ai 0x5e3 a i)

unfoldable pub l_sfltui : List ℕ → ℕ → ℕ → List ℕ
l_sfltui s a i = append_instruction s (type_ai 0x5e4 a i)

unfoldable pub l_sfleui : List ℕ → ℕ → ℕ → List ℕ
l_sfleui s a i = append_instruction s (type_ai 0x5e5 a i)

unfoldable pub l_sfgtsi : List ℕ → ℕ → ℕ → List ℕ
l_sfgtsi s a i = append_instruction s (type_ai 0x5ea a i)

unfoldable pub l_sfgesi : List ℕ → ℕ → ℕ → List ℕ
l_sfgesi s a i = append_instruction s (type_ai 0x5eb a i)

unfoldable pub l_sfltsi : List ℕ → ℕ → ℕ → List ℕ
l_sfltsi s a i = append_instruction s (type_ai 0x5ec a i)

unfoldable pub l_sflesi : List ℕ → ℕ → ℕ → List ℕ
l_sflesi s a i = append_instruction s (type_ai 0x5ed a i)

unfoldable pub l_mtspr : List ℕ → ℕ → ℕ → ℕ → List ℕ
l_mtspr s a b k = append_instruction s (type_abk 0x30 a b k)

unfoldable pub l_sw : List ℕ → ℕ → ℕ → ℕ → List ℕ
l_sw s a b i = append_instruction s (type_abi 0x35 a b i)

unfoldable pub l_sb : List ℕ → ℕ → ℕ → ℕ → List ℕ
l_sb s a b i = append_instruction s (type_abi 0x36 a b i)

unfoldable pub l_sh : List ℕ → ℕ → ℕ → ℕ → List ℕ
l_sh s a b i = append_instruction s (type_abi 0x37 a b i)

unfoldable pub l_add : List ℕ → ℕ → ℕ → ℕ → List ℕ
l_add s d a b = append_instruction s (type_dabff 0x38 d a b 0x0 0x0)

unfoldable pub l_sub : List ℕ → ℕ → ℕ → ℕ → List ℕ
l_sub s d a b = append_instruction s (type_dabff 0x38 d a b 0x0 0x2)

unfoldable pub l_and : List ℕ → ℕ → ℕ → ℕ → List ℕ
l_and s d a b = append_instruction s (type_dabff 0x38 d a b 0x0 0x3)

unfoldable pub l_or : List ℕ → ℕ → ℕ → ℕ → List ℕ
l_or s d a b = append_instruction s (type_dabff 0x38 d a b 0x0 0x4)

unfoldable pub l_xor : List ℕ → ℕ → ℕ → ℕ → List ℕ
l_xor s d a b = append_instruction s (type_dabff 0x38 d a b 0x0 0x5)

unfoldable pub l_ff1 : List ℕ → ℕ → ℕ → ℕ → List ℕ
l_ff1 s d a b = append_instruction s (type_dabff 0x38 d a b 0x0 0xf)

unfoldable pub l_sll : List ℕ → ℕ → ℕ → ℕ → List ℕ
l_sll s d a b = append_instruction s (type_dabff 0x38 d a b 0x0 0x8)

unfoldable pub l_srl : List ℕ → ℕ → ℕ → ℕ → List ℕ
l_srl s d a b = append_instruction s (type_dabff 0x38 d a b 0x1 0x8)

unfoldable pub l_sra : List ℕ → ℕ → ℕ → ℕ → List ℕ
l_sra s d a b = append_instruction s (type_dabff 0x38 d a b 0x2 0x8)

unfoldable pub l_fl1 : List ℕ → ℕ → ℕ → ℕ → List ℕ
l_fl1 s d a b = append_instruction s (type_dabff 0x38 d a b 0x4 0xf)

unfoldable pub l_mul : List ℕ → ℕ → ℕ → ℕ → List ℕ
l_mul s d a b = append_instruction s (type_dabff 0x38 d a b 0xc 0x6)

unfoldable pub l_div : List ℕ → ℕ → ℕ → ℕ → List ℕ
l_div s d a b = append_instruction s (type_dabff 0x38 d a b 0xc 0x9)

unfoldable pub l_divu : List ℕ → ℕ → ℕ → ℕ → List ℕ
l_divu s d a b = append_instruction s (type_dabff 0x38 d a b 0xc 0xa)

unfoldable pub l_sfeq : List ℕ → ℕ → ℕ → List ℕ
l_sfeq s a b = append_instruction s (type_ab 0x720 a b)

unfoldable pub l_sfne : List ℕ → ℕ → ℕ → List ℕ
l_sfne s a b = append_instruction s (type_ab 0x721 a b)

unfoldable pub l_sfgtu : List ℕ → ℕ → ℕ → List ℕ
l_sfgtu s a b = append_instruction s (type_ab 0x722 a b)

unfoldable pub l_sfgeu : List ℕ → ℕ → ℕ → List ℕ
l_sfgeu s a b = append_instruction s (type_ab 0x723 a b)

unfoldable pub l_sfltu : List ℕ → ℕ → ℕ → List ℕ
l_sfltu s a b = append_instruction s (type_ab 0x724 a b)

unfoldable pub l_sfleu : List ℕ → ℕ → ℕ → List ℕ
l_sfleu s a b = append_instruction s (type_ab 0x725 a b)

unfoldable pub l_sfgts : List ℕ → ℕ → ℕ → List ℕ
l_sfgts s a b = append_instruction s (type_ab 0x72a a b)

unfoldable pub l_sfges : List ℕ → ℕ → ℕ → List ℕ
l_sfges s a b = append_instruction s (type_ab 0x72b a b)

unfoldable pub l_sflts : List ℕ → ℕ → ℕ → List ℕ
l_sflts s a b = append_instruction s (type_ab 0x72c a b)

unfoldable pub l_sfles : List ℕ → ℕ → ℕ → List ℕ
l_sfles s a b = append_instruction s (type_ab 0x72d a b)

-- The loop `while (Size() < address) l_nop();`: each round adds 4 bytes, so `address` rounds are
-- enough.
unfoldable pub pad : ℕ → List ℕ → ℕ → List ℕ
pad zero s address = s
pad (suc rounds) s address = elim (ltb (size s) address) [
  | true ↦ pad rounds (l_nop s 0) address
  | false ↦ s
]

unfoldable pub set_address : List ℕ → ℕ → List ℕ
unfolding pad
set_address s address = pad address s address

-- `Data`.
abbrev put_data : List ℕ → ℕ → List ℕ
put_data s word = append_instruction s word
