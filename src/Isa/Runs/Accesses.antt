-- ===== src/Isa/Runs/Accesses.antt =====
-- Loads and stores.
use simctty.Prelude.{ℕ, ◌^◌, ◌<◌, ◌≡◌, ◌∙◌, arith}
use simctty.Prelude.Bits.{bit_and_ones}
use simctty.Cpu.State.{Machine}
use simctty.Cpu.Exec.{run_instruction, dispatch, load, store}
use simctty.Assembler.Words.{type_dai, type_abi}
use simctty.Isa.Instruction.{
  LoadKind, load_word, load_byte, load_signed_byte, load_half, load_signed_half, StoreKind,
  store_word, store_byte, store_half, load_from, store_to, load_opcode, store_opcode,
}
use simctty.Isa.Meaning.{execute_on}
use simctty.Isa.Runs.Fields.{dispatched, dai_fields, abi_fields}

pub run-load_from :
    (m : Machine) (kind : LoadKind) (d a i : ℕ)
    → (d < 32) × (a < 32) × (i < 2 ^ 16)
    → run_instruction m (type_dai (load_opcode kind) d a i)
      ≡ execute_on m.bus m.cpu (load_from kind d a i)
unfolding dispatch load execute_on
run-load_from m load_word d a i h =
    let (op, e_d, e_a, _, e_i) = dai_fields 0x21 d a i (omega arith) h in
    dispatched m _ 0x21 op ∙ rw (e_d, e_a, e_i)
run-load_from m load_byte d a i h =
    let (op, e_d, e_a, _, e_i) = dai_fields 0x23 d a i (omega arith) h in
    dispatched m _ 0x23 op ∙ rw (e_d, e_a, e_i)
run-load_from m load_signed_byte d a i h =
    let (op, e_d, e_a, _, e_i) = dai_fields 0x24 d a i (omega arith) h in
    dispatched m _ 0x24 op ∙ rw (e_d, e_a, e_i)
run-load_from m load_half d a i h =
    let (op, e_d, e_a, _, e_i) = dai_fields 0x25 d a i (omega arith) h in
    dispatched m _ 0x25 op ∙ rw (e_d, e_a, e_i)
run-load_from m load_signed_half d a i h =
    let (op, e_d, e_a, _, e_i) = dai_fields 0x26 d a i (omega arith) h in
    dispatched m _ 0x26 op ∙ rw (e_d, e_a, e_i)

pub run-store_to :
    (m : Machine) (kind : StoreKind) (a b i : ℕ)
    → (a < 32) × (b < 32) × (i < 2 ^ 16)
    → run_instruction m (type_abi (store_opcode kind) a b i)
      ≡ execute_on m.bus m.cpu (store_to kind a b i)
unfolding dispatch store execute_on
run-store_to m store_word a b i h =
    let (op, e_a, e_b, e_i, _) = abi_fields 0x35 a b i (omega arith) h in
    dispatched m _ 0x35 op ∙ rw (e_a, e_b, e_i)
run-store_to m store_byte a b i h =
    let (op, e_a, e_b, e_i, _) = abi_fields 0x36 a b i (omega arith) h in
    dispatched m _ 0x36 op ∙ rw (e_a, e_b, e_i, bit_and_ones 8 (m.cpu.reg b))
run-store_to m store_half a b i h =
    let (op, e_a, e_b, e_i, _) = abi_fields 0x37 a b i (omega arith) h in
    dispatched m _ 0x37 op ∙ rw (e_a, e_b, e_i, bit_and_ones 16 (m.cpu.reg b))
