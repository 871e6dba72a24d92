-- ===== src/Isa/Runs/Fields.antt =====
-- The switch of `RunInstruction`, and the fields that it finds in each format.
use simctty.Prelude.{ℕ, ◌+◌, ◌*◌, ◌/◌, ◌^◌, ◌<◌, ◌≡◌, ap, arith}
use simctty.Cpu.State.{Machine}
use simctty.Cpu.Decode.{
  opcode, decode_d, decode_a, decode_b, decode_k, decode_i, decode_split_i, decode_split_k,
  decode_opcode11, decode_l, decode_f, decode_ff,
}
use simctty.Cpu.Decode.Fields.{
  opcode-eq, decode_d-eq, decode_a-eq, decode_b-eq, decode_k-eq, decode_i-eq, decode_split_i-eq,
  decode_split_k-eq, decode_opcode11-eq, decode_l-eq, decode_f-eq, decode_ff-eq,
}
use simctty.Cpu.Exec.{run_instruction, dispatch}
use simctty.Assembler.Words.{type_dai, type_dafl, type_abi, type_dabff, type_ai, type_ab}
use simctty.Assembler.Encoding.{
  type_dai-sum, type_dafl-sum, type_abi-sum, type_dabff-sum, type_ai-sum, type_ab-sum,
}

-- The switch on the opcode, when the opcode is known.
pub dispatched :
    (m : Machine) (w op : ℕ) → opcode w ≡ op → run_instruction m w ≡ dispatch op m.bus m.cpu w
unfolding run_instruction
dispatched m w op e = ap (λ o. dispatch o m.bus m.cpu w) e

-- The fields of each format.
pub dai_fields :
    (op d a i : ℕ)
    → op < 64
    → (d < 32) × (a < 32) × (i < 2 ^ 16)
    → let w = type_dai op d a i in
      (opcode w ≡ op) × (decode_d w ≡ d) × (decode_a w ≡ a) × (decode_k w ≡ i) × (decode_i w ≡ i)
dai_fields op d a i o (p, q, r) =
    rw
      (opcode-eq, decode_d-eq, decode_a-eq, decode_k-eq, decode_i-eq, type_dai-sum op d a i o p q r)
      (omega arith, omega arith, omega arith, omega arith, omega arith)

pub abi_fields :
    (op a b i : ℕ)
    → op < 64
    → (a < 32) × (b < 32) × (i < 2 ^ 16)
    → let w = type_abi op a b i in
      (opcode w ≡ op)
      × (decode_a w ≡ a)
      × (decode_b w ≡ b)
      × (decode_split_i w ≡ i)
      × (decode_split_k w ≡ i)
abi_fields op a b i o (p, q, r) =
    rw
      (
        opcode-eq,
        decode_a-eq,
        decode_b-eq,
        decode_split_i-eq,
        decode_split_k-eq,
        type_abi-sum op a b i o p q r,
      )
      (omega arith, omega arith, omega arith, omega arith, omega arith)

pub dafl_fields :
    (op d a f l : ℕ)
    → op < 64
    → f < 4
    → (d < 32) × (a < 32) × (l < 32)
    → let w = type_dafl op d a f l in
      (opcode w ≡ op) × (decode_d w ≡ d) × (decode_a w ≡ a) × (decode_f w ≡ f) × (decode_l w ≡ l)
dafl_fields op d a f l o t (p, q, r) =
    rw
      (
        opcode-eq,
        decode_d-eq,
        decode_a-eq,
        decode_f-eq,
        decode_l-eq,
        type_dafl-sum op d a f l o p q t (omega arith),
      )
      (omega arith, omega arith, omega arith, omega arith, omega arith)

pub dabff_fields :
    (op d a b f1 f2 : ℕ)
    → op < 64
    → f1 < 16
    → f2 < 16
    → (d < 32) × (a < 32) × (b < 32)
    → let w = type_dabff op d a b f1 f2 in
      (opcode w ≡ op)
      × (decode_d w ≡ d)
      × (decode_a w ≡ a)
      × (decode_b w ≡ b)
      × (decode_ff w ≡ f1 * 16 + f2)
dabff_fields op d a b f1 f2 o t u (p, q, r) =
    rw
      (
        opcode-eq,
        decode_d-eq,
        decode_a-eq,
        decode_b-eq,
        decode_ff-eq,
        type_dabff-sum op d a b f1 f2 o p q r t u,
      )
      (omega arith, omega arith, omega arith, omega arith, omega arith)

pub ai_fields :
    (op a i : ℕ)
    → op < 2048
    → (a < 32) × (i < 2 ^ 16)
    → let w = type_ai op a i in
      (opcode w ≡ op / 32) × (decode_opcode11 w ≡ op) × (decode_a w ≡ a) × (decode_i w ≡ i)
ai_fields op a i o (p, q) =
    rw (opcode-eq, decode_opcode11-eq, decode_a-eq, decode_i-eq, type_ai-sum op a i o p q)
      (omega arith, omega arith, omega arith, omega arith)

pub ab_fields :
    (op a b : ℕ)
    → op < 2048
    → (a < 32) × (b < 32)
    → let w = type_ab op a b in
      (opcode w ≡ op / 32) × (decode_opcode11 w ≡ op) × (decode_a w ≡ a) × (decode_b w ≡ b)
ab_fields op a b o (p, q) =
    rw (opcode-eq, decode_opcode11-eq, decode_a-eq, decode_b-eq, type_ab-sum op a b o p q)
      (omega arith, omega arith, omega arith, omega arith)
