-- ===== src/Cpu/Safety/Dispatch.antt =====
-- The switch of `RunInstruction` in simctty/cpu.cc on a processor and a bus in good order.
use simctty.Prelude.{
  ℕ, ◌≡◌, arith, bit_and, bit_or, bit_xor, true, ◌==◌, add32, not, has, ◌or_else◌,
}
use simctty.Prelude.Int.{int8, uint32-lt}
use simctty.Prelude.Bits.{bit_and-le, bit_or-lt, bit_xor-lt}
use simctty.Bus.{Bus}
use simctty.Bus.Valid
use simctty.Cpu.State.{Cpu, Machine, k_f}
use simctty.Cpu.Decode.{opcode, extend16}
use simctty.Cpu.Exec.{link, dispatch, run_instruction, signed_byte, set_flag, set_flag_immediate}
use simctty.Cpu.Alu.Width.{extend16-lt}
use simctty.Cpu.Valid.{IsValid}
use simctty.Cpu.Safety.{is_tame}
use simctty.Cpu.Safety.Steps.{
  Safe, link-IsValid, branch-Safe, jump_register-Safe, nop-Safe, movhi-Safe, system-Safe,
  return_from_exception-Safe, immediate-Safe, move_from_spr-Safe, move_to_spr-Safe, illegal-Safe,
  flag_or_illegal-Safe,
}
use simctty.Cpu.Safety.Instructions.{
  load32-Safe, load8-Safe, load16-Safe, store32-Safe, store8-Safe, store16-Safe, arithmetic-Safe,
  shift-Safe,
}

module _ (b : Bus) (w : Valid.IsValid b) (c : Cpu) (v : IsValid c) (i : ℕ)
    (tame : is_tame c i ≡ true) where
  dispatch-Safe : Safe b (dispatch (opcode i) b c i)
  unfolding dispatch is_tame set_flag set_flag_immediate
  dispatch-Safe =
      let op = opcode i in
      let linked = link-IsValid b w c i v in
      (λ (q : (op == 0x00) ≡ true). branch-Safe b w c i v true)
      or_else (λ (q : (op == 0x01) ≡ true). branch-Safe b w (link c) i linked true)
      or_else (λ (q : (op == 0x03) ≡ true). branch-Safe b w c i v (not (has c.sr k_f)))
      or_else (λ (q : (op == 0x04) ≡ true). branch-Safe b w c i v (has c.sr k_f))
      or_else (λ (q : (op == 0x05) ≡ true). nop-Safe b w c i v)
      or_else (λ (q : (op == 0x06) ≡ true). movhi-Safe b w c i v)
      or_else (λ (q : (op == 0x08) ≡ true). system-Safe b w c i v)
      or_else (λ (q : (op == 0x09) ≡ true). return_from_exception-Safe b w c i v)
      or_else (λ (q : (op == 0x11) ≡ true). jump_register-Safe b w c i v)
      or_else (λ (q : (op == 0x12) ≡ true). jump_register-Safe b w (link c) i linked)
      or_else (λ (q : (op == 0x21) ≡ true). load32-Safe b w c v i (ground arith))
      or_else (λ (q : (op == 0x23) ≡ true). load8-Safe b w c v i (λ x. x) (λ x h. omega arith))
      or_else (λ (q : (op == 0x24) ≡ true).
          load8-Safe b w c v i signed_byte (λ x h. uint32-lt (int8 x)))
      or_else (λ (q : (op == 0x25) ≡ true). load16-Safe b w c v i (λ x. x) (λ x h. omega arith))
      or_else (λ (q : (op == 0x26) ≡ true). load16-Safe b w c v i extend16 (λ x h. extend16-lt x))
      or_else (λ (q : (op == 0x27) ≡ true).
          immediate-Safe b w c i v (λ x k. add32 x (extend16 k)) (λ x k h l. omega arith))
      or_else (λ (q : (op == 0x29) ≡ true).
          immediate-Safe b w c i v (λ x k. bit_and x k)
            (λ x k h l. omega (arith, bit_and-le k x k)))
      or_else (λ (q : (op == 0x2a) ≡ true).
          immediate-Safe b w c i v (λ x k. bit_or x k)
            (λ x k h l. bit_or-lt 32 x k h (omega arith)))
      or_else (λ (q : (op == 0x2b) ≡ true).
          immediate-Safe b w c i v (λ x k. bit_xor x (extend16 k))
            (λ x k h l. bit_xor-lt 32 x _ h (extend16-lt k)))
      or_else (λ (q : (op == 0x2d) ≡ true). move_from_spr-Safe b w c i v (ground arith))
      or_else (λ (q : (op == 0x2e) ≡ true). shift-Safe b w c v i)
      or_else (λ (q : (op == 0x2f) ≡ true). flag_or_illegal-Safe b w c _ v)
      or_else (λ (q : (op == 0x30) ≡ true). move_to_spr-Safe b w c i v (ground arith))
      or_else (λ (q : (op == 0x35) ≡ true). store32-Safe b w c v i)
      or_else (λ (q : (op == 0x36) ≡ true). store8-Safe b w c v i)
      or_else (λ (q : (op == 0x37) ≡ true). store16-Safe b w c v i (λ near. ground arith))
      or_else (λ (q : (op == 0x38) ≡ true). arithmetic-Safe b w c v i (ground arith))
      or_else (λ (q : (op == 0x39) ≡ true). flag_or_illegal-Safe b w c _ v)
      or_else illegal-Safe b w c v

-- A machine in good order, and what a call keeps of it.
pub record IsSound (m : Machine) : Type 0 where
  pub cpu : IsValid m.cpu
  pub bus : Valid.IsValid m.bus

pub run_instruction-Safe :
    (m : Machine) (i : ℕ) → IsSound m → is_tame m.cpu i ≡ true → Safe m.bus (run_instruction m i)
unfolding run_instruction
run_instruction-Safe m i s tame = dispatch-Safe m.bus s.bus m.cpu s.cpu i tame
