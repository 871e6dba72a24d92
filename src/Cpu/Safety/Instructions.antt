-- ===== src/Cpu/Safety/Instructions.antt =====
-- `RunInstruction` of simctty/cpu.cc on a processor and a bus in good order.
use simctty.Prelude.{
  ℕ, ◌%◌, ◌^◌, ◌≤◌, ◌<◌, ◌≡◌, arith, bit_and, Bool, true, false, ◌&&◌, has, Result, Returns,
  Returns-bind,
}
use simctty.Prelude.Bits.{bit_and-le}
use simctty.Ram.{max_ram_address}
use simctty.Bus.{Bus}
use simctty.Bus.Valid
use simctty.Mmu.{Mmu, map_address}
use simctty.Mmu.Access
use simctty.Mmu.Access.{Load, Store}
use simctty.Mmu.Bounds.{accesses-Well}
use simctty.Cpu.State.{Cpu, k_sm}
use simctty.Cpu.Decode.{decode_a, decode_b, decode_ff, decode_f}
use simctty.Cpu.Alu.Width.{
  is_division, overflows, OptionalWord, alu-Returns, shift_immediate-OptionalWord,
}
use simctty.Cpu.Exec.{arithmetic, shift, load, store}
use simctty.Cpu.Valid.{IsValid}
use simctty.Cpu.Safety.{load_address, store_address}
use simctty.Cpu.Safety.Steps.{
  Kept, Safe, LoadsValid, StoresValid, finish_load-Safe, finish_store-Safe, put_or_illegal-Safe,
}

module _ (b : Bus) (w : Valid.IsValid b) (c : Cpu) (v : IsValid c) (instruction : ℕ) where
  load-Safe :
      (access : Mmu → Bus → ℕ → Bool → Result Load) (convert : ℕ → ℕ) (k : ℕ)
      → ((x : ℕ) → x < 2 ^ k → convert x < 2 ^ 32)
      → Returns (LoadsValid k c b) (access c.dmmu b (load_address c instruction) (has c.sr k_sm))
      → Safe b (load access convert b c instruction)
  unfolding load
  load-Safe access convert k fits r =
      Returns-bind (LoadsValid k c b) (Kept b) _ _ r
        (λ l q. finish_load-Safe b c v _ (omega arith) k _ convert l fits q)

  store-Safe :
      (access : Mmu → Bus → ℕ → ℕ → Bool → Result Store) (convert : ℕ → ℕ)
      → Returns (StoresValid c b) (
          access c.dmmu b
            (store_address c instruction)
            (convert (c.reg (decode_b instruction)))
            (has c.sr k_sm))
      → Safe b (store access convert b c instruction)
  unfolding store
  store-Safe access convert r =
      Returns-bind (StoresValid c b) (Kept b) _ _ r
        (λ s q. finish_store-Safe b c v _ (omega arith) s q)

  -- Loads and stores by their opcodes.
  pub load32-Safe :
      load_address c instruction % 4 ≡ 0 → Safe b (load Access.load32 (λ x. x) b c instruction)
  load32-Safe e =
      let a = load_address c instruction in
      load-Safe Access.load32 (λ x. x) 32 (λ x h. h)
        ((accesses-Well c.dmmu b a 0 (has c.sr k_sm) (omega arith) v.dmmu w).2 e)

  pub load8-Safe :
      (convert : ℕ → ℕ)
      → ((x : ℕ) → x < 2 ^ 8 → convert x < 2 ^ 32)
      → Safe b (load Access.load8 convert b c instruction)
  load8-Safe convert fits =
      let a = load_address c instruction in
      load-Safe Access.load8 convert 8 fits
        (accesses-Well c.dmmu b a 0 (has c.sr k_sm) (omega arith) v.dmmu w).0

  pub load16-Safe :
      (convert : ℕ → ℕ)
      → ((x : ℕ) → x < 2 ^ 16 → convert x < 2 ^ 32)
      → Safe b (load Access.load16 convert b c instruction)
  load16-Safe convert fits =
      let a = load_address c instruction in
      load-Safe Access.load16 convert 16 fits
        (accesses-Well c.dmmu b a 0 (has c.sr k_sm) (omega arith) v.dmmu w).1

  pub store32-Safe : Safe b (store Access.store32 (λ x. x) b c instruction)
  store32-Safe =
      let a = store_address c instruction in
      let value = c.reg (decode_b instruction) in
      store-Safe Access.store32 (λ x. x)
        (accesses-Well c.dmmu b a value (has c.sr k_sm) (omega arith) v.dmmu w).5

  pub store8-Safe : Safe b (store Access.store8 (λ x. bit_and x 0xff) b c instruction)
  store8-Safe =
      let a = store_address c instruction in
      let value = c.reg (decode_b instruction) in
      store-Safe Access.store8 (λ x. bit_and x 0xff)
        ((accesses-Well c.dmmu b a (bit_and value 0xff) (has c.sr k_sm) (omega arith) v.dmmu w).3
          (omega (arith, bit_and-le 0xff value 0xff)))

  pub store16-Safe :
      (store_address c instruction ≤ max_ram_address
        → (map_address c.dmmu (store_address c instruction) (has c.sr k_sm) true).is_ram ≡ true)
      → Safe b (store Access.store16 (λ x. bit_and x 0xffff) b c instruction)
  store16-Safe in_ram =
      let a = store_address c instruction in
      let value = c.reg (decode_b instruction) in
      store-Safe Access.store16 (λ x. bit_and x 0xffff)
        ((accesses-Well c.dmmu b a (bit_and value 0xffff) (has c.sr k_sm) (omega arith) v.dmmu w).4
          in_ram)

  pub arithmetic-Safe :
      (is_division (decode_ff instruction)
          && overflows (c.reg (decode_a instruction)) (c.reg (decode_b instruction)))
        ≡ false
      → Safe b (arithmetic b c instruction)
  unfolding arithmetic
  arithmetic-Safe e =
      Returns-bind OptionalWord (Kept b) _ _
        (alu-Returns (decode_ff instruction) _ _ (v.regs (decode_a instruction))
          (v.regs (decode_b instruction)) e)
        (λ value h. put_or_illegal-Safe b w c _ value v h)

  pub shift-Safe : Safe b (shift b c instruction)
  unfolding shift
  shift-Safe =
      put_or_illegal-Safe b w c _ _ v
        (shift_immediate-OptionalWord (decode_f instruction) _ _ (v.regs (decode_a instruction)))
