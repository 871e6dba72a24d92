-- ===== src/Cpu/Exec.antt =====
-- `RunInstruction`: one function for each group of cases of its switch, and the switch itself.
-- The Boolean is the value that `RunInstruction` returns.
use simctty.Prelude.{
  ℕ, ◌<<<◌, ◌>>>◌, bit_or, bit_and, bit_xor, Bool, true, false, Option, none, some, ◌&&◌, not, ◌==◌,
  if◌then◌else◌, has, u16, u32, add32, Result, ok, ◌>>=◌, update,
}
use simctty.Prelude.Int.{int8, uint32}
use simctty.Exception.{Exception, raised, tick_timer_interrupt, illegal_instruction, system_call}
use simctty.Bus.{Bus}
use simctty.Mmu.{Mmu}
use simctty.Mmu.Access
use simctty.Mmu.Access.{Load, Store}
use simctty.Cpu.State.{Cpu, Machine, sp_reg, set_sp_reg, set_sup_reg, k_sm, k_tee, k_f}
use simctty.Cpu.Control.{throw_exception, increment_pc, jump, set_compare_flag}
use simctty.Cpu.Decode.{
  opcode, decode_d, decode_a, decode_b, decode_k, decode_i, decode_split_i, decode_split_k,
  decode_opcode11, decode_n, decode_l, decode_f, decode_ff, extend16,
}
use simctty.Cpu.Alu.{alu, shift_immediate, compare_immediate, compare_registers}

-- What `RunInstruction` returns, and the objects that it leaves.
pub record Ran : Type 0 where
  pub running : Bool
  pub machine : Machine

abbrev pub ran : Bus → Cpu → Result Ran
ran b c = ok (record { running = true; machine = record { cpu = c; bus = b } })

abbrev pub stop : Bus → Cpu → Result Ran
stop b c = ok (record { running = false; machine = record { cpu = c; bus = b } })

abbrev pub throw : Bus → Cpu → Exception → ℕ → Result Ran
throw b c exception effective_address = throw_exception c exception effective_address >>= ran b

abbrev pub illegal : Bus → Cpu → Result Ran
illegal b c = throw b c illegal_instruction c.pc

abbrev pub write_reg : Cpu → ℕ → ℕ → Cpu
write_reg c d v = record c { reg = update c.reg d v }

-- `reg_[d] = v; IncrementPC();`
abbrev pub put : Bus → Cpu → ℕ → ℕ → Result Ran
put b c d v = ran b (increment_pc (write_reg c d v))

-- `Jump(pc_ + n)` if `taken`, else on to the next instruction: l.j, l.bnf and l.bf.
unfoldable pub branch : Bus → Cpu → ℕ → Bool → Result Ran
branch b c instruction taken =
    ran b (if taken then jump c (add32 c.pc (decode_n instruction)) else increment_pc c)

-- `reg_[9] = pc_ + 8`, of l.jal and l.jalr.
abbrev pub link : Cpu → Cpu
link c = write_reg c 9 (add32 c.pc 8)

-- l.jr reads its register after nothing, and l.jalr after the link was written.
unfoldable pub jump_register : Bus → Cpu → ℕ → Result Ran
jump_register b c instruction = ran b (jump c (c.reg (decode_b instruction)))

unfoldable pub nop : Bus → Cpu → ℕ → Result Ran
nop b c instruction =
    if has c.sr k_sm && decode_k instruction == 1 then stop b c else ran b (increment_pc c)

unfoldable pub movhi : Bus → Cpu → ℕ → Result Ran
movhi b c instruction = put b c (decode_d instruction) (u32 (decode_k instruction <<< 16))

-- Opcode 0x08: l.sys and l.trap.
unfoldable pub system : Bus → Cpu → ℕ → Result Ran
system b c instruction =
    if bit_and (instruction >>> 16) 0xffff == 0x2000
    then throw b (record c { pc = add32 c.pc 4 }) system_call 0
    else if bit_and (instruction >>> 16) 0xffff == 0x2100
    then stop b (increment_pc c)
    else illegal b c

unfoldable pub return_from_exception : Bus → Cpu → Result Ran
return_from_exception b c = do
  s ← set_sup_reg (record c { pc = c.epcr0 }) c.esr0
  ran b (record s { in_delay_slot = false })

-- The end of a load: `value` is stored in the register, unless an exception was set.
unfoldable pub finish_load : Cpu → ℕ → ℕ → (ℕ → ℕ) → Load → Result Ran
finish_load c d ea convert l =
    let c' = record c { dmmu = l.mmu } in
    if raised l.exception then throw l.bus c' l.exception ea else put l.bus c' d (convert l.value)

-- l.lwz, l.lbz, l.lbs, l.lhz and l.lhs: the MMU's function and the conversion of its result.
unfoldable pub load : (Mmu → Bus → ℕ → Bool → Result Load) → (ℕ → ℕ) → Bus → Cpu → ℕ → Result Ran
unfolding finish_load
load access convert b c instruction =
    let ea = add32 (c.reg (decode_a instruction)) (extend16 (decode_i instruction)) in
    access c.dmmu b ea (has c.sr k_sm) >>= finish_load c (decode_d instruction) ea convert

unfoldable pub finish_store : Cpu → ℕ → Store → Result Ran
finish_store c ea s =
    let c' = record c { dmmu = s.mmu } in
    if raised s.exception then throw s.bus c' s.exception ea else ran s.bus (increment_pc c')

-- l.sw, l.sb and l.sh; `convert` cuts the register to the width.
unfoldable pub store :
    (Mmu → Bus → ℕ → ℕ → Bool → Result Store) → (ℕ → ℕ) → Bus → Cpu → ℕ → Result Ran
unfolding finish_store
store access convert b c instruction =
    let ea = add32 (c.reg (decode_a instruction)) (extend16 (decode_split_i instruction)) in
    access c.dmmu b ea (convert (c.reg (decode_b instruction))) (has c.sr k_sm)
    >>= finish_store c ea

abbrev pub signed_byte : ℕ → ℕ
signed_byte v = uint32 (int8 v)

abbrev unchanged : ℕ → ℕ
unchanged v = v

-- l.addi, l.andi, l.ori and l.xori.
unfoldable pub immediate : (ℕ → ℕ → ℕ) → Bus → Cpu → ℕ → Result Ran
immediate f b c instruction =
    put b c (decode_d instruction) (f (c.reg (decode_a instruction)) (decode_k instruction))

unfoldable pub move_from_spr : Bus → Cpu → ℕ → Result Ran
move_from_spr b c instruction = do
  v ← sp_reg c (u16 (bit_or (c.reg (decode_a instruction)) (decode_k instruction)))
  put b c (decode_d instruction) v

-- A tick timer interrupt may have become possible.
unfoldable pub after_spr : Bus → Cpu → Result Ran
after_spr b c =
    if has c.ttmr 0x10000000 && has c.sr k_tee
    then throw b c tick_timer_interrupt 0
    else ran b (increment_pc c)

unfoldable pub move_to_spr : Bus → Cpu → ℕ → Result Ran
unfolding after_spr
move_to_spr b c instruction = do
  c' ←
      set_sp_reg c (u16 (bit_or (c.reg (decode_a instruction)) (decode_split_k instruction)))
        (c.reg (decode_b instruction))
  after_spr b c'

unfoldable pub put_or_illegal : Bus → Cpu → ℕ → Option ℕ → Result Ran
put_or_illegal b c d none = illegal b c
put_or_illegal b c d (some v) = put b c d v

unfoldable pub flag_or_illegal : Bus → Cpu → Option Bool → Result Ran
flag_or_illegal b c none = illegal b c
flag_or_illegal b c (some flag) = ran b (increment_pc (set_compare_flag c flag))

-- Opcode 0x38.
unfoldable pub arithmetic : Bus → Cpu → ℕ → Result Ran
unfolding put_or_illegal
arithmetic b c instruction =
    alu (decode_ff instruction) (c.reg (decode_a instruction)) (c.reg (decode_b instruction))
    >>= put_or_illegal b c (decode_d instruction)

-- Opcode 0x2e.
unfoldable pub shift : Bus → Cpu → ℕ → Result Ran
unfolding put_or_illegal
shift b c instruction =
    put_or_illegal b c (decode_d instruction)
      (shift_immediate (decode_f instruction) (c.reg (decode_a instruction)) (decode_l instruction))

-- Opcodes 0x2f and 0x39.
unfoldable pub set_flag_immediate : Bus → Cpu → ℕ → Result Ran
unfolding flag_or_illegal
set_flag_immediate b c instruction = flag_or_illegal b c (
    compare_immediate (decode_opcode11 instruction) (c.reg (decode_a instruction))
      (decode_i instruction))

unfoldable pub set_flag : Bus → Cpu → ℕ → Result Ran
unfolding flag_or_illegal
set_flag b c instruction = flag_or_illegal b c (
    compare_registers (decode_opcode11 instruction) (c.reg (decode_a instruction))
      (c.reg (decode_b instruction)))

-- The switch on the opcode.
unfoldable pub dispatch : ℕ → Bus → Cpu → ℕ → Result Ran
dispatch op b c instruction =
    if op == 0x00
    then branch b c instruction true
    else if op == 0x01
    then branch b (link c) instruction true
    else if op == 0x03
    then branch b c instruction (not (has c.sr k_f))
    else if op == 0x04
    then branch b c instruction (has c.sr k_f)
    else if op == 0x05
    then nop b c instruction
    else if op == 0x06
    then movhi b c instruction
    else if op == 0x08
    then system b c instruction
    else if op == 0x09
    then return_from_exception b c
    else if op == 0x11
    then jump_register b c instruction
    else if op == 0x12
    then jump_register b (link c) instruction
    else if op == 0x21
    then load Access.load32 unchanged b c instruction
    else if op == 0x23
    then load Access.load8 unchanged b c instruction
    else if op == 0x24
    then load Access.load8 signed_byte b c instruction
    else if op == 0x25
    then load Access.load16 unchanged b c instruction
    else if op == 0x26
    then load Access.load16 extend16 b c instruction
    else if op == 0x27
    then immediate (λ x k. add32 x (extend16 k)) b c instruction
    else if op == 0x29
    then immediate (λ x k. bit_and x k) b c instruction
    else if op == 0x2a
    then immediate (λ x k. bit_or x k) b c instruction
    else if op == 0x2b
    then immediate (λ x k. bit_xor x (extend16 k)) b c instruction
    else if op == 0x2d
    then move_from_spr b c instruction
    else if op == 0x2e
    then shift b c instruction
    else if op == 0x2f
    then set_flag_immediate b c instruction
    else if op == 0x30
    then move_to_spr b c instruction
    else if op == 0x35
    then store Access.store32 unchanged b c instruction
    else if op == 0x36
    then store Access.store8 (λ v. bit_and v 0xff) b c instruction
    else if op == 0x37
    then store Access.store16 (λ v. bit_and v 0xffff) b c instruction
    else if op == 0x38
    then arithmetic b c instruction
    else if op == 0x39
    then set_flag b c instruction
    else illegal b c

unfoldable pub run_instruction : Machine → ℕ → Result Ran
unfolding dispatch
run_instruction m instruction = dispatch (opcode instruction) m.bus m.cpu instruction
