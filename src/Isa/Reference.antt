-- ===== src/Isa/Reference.antt =====
-- What a program of register instructions and jumps does, described without words, fetches and
-- special registers: a reference for the runs of simctty/cpu.cc.
use simctty.Prelude.{
  ℕ, zero, suc, ◌*◌, ◌/◌, ◌%◌, ◌^◌, Bool, true, false, ◌&&◌, not, leb, ◌==◌, if◌then◌else◌, u32,
  add32, Option, none, some, List, length, get_elem?, Result, ok, fault, ◌>>=◌, update,
}
use simctty.Ram.{max_ram_address}
use simctty.Ram.Memory
use simctty.Ram.Memory.{Memory}
use simctty.Uart
use simctty.Uart.{Uart, min_uart_address, max_uart_address}
use simctty.Cpu.Decode.{extend16}
use simctty.Isa.Instruction.{
  LoadKind, load_word, load_byte, load_signed_byte, load_half, load_signed_half, StoreKind,
  store_word, store_byte, store_half, load_from, store_to, BranchKind, on_clear, on_set,
  Instruction, branch_by, no_operation, stop_here, high_half, jump_to, compute_immediate, shift_by,
  flag_immediate, flag_registers, compute,
}
use simctty.Isa.Meaning.{
  compares, shift_value, arithmetic_value, immediate_value, links, load_value, store_value,
}
use simctty.Isa.Program.{image_memory}

-- The instruction to run, the one after it, the general registers, the compare flag, the memory and
-- the serial port.
pub record View : Type 0 where
  pub pc : ℕ
  pub next_pc : ℕ
  pub reg : ℕ → ℕ
  pub flag : Bool
  pub memory : Memory
  pub port : Uart

-- Whether the instruction stops the run, and what it leaves.
pub record Progress : Type 0 where
  pub running : Bool
  pub view : View

abbrev pub goes_on : View → Result Progress
goes_on v = ok (record { running = true; view = v })

abbrev pub stops_at : View → Result Progress
stops_at v = ok (record { running = false; view = v })

abbrev pub move_to : View → ℕ → View
move_to v target = record v { pc = v.next_pc; next_pc = target }

abbrev pub advance : View → View
advance v = move_to v (add32 v.next_pc 4)

abbrev pub with_reg : View → ℕ → ℕ → View
with_reg v d x = record v { reg = update v.reg d x }

abbrev pub with_flag : View → Bool → View
with_flag v t = record v { flag = t }

-- A linked jump returns behind its delay slot.
abbrev pub linking_view : Bool → View → View
linking_view true v = with_reg v 9 (add32 v.pc 8)
linking_view false v = v

abbrev pub follows : BranchKind → View → Bool
follows on_clear v = not v.flag
follows on_set v = v.flag
follows _ v = true

-- The place after a jump, unless that is where the program goes anyway.
abbrev pub after_jump : View → Bool
after_jump v = not (v.next_pc == add32 v.pc 4)

abbrev pub load_width : LoadKind → ℕ
load_width load_word = 4
load_width load_byte = 1
load_width load_signed_byte = 1
load_width load_half = 2
load_width load_signed_half = 2

abbrev pub value_at : LoadKind → Memory → ℕ → ℕ
value_at load_word m address = Memory.load32 m address
value_at load_byte m address = m address
value_at load_signed_byte m address = m address
value_at load_half m address = Memory.load16 m address
value_at load_signed_half m address = Memory.load16 m address

abbrev pub store_width : StoreKind → ℕ
store_width store_word = 4
store_width store_byte = 1
store_width store_half = 2

abbrev pub stored_at : StoreKind → Memory → ℕ → ℕ → Memory
stored_at store_word m address v = Memory.store32 m address v
stored_at store_byte m address v = update m address v
stored_at store_half m address v = Memory.store16 m address v

abbrev pub address_of : View → ℕ → ℕ → ℕ
address_of v a i = add32 (v.reg a) (extend16 i)

-- An access of the given width in the memory, from the address `floor` on.
abbrev pub is_access : ℕ → ℕ → ℕ → Bool
is_access width floor address =
    address % width == 0 && leb floor address && leb address max_ram_address

abbrev pub is_port : ℕ → Bool
is_port address = leb min_uart_address address && leb address max_uart_address

-- A store of a byte to the serial port has the effect that the port gives it.
abbrev pub send : StoreKind → View → ℕ → ℕ → Result Progress
send store_byte v address value =
    if is_port address
    then (Uart.store8 v.port address value >>= λ s. goes_on (advance (record v { port = s.state })))
    else fault
send _ v address value = fault

-- The manual leaves a jump in a delay slot undefined, and the description leaves out loads from
-- devices, special registers, exceptions, and stores below `floor`, where the program stands:
-- these are `fault`.
unfoldable pub perform : ℕ → View → Instruction → Result Progress
perform floor v (branch_by kind n) =
    if after_jump v
    then fault
    else (let v' = linking_view (links kind) v in
        goes_on (if follows kind v then move_to v' (add32 v.pc (u32 (n * 4))) else advance v'))
perform floor v (jump_to with_link b) =
    if after_jump v
    then fault
    else (let v' = linking_view with_link v in goes_on (move_to v' (v'.reg b)))
perform floor v (no_operation k) = if k == 1 then stops_at v else goes_on (advance v)
perform floor v (stop_here k) = stops_at (advance v)
perform floor v (high_half d k) = goes_on (advance (with_reg v d (k * 2 ^ 16)))
perform floor v (compute_immediate kind d a k) =
    goes_on (advance (with_reg v d (immediate_value kind (v.reg a) k)))
perform floor v (shift_by kind d a l) =
    goes_on (advance (with_reg v d (shift_value kind (v.reg a) l)))
perform floor v (flag_immediate t a i) =
    goes_on (advance (with_flag v (compares t (v.reg a) (extend16 i))))
perform floor v (flag_registers t a b) =
    goes_on (advance (with_flag v (compares t (v.reg a) (v.reg b))))
perform floor v (compute kind d a b) =
    arithmetic_value kind (v.reg a) (v.reg b) >>= λ x. goes_on (advance (with_reg v d x))
perform floor v (load_from kind d a i) =
    if is_access (load_width kind) 0 (address_of v a i)
    then goes_on
        (advance (with_reg v d (load_value kind (value_at kind v.memory (address_of v a i)))))
    else fault
perform floor v (store_to kind a b i) =
    if is_access (store_width kind) floor (address_of v a i)
    then goes_on (
        advance (record v {
          memory = stored_at kind v.memory (address_of v a i) (store_value kind (v.reg b));
        }))
    else send kind v (address_of v a i) (store_value kind (v.reg b))
perform floor v _ = fault

-- The instruction at an address, in a program that starts at address 0.
abbrev pub instruction_at : List Instruction → ℕ → Option Instruction
instruction_at is pc = if pc % 4 == 0 then get_elem? is (pc / 4) else none

abbrev pub perform_found : ℕ → View → Option Instruction → Result Progress
perform_found floor v none = fault
perform_found floor v (some i) = perform floor v i

-- A number of instructions, or fewer where one stops.
unfoldable pub perform_run : ℕ → List Instruction → View → Result Progress
unfolding perform
perform_run zero is v = goes_on v
perform_run (suc n) is v = perform_found (4 * length is) v (instruction_at is v.pc) >>= λ p.
    (let rest = perform_run n is p.view in if p.running then rest else ok p)

-- The program in front of what the memory holds, and registers of 0.
abbrev pub start_view : Memory → Uart → List Instruction → ℕ → View
start_view m port is pc = record {
  pc = pc;
  next_pc = add32 pc 4;
  reg = λ r. 0;
  flag = false;
  memory = image_memory m is;
  port = port;
}
