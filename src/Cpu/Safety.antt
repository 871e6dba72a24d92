-- ===== src/Cpu/Safety.antt =====
-- When an instruction of simctty/cpu.cc cannot reach undefined behaviour or end the process, and
-- what it keeps.
pub mod Steps
pub mod Instructions
pub mod Dispatch
pub mod Fetches
pub mod Runs
mod Tests
use simctty.Prelude.{
  ℕ, zero, suc, Result, ok, exited, fault, false, ◌+◌, ◌%◌, ◌^◌, ◌<◌, ◌≡◌, bit_or, Bool, true, ◌&&◌,
  ◌||◌, not, leb, ◌==◌, if◌then◌else◌, has, u16, add32,
}
use simctty.Ram.{max_ram_address}
use simctty.Bus
use simctty.Bus.Valid
use simctty.Mmu.{map_address}
use simctty.Cpu.State.{Cpu, Machine, k_sm}
use simctty.Cpu.Run.{Fetch, fetched, refused, fetch, Cycle, again, cycle, tick, tick_interrupts}
use simctty.Cpu.Decode.{
  opcode, decode_a, decode_b, decode_k, decode_i, decode_split_i, decode_split_k, decode_ff,
  extend16,
}
use simctty.Cpu.Alu.Width.{is_division, overflows}
use simctty.Cpu.Valid.Special.{is_sp_reg}

-- The addresses of loads and of stores, and the special register of a move.
abbrev pub load_address : Cpu → ℕ → ℕ
load_address c w = add32 (c.reg (decode_a w)) (extend16 (decode_i w))

abbrev pub store_address : Cpu → ℕ → ℕ
store_address c w = add32 (c.reg (decode_a w)) (extend16 (decode_split_i w))

-- What the model of the simulator asks of the instruction `w`: l.lwz loads from a multiple of 4;
-- l.sh to an address that lies in the memory before translation lies there after it; l.div does not
-- overflow; l.mfspr and l.mtspr name a register that exists.
unfoldable pub is_tame : Cpu → ℕ → Bool
is_tame c w =
    if opcode w == 0x21
    then load_address c w % 4 == 0
    else if opcode w == 0x37
    then not (leb (store_address c w) max_ram_address)
      || (map_address c.dmmu (store_address c w) (has c.sr k_sm) true).is_ram
    else if opcode w == 0x38
    then not (is_division (decode_ff w) && overflows (c.reg (decode_a w)) (c.reg (decode_b w)))
    else if opcode w == 0x2d
    then is_sp_reg (u16 (bit_or (c.reg (decode_a w)) (decode_k w)))
    else if opcode w == 0x30
    then is_sp_reg (u16 (bit_or (c.reg (decode_a w)) (decode_split_k w)))
    else true

-- The fetched instruction is tame; a refused fetch runs none.
abbrev pub tame_fetch : Result Fetch → Bool
tame_fetch (ok (fetched instruction m)) = is_tame m.cpu instruction
tame_fetch _ = true

-- A round is interrupted by the timer, or fetches a tame instruction from a multiple of 4.
unfoldable pub is_tame_round : Machine → Bool
unfolding is_tame
is_tame_round m =
    tick_interrupts m.cpu || ((tick m.cpu).pc % 4 == 0 && tame_fetch (fetch m.bus (tick m.cpu)))

-- The rounds that follow, if any.
unfoldable pub tame_next : (Machine → Bool) → Result Cycle → Bool
tame_next rest (ok (again m)) = rest m
tame_next rest _ = true

-- As many rounds as are given, or fewer where the loop returns, are tame.
unfoldable pub is_tame_run : ℕ → Machine → Bool
unfolding is_tame_round tame_next
is_tame_run zero m = true
is_tame_run (suc cycles) m =
    let rest = tame_next (is_tame_run cycles) (cycle m) in if is_tame_round m then rest else false

-- The rounds of `Run`, after it looked at the interrupts, are tame.
unfoldable pub is_tame_from : ℕ → Result Machine → Bool
unfolding is_tame_run
is_tame_from cycles (ok m) = is_tame_run cycles m
is_tame_from cycles exited = false
is_tame_from cycles fault = false
