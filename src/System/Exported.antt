-- ===== src/System/Exported.antt =====
-- simctty/emscripten.cc: the functions that are exported to a page, on its one system.
pub mod Page
pub mod Calls
mod Tests
use simctty.Prelude.{ℕ, Bool, List, u32, Result}
use simctty.Uart
use simctty.Cpu.State.{Machine}
use simctty.Cpu.Exec.{Ran}
use simctty.Cpu.Run
use simctty.System.{load_image, cycles_per_iteration}

-- `start_pc` is a size_t that the call converts to uint32.
pub sys_load_image : Machine → List ℕ → ℕ → ℕ → Result (ℕ × Machine)
sys_load_image sys image length start_pc = load_image sys image length (u32 start_pc)

pub sys_run : Machine → Result Ran
sys_run sys = Run.run sys cycles_per_iteration

pub sys_keypress : Machine → ℕ → Machine
sys_keypress sys key = record sys {
  bus = record (sys.bus) { uart = Uart.keypress sys.bus.uart key };
}

pub sys_can_read : Machine → Bool
sys_can_read sys = Uart.can_read sys.bus.uart

pub sys_read : Machine → ℕ × Machine
sys_read sys =
    let (key, u) = Uart.read sys.bus.uart in
    (key, record sys { bus = record (sys.bus) { uart = u } })
