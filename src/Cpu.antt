-- ===== src/Cpu.antt =====
-- simctty/cpu.h and simctty/cpu.cc: the processor.
pub mod State
pub mod Control
pub mod Decode
pub mod Alu
pub mod Exec
pub mod Valid
pub mod Safety
pub mod Stops
pub mod Timer
pub mod Run
pub mod Exceptions
pub mod Interrupts
pub mod Flaws
mod Tests
