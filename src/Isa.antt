-- ===== src/Isa.antt =====
-- The instruction set that simctty/assembler.cc assembles and simctty/cpu.cc runs, described once,
-- independently of both.
pub mod Instruction
pub mod Meaning
pub mod Bytes
pub mod Runs
pub mod Program
pub mod Step
pub mod Width
pub mod Boot
pub mod Delay
pub mod Reference
pub mod Values
pub mod Performs
pub mod Accesses
pub mod Simulation
pub mod Plain
pub mod Execution
pub mod Whole
pub mod Shows
mod Tests
