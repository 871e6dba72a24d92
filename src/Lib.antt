-- ===== src/Lib.antt =====
-- simctty, a simulator of an OpenRISC computer with a memory and a serial port on which Linux
-- runs in a terminal. The simulator is simctty/*.cc; this library models it and proves what it
-- does.
--
-- The parts, from the bottom up, with the file that models each and the source it follows:
--   Prelude     simctty/types.h: numbers with their wrap-around, flags and masks as arithmetic,
--               signed integers, and the outcome of a call (`Result`).
--   Exception   simctty/exception.h.     BusDevice  simctty/bus_device.h.
--   Ram         simctty/ram.cc. Ram.Memory is what it promises: big-endian bytes. Ram.Guest has the
--               loads and stores, Ram.Image the loading of images, Ram.Dump the dump.
--   Uart        simctty/uart.cc. Uart.Fifo has the queues, Uart.Interrupt the interrupt line,
--               and Uart.Guest what the guest alone does over time.
--   Bus         simctty/bus.cc, the owner of the memory and the serial port. Bus.Valid has its
--               invariant.
--   Mmu         simctty/mmu.cc. Mmu.Access has the loads and stores. Mmu.Translate has the
--               translation, Mmu.Cache the cached page, Mmu.Values, Mmu.Fast, Mmu.Safety and
--               Mmu.Accesses what loads and stores do, Mmu.Physical the same where translation is
--               off, Mmu.Bounds the widths of their values, and Mmu.Flaws where they break the
--               rules.
--   Cpu         simctty/cpu.cc. Cpu.State has the registers, Cpu.Control exceptions, jumps and
--               interrupts, Cpu.Decode the fields of an instruction, Cpu.Alu the values,
--               Cpu.Exec `RunInstruction`, and Cpu.Run the fetch and the loop of `Run`.
--               Cpu.Valid has the invariant, Cpu.Safety when instructions and runs keep it,
--               Cpu.Stops when a run ends, Cpu.Timer the timer over many rounds
--               of the loop.
--   Assembler   simctty/assembler.cc. Assembler.Words has the formats and Assembler.Emit a function
--               for each method.
--   System      simctty/system.cc, and the loop of simctty/main.cc. System.Sound has the invariant
--               of a new system, System.GuestRun what a run takes from the serial port and sends,
--               System.MainLoop the loop over several iterations, System.Main
--               the programs of simctty/main.cc and simctty/main_web.cc, and System.Exported
--               the functions of simctty/emscripten.cc, which a page calls in any order
--               (System.Exported.Page, System.Exported.Calls).
--   Isa         the instruction set, described once: as data (Isa.Instruction) and by its effect
--               (Isa.Meaning). Isa.Runs compares `RunInstruction` with it, Isa.Bytes, Isa.Program and
--               Isa.Boot the assembler, the loading of a program, and its first step. Isa.Reference
--               says what a program does without words and fetches; Isa.Performs, Isa.Accesses
--               and Isa.Simulation compare each instruction with it, Isa.Execution the loop of
--               `Run`, and Isa.Whole a program from its assembly to the end of a run.
--   Samples     concrete states for the tests, which stand in the modules Tests of each part.
--
-- How state and operations correspond. A class is a record of its fields, and a method a function
-- from the record to the results and the new record; `mutable` fields that a const method changes
-- are part of the new record. A function is named as in the source, in lower case. `bus_` and `raw_`
-- are pointers to one bus: `Machine` holds the bus beside the processor, and the loads and stores of
-- the MMU take and return it. `raw_` is read by `Ram.read32`. A virtual call goes through the record
-- `BusDevice`, and `Bus.member` makes the functions of a member act on the bus that holds it.
--
-- Errors. An exception of the simulated processor is a value, as in the source. `exited` stands for
-- a call of `exit` or `abort`, and `fault` for undefined behaviour: a host access outside the array
-- of the memory, an index outside the general registers, the division of -2 ^ 31 by -1.
--
-- Assumptions on the host, which types.h fixes or which hold on the machines the build files name: it
-- is little-endian, `char` is signed, conversions to signed types wrap, `>>` of a negative number
-- rounds down, the product of two int32 wraps.
--
-- Loops. `copy_words` has as many rounds as the image has bytes, `load_blocks` as the file, `drain`
-- as the queue and `pad` as the address; each round of theirs takes at least one, so the rounds are
-- enough. The loops of l.ff1 and l.fl1 have 32 rounds, and `run_loop` the number of cycles it is given.
--
-- Tame runs. Some instructions can reach undefined behaviour of the host or end the process. The
-- function `is_tame` says of an instruction that it is none of these, and `is_tame_run` follows a run
-- and says it of each of its rounds; both can be evaluated.
--
-- The reference. `perform` and `perform_run` of Isa.Reference are evaluated on a record of two
-- program counters, the registers, the flag, the memory and the serial port, which takes bytes as
-- Uart.store8 has it. Where they say nothing they are `fault`: a jump in a delay slot, any other
-- access outside the memory or across its width, a store over the program, a division that overflows,
-- special registers, and exceptions.
--
-- Not modelled: `Print`, the getters of the counters, messages on stderr, destructors; `keychar` and
-- the system calls of simctty/main.cc, whose keys and change of the terminal are parameters; the
-- branch of simctty/bitwise.h for a big-endian host; the unit tests and the copy of Google Test.
pub mod Prelude
pub mod Exception
pub mod BusDevice
pub mod Ram
pub mod Uart
pub mod Bus
pub mod Mmu
pub mod Cpu
pub mod Assembler
pub mod System
pub mod Isa
pub mod Samples
