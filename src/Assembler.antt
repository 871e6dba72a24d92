-- ===== src/Assembler.antt =====
-- simctty/assembler.h and simctty/assembler.cc: the assembler of the tests. It appends
-- instructions in big-endian order to a list of bytes.
pub mod Words
pub mod Emit
pub mod Encoding
pub mod Bytes
pub mod Address
mod Tests
