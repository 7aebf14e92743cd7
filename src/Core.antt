-- ===== src/Core.antt =====
-- crates/svdc-core: the CRC-32 accumulator and the tick record that it protects.
pub mod Crc
pub mod Tick
mod Tests
