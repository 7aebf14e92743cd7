-- ===== src/Wire.antt =====
-- crates/ssiec-sv-publisher/src/lib.rs: the IEC 61850-9-2 LE codec.
pub mod Frame
pub mod Encode
pub mod Utf8
pub mod Decode
pub mod RoundTrip
mod Tests
