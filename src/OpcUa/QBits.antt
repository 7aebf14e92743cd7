-- ===== src/OpcUa/QBits.antt =====
-- `q_bits` of crates/svdc-opcua/src/quality.rs.
use svdc.Base.{ℕ}

abbrev pub good : ℕ
good = 0b0000_0000

abbrev pub validity_invalid : ℕ
validity_invalid = 0b0000_0010

abbrev pub validity_questionable : ℕ
validity_questionable = 0b0000_0011

abbrev pub overflow : ℕ
overflow = 0b0000_0100

abbrev pub failure : ℕ
failure = 0b1000_0000

abbrev pub validity_mask : ℕ
validity_mask = 0b0000_0011
