-- ===== src/OpcUa/StatusCodes.antt =====
-- `status_codes` of crates/svdc-opcua/src/quality.rs.
use svdc.Base.{ℕ}

abbrev pub good : ℕ
good = 0x0000_0000

abbrev pub uncertain_last_usable_value : ℕ
uncertain_last_usable_value = 0x4090_0000

abbrev pub uncertain_interpolated_value : ℕ
uncertain_interpolated_value = 0x408F_0000

abbrev pub bad_no_data : ℕ
bad_no_data = 0x80AB_0000

abbrev pub bad_out_of_range : ℕ
bad_out_of_range = 0x803B_0000

abbrev pub bad_no_communication : ℕ
bad_no_communication = 0x80B1_0000
