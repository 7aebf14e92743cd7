-- ===== src/OpcUa/Quality.antt =====
-- crates/svdc-opcua/src/quality.rs: from an IEC 61850 quality byte and a sample's origin to an OPC UA
-- status code.
pub mod Severity
use svdc.Base.{ℕ, bit_and, ◌==◌, if◌then◌else◌, Bool, true, false}
use svdc.OpcUa.QBits
use svdc.OpcUa.StatusCodes

unfoldable pub iec61850_to_opcua_status : ℕ → ℕ
iec61850_to_opcua_status q =
    if bit_and q QBits.failure == 0
    then (let validity = bit_and q QBits.validity_mask in
        if validity == QBits.validity_invalid
        then StatusCodes.bad_no_data
        else if bit_and q QBits.overflow == 0
        then (if validity == QBits.validity_questionable
            then StatusCodes.uncertain_last_usable_value
            else StatusCodes.good)
        else StatusCodes.bad_out_of_range)
    else StatusCodes.bad_no_communication

unfoldable pub apply_origin_override : ℕ → ℕ → ℕ
apply_origin_override base origin =
    if bit_and base 0x8000_0000 == 0
    then (if origin == 2
        then StatusCodes.uncertain_interpolated_value
        else if origin == 3
        then StatusCodes.uncertain_last_usable_value
        else base)
    else base
