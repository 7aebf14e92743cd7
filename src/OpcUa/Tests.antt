-- ===== src/OpcUa/Tests.antt =====
-- crates/svdc-opcua on single inputs.
use svdc.Base.{ℕ, ◌+◌, ◌/◌, ◌^◌, ◌≤◌, ◌<◌, ◌⊎◌, ◌≡◌, arith}
use svdc.OpcUa.Quality.{iec61850_to_opcua_status, apply_origin_override}
use svdc.OpcUa.Quality.Severity.{
  IsDominant, raised, severity, iec61850_to_opcua_status-IsDominant, apply_origin_override-severity,
}
use svdc.OpcUa.Timestamp.{utc_ns_to_opcua_ticks, utc_ns_to_opcua_ticks_lem}

iec61850_to_opcua_status-IsDominant_example :
    IsDominant (raised 0b1000_0110) (iec61850_to_opcua_status 0b1000_0110)
iec61850_to_opcua_status-IsDominant_example = iec61850_to_opcua_status-IsDominant 0b1000_0110

apply_origin_override-severity_example :
    (severity 0 ≤ severity (apply_origin_override 0 2))
    × ((apply_origin_override 0 2 ≡ 0)
        ⊎ ((severity 0 < 2)
            × ((severity (apply_origin_override 0 2) ≡ 1)
                × ((◌≡◌ {A = ℕ} 2 2) ⊎ (◌≡◌ {A = ℕ} 2 3)))))
apply_origin_override-severity_example = apply_origin_override-severity 0 2 (omega arith)

utc_ns_to_opcua_ticks_lem_example :
    (utc_ns_to_opcua_ticks 150 ≡ 150 / 100 + 116_444_736_000_000_000)
    × ((utc_ns_to_opcua_ticks 150 ≤ utc_ns_to_opcua_ticks 1_700_000_000_000_000_000)
        × (utc_ns_to_opcua_ticks 1_700_000_000_000_000_000 < 2 ^ 63))
utc_ns_to_opcua_ticks_lem_example =
    utc_ns_to_opcua_ticks_lem 150 1_700_000_000_000_000_000 (omega arith) (omega arith)
