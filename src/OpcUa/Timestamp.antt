-- ===== src/OpcUa/Timestamp.antt =====
-- crates/svdc-opcua/src/timestamp.rs: from Unix nanoseconds to OPC UA ticks.
use svdc.Base.{ℕ, ◌+◌, ◌-◌, ◌/◌, ◌^◌, ◌≤◌, ◌<◌, min, ◌≡◌, arith}

abbrev pub unix_to_opcua_epoch_ns : ℕ
unix_to_opcua_epoch_ns = 11_644_473_600_000_000_000

abbrev pub ns_per_opcua_tick : ℕ
ns_per_opcua_tick = 100

-- `saturating_add` on `u64`; the `as i64` of a number below 2 ^ 63 is that number
unfoldable pub utc_ns_to_opcua_ticks : ℕ → ℕ
utc_ns_to_opcua_ticks unix_ns =
    let total_ns = min (unix_ns + unix_to_opcua_epoch_ns) (2 ^ 64 - 1) in
    total_ns / ns_per_opcua_tick

-- For times up to 6802270473709551615 ns the conversion is exact (the whole ticks of the time, plus
-- the offset between the epochs), keeps the order of times and gives a positive `i64`.
pub utc_ns_to_opcua_ticks_lem :
    (m n : ℕ)
    → m ≤ n
    → n ≤ 6_802_270_473_709_551_615
    → (utc_ns_to_opcua_ticks m ≡ m / 100 + 116_444_736_000_000_000)
      × ((utc_ns_to_opcua_ticks m ≤ utc_ns_to_opcua_ticks n) × (utc_ns_to_opcua_ticks n < 2 ^ 63))
unfolding utc_ns_to_opcua_ticks
utc_ns_to_opcua_ticks_lem m n h small = (omega arith, (omega arith, omega arith))

-- From 6802270473709551615 ns on (in the year 2185) every time has the same ticks.
utc_ns_to_opcua_ticks-saturates :
    (n : ℕ) → 6_802_270_473_709_551_615 ≤ n → utc_ns_to_opcua_ticks n ≡ 184_467_440_737_095_516
unfolding utc_ns_to_opcua_ticks
utc_ns_to_opcua_ticks-saturates n h = omega arith
