-- ===== src/Core/Tests.antt =====
-- The CRC and the tick record of crates/svdc-core on small inputs.
use svdc.Base.{ℕ, [], ◌∷◌, ◌≡◌, ◌≢◌, refl, arith, err}
use svdc.Core.Crc.{crc32_ieee}
use svdc.Core.Crc.Detect.{crc32_ieee-differs}
use svdc.Core.Tick
use svdc.Core.Tick.{TickRecord, Sample, compute_crc, stamp_crc, verify_crc}
use svdc.Core.Tick.Integrity.{verify_crc-tampered}

-- the check value of CRC-32 on `123456789`
crc32_ieee_check :
    crc32_ieee (0x31 ∷ 0x32 ∷ 0x33 ∷ 0x34 ∷ 0x35 ∷ 0x36 ∷ 0x37 ∷ 0x38 ∷ 0x39 ∷ []) ≡ 0xCBF4_3926
unfolding crc32_ieee
crc32_ieee_check = refl

crc32_ieee-differs_example : crc32_ieee (1 ∷ 7 ∷ 2 ∷ []) ≢ crc32_ieee (1 ∷ 6 ∷ 2 ∷ [])
crc32_ieee-differs_example =
    crc32_ieee-differs (1 ∷ []) (2 ∷ []) 7 6 (omega arith) (omega arith) (omega arith)

-- a record with one sample of a given value
abbrev tick : ℕ → TickRecord
tick value = record (Tick.empty 3 1000) {
  n_channels = 1;
  samples = record { value_q = value; quality = 0; origin = 1; reserved = 0 } ∷ [];
}

abbrev stored : TickRecord
stored = stamp_crc (tick 5)

abbrev altered : TickRecord
altered = record (tick 6) { crc = stored.crc }

verify_crc-tampered_example :
    verify_crc altered
    ≡ err (record { tick_id = 3; stored = stored.crc; computed = compute_crc altered })
unfolding Tick.live_samples
verify_crc-tampered_example =
    verify_crc-tampered (tick 5) altered [] (0 ∷ 0 ∷ 0 ∷ 0 ∷ 1 ∷ 0 ∷ 0 ∷ []) 5 6 (omega arith)
      (omega arith) (omega arith) refl refl refl
