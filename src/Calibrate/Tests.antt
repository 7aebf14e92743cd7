-- ===== src/Calibrate/Tests.antt =====
-- A calibration request on a concrete console.
use svdc.Base.{arith, some, [], ◌∷◌, true}
use svdc.Audit.{with_capacity}
use svdc.Base.Texts.{codes}
use svdc.Scd.{MergingUnit, voltage}
use svdc.Operational.{Calibration, new, one}
use svdc.Operational.Persist.{PersistedDocument}
use svdc.Calibrate.{Console, api_set}
use svdc.Calibrate.Trail.{Answered, api_set-Answered}

abbrev unit_a : MergingUnit
unit_a = record {
  id = "MU-A";
  mac = 1 ∷ 0xC ∷ 0xCD ∷ 4 ∷ 0 ∷ 1 ∷ [];
  appid = 0x4000;
  sv_id = "SVDC_DEMO_01";
  smp_rate = 4800;
  channels = (record { name = codes "VPhMMXU1.PhV.phsA.MX"; unit = voltage }) ∷ [];
}

abbrev console : Console PersistedDocument
console = record {
  registry = record { inner = unit_a ∷ [] };
  operational = new;
  disk = record { files = []; readable = true; writable = true; renamable = true };
  audit = with_capacity 4;
}

abbrev doubled : Calibration
doubled = record { gain = 0x4000_0000; offset = 0; unit_scale = one }

api_set-Answered_example :
    Answered 1000 "MU-A" 0 doubled console
      (record { mu_id = "MU-A"; channel_idx = 0 })
      (api_set (λ d. some d) (λ d. some d) (λ path. "tmp") 1000 "MU-A" 0 doubled console)
api_set-Answered_example =
    api_set-Answered (λ d. some d) (λ d. some d) (λ path. "tmp") 1000 "MU-A" 0 doubled console
      (record { mu_id = "MU-A"; channel_idx = 0 }) (omega arith)
