-- ===== src/Calibrate.antt =====
-- The routes of crates/svdc-console/src/routes/calibration.rs over the state that they share: the
-- registry of merging units, the operational state with its file, and the audit log. The clock is an
-- argument; the message of a response, which is formatted text, is left out.
pub mod Trail
mod Tests
use Prim.Native.String.{String}
use text.Mathlib.Text.{◌==◌ as str_eq}
use svdc.Base.{
  ℕ, ltb, if◌then◌else◌, Bool, true, false, ◌&&◌, Option, none, some, List, [], ◌∷◌, length,
}
use svdc.Base.Assoc.{insert, string_eq, Eq}
use svdc.Audit.{AuditLog, record_event}
use svdc.Audit.Event.{AuditEvent, calibration_set, calibration_reset}
use svdc.Scd.{MergingUnit, ChannelRegistry, snapshot}
use svdc.Operational.{Calibration, ChannelKey, OperationalState, default_calibration}
use svdc.Operational.Persist.{PersistedDocument, Disk, set_calibration, reset_calibration}
use svdc.Operational.Finite.{is_finite}

pub record Console (Text : Type 0) : Type 0 where
  pub registry : ChannelRegistry
  pub operational : OperationalState
  pub disk : Disk Text
  pub audit : AuditLog AuditEvent

pub data StatusCode : Type 0 where
  status_ok not_found bad_request : StatusCode

pub record CalibrationWriteResponse : Type 0 where
  pub ok : Bool
  pub calibration : Calibration

-- `.find(|m| m.id == mu_id).map(|m| idx < m.channels.len()).unwrap_or(false)`
unfoldable pub mu_and_channel_exist : List MergingUnit → String → ℕ → Bool
mu_and_channel_exist [] mu_id idx = false
mu_and_channel_exist (m ∷ mus) mu_id idx =
    if str_eq m.id mu_id then ltb idx (length m.channels) else mu_and_channel_exist mus mu_id idx

abbrev pub all_finite : Calibration → Bool
all_finite value = is_finite value.gain && (is_finite value.offset && is_finite value.unit_scale)

abbrev refused : CalibrationWriteResponse
refused = record { ok = false; calibration = default_calibration }

abbrev is_some : Option Calibration → Bool
is_some none = false
is_some (some c) = true

-- the calibrations of one merging unit, by channel
unfoldable pub api_list_for_mu : String → List (ChannelKey × Calibration) → List (ℕ × Calibration)
api_list_for_mu mu_id [] = []
api_list_for_mu mu_id ((k, v) ∷ overrides) =
    let rest = api_list_for_mu mu_id overrides in
    if str_eq k.mu_id mu_id then (k.channel_idx, v) ∷ rest else rest

module _ {Text : Type 0} (to_string_pretty : PersistedDocument → Option Text)
    (from_str : Text → Option PersistedDocument) (with_extension : String → String) where
  unfoldable pub api_set :
      ℕ
      → String
      → ℕ
      → Calibration
      → Console Text
      → (StatusCode × CalibrationWriteResponse) × Console Text
  unfolding mu_and_channel_exist set_calibration record_event
  api_set now mu_id idx value c =
      if (if mu_and_channel_exist (snapshot c.registry) mu_id idx then false else true)
      then ((not_found, refused), c)
      else if (if all_finite value then false else true)
      then ((bad_request, refused), c)
      else (let key : ChannelKey = record { mu_id = mu_id; channel_idx = idx } in
          let (prev, operational, disk) =
            set_calibration to_string_pretty from_str with_extension key value c.operational
              c.disk in
          let event = calibration_set mu_id idx value.gain value.offset value.unit_scale in
          (
            (status_ok, record { ok = true; calibration = value }),
            record c {
              operational = operational;
              disk = disk;
              audit = record_event now event c.audit;
            },
          ))

  unfoldable pub api_reset :
      ℕ → String → ℕ → Console Text → (StatusCode × CalibrationWriteResponse) × Console Text
  unfolding reset_calibration record_event
  api_reset now mu_id idx c =
      let key : ChannelKey = record { mu_id = mu_id; channel_idx = idx } in
      let (removed, operational, disk) =
        reset_calibration to_string_pretty from_str with_extension key c.operational c.disk in
      let had_override = is_some removed in
      (
        (status_ok, record { ok = true; calibration = default_calibration }),
        record c {
          operational = operational;
          disk = disk;
          audit = record_event now (calibration_reset mu_id idx had_override) c.audit;
        },
      )
