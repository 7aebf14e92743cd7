-- ===== src/Calibrate/Trail.antt =====
-- What a calibration request to crates/svdc-console/src/routes/calibration.rs changes.
use Prim.Native.String.{String}
use svdc.Base.{
  ℕ, ◌<◌, ◌≡◌, ◌≢◌, ◌⊎◌, inl, inr, refl, ap, ◌∙◌, Bool, true, false, Bool-cases, if◌then◌else◌,
  Option, some, List, [], ◌∷◌,
}
use svdc.Base.Assoc
use svdc.Audit.{AuditRecord, recent}
use svdc.Audit.Event.{AuditEvent, calibration_set}
use svdc.Audit.Newest.{recent-record_event}
use svdc.Scd.{snapshot}
use svdc.Operational.{
  Calibration, ChannelKey, channel_key_eq, OperationalState, or_default, calibration,
}
use svdc.Operational.Persist.{PersistedDocument, set_calibration}
use svdc.Calibrate.{
  Console, StatusCode, CalibrationWriteResponse, status_ok, not_found, bad_request,
  mu_and_channel_exist, all_finite, api_set,
}

or_default-if :
    (b : Bool) (v : Option Calibration) (o : Option Calibration)
    → or_default (if b then v else o) ≡ (if b then or_default v else or_default o)
or_default-if true v o = refl
or_default-if false v o = refl

not_found_ne : not_found ≢ status_ok
not_found_ne e = cc

bad_request_ne : bad_request ≢ status_ok
bad_request_ne e = cc

abbrev key_of : String → ℕ → ChannelKey
key_of mu_id idx = record { mu_id = mu_id; channel_idx = idx }

-- the newest record of the log, under the next number
abbrev newest_of : ℕ → AuditEvent → ℕ → List (AuditRecord AuditEvent)
newest_of now event seq = record { timestamp_ms = now; seq = seq; event = event } ∷ []

-- the answers to a request to set a calibration, with what becomes of the channel `j`
pub data Answered {Text : Type 0} (now : ℕ) (mu_id : String) (idx : ℕ) (value : Calibration)
    (c : Console Text) (j : ChannelKey)
    : (StatusCode × CalibrationWriteResponse) × Console Text → Type 0 where
  refused :
      (s : StatusCode) (w : CalibrationWriteResponse)
      → (mu_and_channel_exist (snapshot c.registry) mu_id idx ≡ false) ⊎ (all_finite value ≡ false)
      → s ≢ status_ok
      → Answered now mu_id idx value c j ((s, w), c)
  accepted :
      (w : CalibrationWriteResponse) (c' : Console Text)
      → mu_and_channel_exist (snapshot c.registry) mu_id idx ≡ true
      → all_finite value ≡ true
      → c'.registry ≡ c.registry
      → calibration j c'.operational
        ≡ (if channel_key_eq.beq (key_of mu_id idx) j then value else calibration j c.operational)
      → recent c'.audit 1
        ≡ newest_of now
            (calibration_set mu_id idx value.gain value.offset value.unit_scale)
            c.audit.next_seq
      → Answered now mu_id idx value c j ((status_ok, w), c')

module _ {Text : Type 0} (to_string_pretty : PersistedDocument → Option Text)
    (from_str : Text → Option PersistedDocument) (with_extension : String → String) where
  calibration-insert :
      (key j : ChannelKey) (value : Calibration) (s : OperationalState)
      → or_default (Assoc.lookup j (Assoc.insert key value s.calibrations))
        ≡ (if channel_key_eq.beq key j then value else calibration j s)
  unfolding calibration
  calibration-insert key j value s =
      ap or_default (Assoc.lookup-insert key j value s.calibrations)
      ∙ or_default-if (channel_key_eq.beq key j) (some value) (Assoc.lookup j s.calibrations)

  -- A request to set a calibration is refused exactly when the channel is not registered or a value is
  -- not finite, and then changes nothing. Otherwise the channel has the new calibration, every other
  -- channel the one that it had, the registry stays, and the newest record of an audit log with room
  -- is this change under the next number.
  pub api_set-Answered :
      (now : ℕ) (mu_id : String) (idx : ℕ) (value : Calibration) (c : Console Text) (j : ChannelKey)
      → 0 < c.audit.capacity
      → Answered now mu_id idx value c j
          (api_set to_string_pretty from_str with_extension now mu_id idx value c)
  unfolding api_set set_calibration calibration
  api_set-Answered now mu_id idx value c j h =
      elim (Bool-cases (mu_and_channel_exist (snapshot c.registry) mu_id idx)) [
        | inr e ↦ rw e (refused not_found _ (inl e) not_found_ne)
        | inl e ↦ elim (Bool-cases (all_finite value)) [
          | inr f ↦ rw (e, f) (refused bad_request _ (inr f) bad_request_ne)
          | inl f ↦
              rw (e, f)
                (accepted _ _ e f refl (calibration-insert (key_of mu_id idx) j value c.operational)
                  (recent-record_event now _ c.audit h))
        ]
      ]
