-- ===== src/Audit/Event.antt =====
-- `AuditEvent` of crates/svdc-console/src/audit/mod.rs. An `f32` is its bit pattern.
use Prim.Native.String.{String}
use svdc.Base.{ℕ, Bool}

pub data AuditEvent : Type 0 where
  scd_upload scd_load_sample : (mu_count : ℕ) → AuditEvent
  mu_manual_register : (mu_id : String) (total : ℕ) → AuditEvent
  registry_cleared : (removed : ℕ) → AuditEvent
  calibration_set : (mu_id : String) (channel_idx gain offset unit_scale : ℕ) → AuditEvent
  calibration_reset : (mu_id : String) (channel_idx : ℕ) (had_override : Bool) → AuditEvent
  northbound_state_change : (layer : String) (enabled : Bool) → AuditEvent
