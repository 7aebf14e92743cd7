-- ===== src/Operational.antt =====
-- `OperationalState` of crates/svdc-console/src/operational/mod.rs: the calibration of each channel, and
-- the file that it is kept in. An `f32` is its bit pattern. The TOML library is two parameters, and the
-- disk is the list of its files; a path is its text.
pub mod Persist
pub mod Order
pub mod Finite
pub mod Saved
pub mod Durable
pub mod Refused
mod Tests
use Prim.Native.String.{String}
use text.Mathlib.Text.{◌==◌ as str_eq}
use text.Mathlib.TextEquality.{eq_iff}
use svdc.Base.{ℕ, ◌≡◌, ◌↔◌, arith, ◌==◌, Bool, true, ◌&&◌, ◌||◌, Option, none, some, List, []}
use svdc.Base.Assoc
use svdc.Base.Assoc.{Eq}

pub record Calibration : Type 0 where
  pub gain : ℕ
  pub offset : ℕ
  pub unit_scale : ℕ

-- the bits of 1.0 and of 0.0
abbrev pub one : ℕ
one = 0x3F80_0000

abbrev pub default_calibration : Calibration
default_calibration = record { gain = one; offset = 0; unit_scale = one }

-- a comparison of floats: the bits of 1.0 stand for it alone, and -0.0 equals 0.0
unfoldable pub is_identity : Calibration → Bool
is_identity c =
    (c.gain == one) && ((c.offset == 0 || c.offset == 0x8000_0000) && (c.unit_scale == one))

pub record ChannelKey : Type 0 where
  pub mu_id : String
  pub channel_idx : ℕ

abbrev key_eq : ChannelKey → ChannelKey → Bool
key_eq a b = str_eq a.mu_id b.mu_id && (a.channel_idx == b.channel_idx)

pub key_eq_iff : (a b : ChannelKey) → (key_eq a b ≡ true) ↔ (a ≡ b)
key_eq_iff a b = ground (arith, eq_iff a.mu_id b.mu_id)

instance abbrev pub channel_key_eq : Eq ChannelKey
channel_key_eq = record { beq = key_eq; beq_iff = key_eq_iff }

pub record OperationalState : Type 0 where
  pub calibrations : List (ChannelKey × Calibration)
  pub persistence_path : Option String

abbrev pub new : OperationalState
new = record { calibrations = []; persistence_path = none }

-- `unwrap_or_default`
abbrev pub or_default : Option Calibration → Calibration
or_default none = default_calibration
or_default (some c) = c

unfoldable pub calibration : ChannelKey → OperationalState → Calibration
calibration key s = or_default (Assoc.lookup key s.calibrations)
