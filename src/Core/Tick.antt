-- ===== src/Core/Tick.antt =====
-- crates/svdc-core/src/lib.rs: samples, tick records, their flags and their integrity check.
-- An `i32` is its two's-complement pattern, a number below 2 ^ 32. A `&mut self` method returns
-- the new record.
pub mod Integrity
use svdc.Base.{
  ℕ, ◌+◌, min, bit_and, bit_or, ◌==◌, if◌then◌else◌, Bool, true, false, List, [], ◌∷◌, ◌++◌, ◌≡◌,
  take, replicate, length, Outcome, ok, err, u16_le_bytes, u32_le_bytes, IsU8, IsU16, IsU32, All,
}
use svdc.Core.Crc
use svdc.Core.Crc.{Crc32}

abbrev pub max_channels : ℕ
max_channels = 64

pub record Sample : Type 0 where
  pub value_q : ℕ
  pub quality : ℕ
  pub origin : ℕ
  pub reserved : ℕ

pub data SampleOrigin : Type 0 where
  invalid live interpolated qse_estimated : SampleOrigin

abbrev pub as_u8 : SampleOrigin → ℕ
as_u8 invalid = 0
as_u8 live = 1
as_u8 interpolated = 2
as_u8 qse_estimated = 3

-- `Sample::default()`
abbrev pub blank : Sample
blank = record { value_q = 0; quality = 0; origin = 0; reserved = 0 }

-- `samples` is the array `[Sample; MAX_CHANNELS]`: a list of that length, by `Integrity.IsValid`.
pub record TickRecord : Type 0 where
  pub tick_id : ℕ
  pub ts_utc_ns : ℕ
  pub n_channels : ℕ
  pub flags : ℕ
  pub crc : ℕ
  pub samples : List Sample

-- the bits of `TickRecord::flags`
abbrev pub complete : ℕ
complete = 0x0001

abbrev pub interpolated_flag : ℕ
interpolated_flag = 0x0002

abbrev pub qse_corrected : ℕ
qse_corrected = 0x0004

abbrev pub degraded : ℕ
degraded = 0x0008

abbrev pub empty : ℕ → ℕ → TickRecord
empty tick_id ts_utc_ns = record {
  tick_id = tick_id;
  ts_utc_ns = ts_utc_ns;
  n_channels = 0;
  flags = 0;
  crc = 0;
  samples = replicate max_channels blank;
}

unfoldable pub has_flag : TickRecord → ℕ → Bool
has_flag r flag = if bit_and r.flags flag == 0 then false else true

unfoldable pub set_flag : TickRecord → ℕ → TickRecord
set_flag r flag = record r { flags = bit_or r.flags flag }

unfoldable pub live_samples : TickRecord → List Sample
live_samples r = take (min r.n_channels max_channels) r.samples

-- the three `update` calls of the loop body of `compute_crc`
unfoldable pub update_sample : Crc32 → Sample → Crc32
unfolding Crc.update
update_sample crc s =
    let crc = Crc.update crc (u32_le_bytes s.value_q) in
    let crc = Crc.update crc (s.quality ∷ s.origin ∷ []) in Crc.update crc (u16_le_bytes s.reserved)

-- `for s in self.live_samples()`
unfoldable pub update_samples : Crc32 → List Sample → Crc32
unfolding update_sample
update_samples crc [] = crc
update_samples crc (s ∷ rest) = update_samples (update_sample crc s) rest

unfoldable pub compute_crc : TickRecord → ℕ
unfolding update_samples live_samples Crc.finalize
compute_crc r = Crc.finalize (update_samples Crc.new (live_samples r))

unfoldable pub stamp_crc : TickRecord → TickRecord
unfolding compute_crc
stamp_crc r = record r { crc = compute_crc r }

pub record IntegrityViolation : Type 0 where
  pub tick_id : ℕ
  pub stored : ℕ
  pub computed : ℕ

unfoldable pub verify_crc : TickRecord → Outcome IntegrityViolation (Unit {0})
unfolding compute_crc
verify_crc r =
    let computed = compute_crc r in
    if computed == r.crc
    then ok tt
    else err (record { tick_id = r.tick_id; stored = r.crc; computed = computed })
