-- ===== src/Align.antt =====
-- crates/svdc-aligner: the binner, the identity stages and the aligner (binner.rs, interpolator.rs,
-- calibrator.rs, lib.rs). The tick buffer is a child. Arithmetic on `u64` wraps, as in a release
-- build.
pub mod Ticks
pub mod Buffer
mod Tests
use svdc.Base.{
  ℕ, ◌+◌, ◌/◌, ◌%◌, ◌^◌, min, ltb, List, [], ◌∷◌, length, take, set, Outcome, ok, panic, err,
  assert, u8, u16,
}
use svdc.Wire.Frame.{ChannelSample}
use svdc.Core.Tick
use svdc.Core.Tick.{TickRecord, Sample, as_u8, live, max_channels}
use svdc.Ingress.{IngressFrame, DecodedSample}

pub record Binner : Type 0 where
  pub period_ns : ℕ

-- `Binner::new`, with its assertion
unfoldable pub new_binner : ℕ → Outcome ⊥ Binner
new_binner period_ns = assert (ltb 0 period_ns) (record { period_ns = period_ns })

unfoldable pub bin_index : Binner → IngressFrame → ℕ
bin_index b frame = frame.timestamp.unix_ns / b.period_ns

-- `Interpolator::fill_gaps` and `Calibrator::apply`, the identity so far
abbrev pub fill_gaps : IngressFrame → IngressFrame
fill_gaps frame = frame

abbrev pub apply : IngressFrame → IngressFrame
apply frame = frame

pub record Aligner : Type 0 where
  pub binner : Binner
  pub next_tick_id : ℕ

abbrev pub with_binner : Outcome ⊥ Binner → Outcome ⊥ Aligner
with_binner (ok b) = ok (record { binner = b; next_tick_id = 0 })
with_binner (err e) = err e
with_binner panic = panic

unfoldable pub new : ℕ → Outcome ⊥ Aligner
unfolding new_binner
new bin_period_ns = with_binner (new_binner bin_period_ns)

abbrev pub to_sample : ChannelSample → Sample
to_sample ch = record {
  value_q = ch.value;
  quality = u8 ch.quality;
  origin = as_u8 live;
  reserved = 0;
}

-- the loop `tick.samples[i] = …`, by the channels left from index `i` on
unfoldable pub copy_channels : ℕ → List ChannelSample → List Sample → List Sample
copy_channels i [] samples = samples
copy_channels i (ch ∷ channels) samples =
    copy_channels (i + 1) channels (set samples i (to_sample ch))

-- `if let Some(asdu) = frame.samples.first()`
unfoldable pub copy_first : List DecodedSample → TickRecord → TickRecord
unfolding copy_channels
copy_first [] tick = tick
copy_first (asdu ∷ _) tick =
    let channels = asdu.samples.channels in
    let n = min (length channels) max_channels in
    record tick { samples = copy_channels 0 (take n channels) tick.samples; n_channels = u16 n }

unfoldable pub process_frame : Aligner → IngressFrame → List TickRecord × Aligner
unfolding bin_index copy_first Tick.set_flag Tick.stamp_crc
process_frame aligner frame =
    let bin = bin_index aligner.binner frame in
    let interpolated = fill_gaps frame in
    let calibrated = apply frame in
    let tick = Tick.empty aligner.next_tick_id frame.timestamp.unix_ns in
    let tick = Tick.set_flag tick Tick.complete in
    let tick = copy_first frame.samples tick in
    let tick = Tick.stamp_crc tick in
    (tick ∷ [], record aligner { next_tick_id = (aligner.next_tick_id + 1) % 2 ^ 64 })

unfoldable pub reset : Aligner → Aligner
reset aligner = record aligner { next_tick_id = 0 }
