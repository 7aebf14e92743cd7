-- ===== src/Dataplane/Snapshot.antt =====
-- `snapshot` of crates/svdc-console/src/dataplane/mod.rs. The path of the historian's file and whether it
-- exists are arguments.
use svdc.Base.{ℕ, Bool, Option, none, some, List, [], ◌∷◌, length}
use svdc.Core.Tick.{TickRecord, Sample, live_samples}
use svdc.Align.Buffer.{recent}
use svdc.Dataplane.{DataPipeline, sweep}

pub record DataPipelineSnapshot : Type 0 where
  pub running : Bool
  pub buffer_len : ℕ
  pub buffer_capacity : ℕ
  pub ticks_emitted : ℕ
  pub tamper_count : ℕ
  pub integrity_violations : ℕ
  pub violation_tick_ids : List ℕ
  pub latest_tick_id : Option ℕ
  pub latest_ts_ns : Option ℕ
  pub latest_crc : Option ℕ
  pub latest_ch0_value : Option ℕ
  pub historian_path : List ℕ
  pub historian_exists : Bool

abbrev pub first_record : List TickRecord → Option TickRecord
first_record [] = none
first_record (r ∷ rest) = some r

-- `.map` of an option
abbrev pub of_newest : {A : Type 0} → (TickRecord → A) → Option TickRecord → Option A
of_newest f none = none
of_newest f (some r) = some (f r)

abbrev pub first_value : List Sample → Option ℕ
first_value [] = none
first_value (s ∷ samples) = some s.value_q

-- `and_then` of the value of channel 0
abbrev pub ch0_of : Option TickRecord → Option ℕ
ch0_of none = none
ch0_of (some r) = first_value (live_samples r)

unfoldable pub snapshot : List ℕ → Bool → DataPipeline → DataPipelineSnapshot × DataPipeline
unfolding sweep recent live_samples
snapshot path exists p =
    let (ids, p') = sweep p in
    let newest = first_record (recent p.buffer 1) in
    (
      record {
        running = p.running;
        buffer_len = length p.buffer.inner;
        buffer_capacity = p.buffer.capacity;
        ticks_emitted = p.ticks_emitted;
        tamper_count = p.tamper_count;
        integrity_violations = length ids;
        violation_tick_ids = ids;
        latest_tick_id = of_newest (λ r. r.tick_id) newest;
        latest_ts_ns = of_newest (λ r. r.ts_utc_ns) newest;
        latest_crc = of_newest (λ r. r.crc) newest;
        latest_ch0_value = ch0_of newest;
        historian_path = path;
        historian_exists = exists;
      },
      p',
    )
