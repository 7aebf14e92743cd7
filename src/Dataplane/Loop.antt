-- ===== src/Dataplane/Loop.antt =====
-- The background task `run_pipeline` of crates/svdc-console/src/dataplane/mod.rs with its frames. The
-- waveform, which is float arithmetic, is a function from the sample count; what a round reads from
-- outside (the clocks, and the vendor selected then) is its argument.
use svdc.Base.{
  ℕ, ◌+◌, ◌/◌, ◌%◌, ◌^◌, Option, none, some, List, [], ◌∷◌, Outcome, ok, err, panic, u16,
}
use svdc.Base.Texts.{codes}
use svdc.Wire.Frame.{SampleData}
use svdc.Core.Tick.{TickRecord}
use svdc.Ingress.{IngressFrame, DecodedSample, from_unix_ns}
use svdc.Align.{Aligner, process_frame}
use svdc.Align
use svdc.Align.Buffer
use svdc.Align.Buffer.{TickBuffer}
use svdc.Subscribe.{all, subscribe}
use svdc.Historian.{Historian, tick}
use svdc.Historian
use svdc.Vendor.{VendorProfile, svid_for}
use svdc.Dataplane.{DataPipeline, note_mu}

abbrev pub period_ns : ℕ
period_ns = 208_333

-- the identity of a synthetic frame
abbrev pub demo_id : List ℕ
demo_id = codes "DATAPLANE_DEMO"

unfoldable pub demo_sample :
    (smp_cnt period : ℕ) → Option VendorProfile → SampleData → DecodedSample
demo_sample smp_cnt period (some v) samples = record {
  sv_id = svid_for v demo_id;
  smp_cnt = u16 smp_cnt;
  conf_rev = v.default_conf_rev;
  smp_synch = 2;
  smp_rate = u16 v.default_smp_rate_hz;
  samples = samples;
}
demo_sample smp_cnt period none samples = record {
  sv_id = demo_id;
  smp_cnt = u16 smp_cnt;
  conf_rev = 1;
  smp_synch = 2;
  smp_rate = u16 (1_000_000_000 / period);
  samples = samples;
}

unfoldable pub synth_frame :
    (ℕ → SampleData) → (now smp_cnt period : ℕ) → Option VendorProfile → IngressFrame
unfolding demo_sample
synth_frame wave now smp_cnt period vendor = record {
  timestamp = from_unix_ns now;
  samples = demo_sample smp_cnt period vendor (wave smp_cnt) ∷ [];
}

-- what one round reads: the time in nanoseconds, the time in milliseconds for each unit noted, and the
-- vendor
pub record Round : Type 0 where
  pub now_ns : ℕ
  pub now_ms : ℕ
  pub vendor : Option VendorProfile

-- the task's variables, with the shared state
pub record Task : Type 0 where
  pub pipe : DataPipeline
  pub aligner : Aligner
  pub historian : Option Historian
  pub smp_cnt : ℕ

-- `for asdu in &frame.samples`
unfoldable pub note_all_samples : ℕ → List DecodedSample → DataPipeline → DataPipeline
note_all_samples now [] p = p
note_all_samples now (asdu ∷ samples) p = note_all_samples now samples (note_mu now asdu.sv_id p)

-- `for tick in aligner.process_frame(frame)`
unfoldable pub emit_ticks : List TickRecord → DataPipeline → DataPipeline
unfolding Buffer.push
emit_ticks [] p = p
emit_ticks (t ∷ ticks) p = emit_ticks ticks (record p {
  buffer = (Buffer.push p.buffer t).1;
  ticks_emitted = (p.ticks_emitted + 1) % 2 ^ 64;
})

-- a failure is logged, and the flush is outside
unfoldable pub historian_tick : TickBuffer → Option Historian → Option Historian
unfolding tick
historian_tick buffer none = none
historian_tick buffer (some h) = some (tick buffer h).1

unfoldable pub round : (ℕ → SampleData) → Round → Task → Task
unfolding synth_frame note_all_samples emit_ticks historian_tick
round wave r task =
    let frame = synth_frame wave r.now_ns task.smp_cnt period_ns r.vendor in
    let noted = note_all_samples r.now_ms frame.samples task.pipe in
    let ticks = (process_frame task.aligner frame).0 in
    let pipe = emit_ticks ticks noted in
    record {
      pipe = pipe;
      aligner = (process_frame task.aligner frame).1;
      historian = historian_tick pipe.buffer task.historian;
      smp_cnt = (task.smp_cnt + 1) % 2 ^ 32;
    }

-- the rounds until `running` is cleared
unfoldable pub rounds : (ℕ → SampleData) → List Round → Task → Task
rounds wave [] task = task
rounds wave (r ∷ rs) task = rounds wave rs (round wave r task)

-- `Err` is logged, and the task goes on without a file
unfoldable pub opened : {E : Type 0} → Outcome E Historian → Option Historian
opened (ok h) = some h
opened (err e) = none
opened panic = none

abbrev started : DataPipeline → Option Historian → Outcome ⊥ Aligner → Option Task
started p h (ok aligner) = some (record { pipe = p; aligner = aligner; historian = h; smp_cnt = 0 })
started p h (err e) = none
started p h panic = none

-- the variables before the first round, by what the file held; nothing is the panic of `Aligner::new`
unfoldable pub begin : DataPipeline → Option (List ℕ) → (ℕ → Option ℕ) → Option Task
begin p file stops =
    started p (opened (Historian.new file (subscribe all) stops)) (Align.new period_ns)

abbrev rounds_of : (ℕ → SampleData) → List Round → Option Task → Option Task
rounds_of wave rs none = none
rounds_of wave rs (some task) = some (rounds wave rs task)

unfoldable pub run_pipeline :
    (ℕ → SampleData) → List Round → DataPipeline → Option (List ℕ) → (ℕ → Option ℕ) → Option Task
run_pipeline wave rs p file stops = rounds_of wave rs (begin p file stops)
