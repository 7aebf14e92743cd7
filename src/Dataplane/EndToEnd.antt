-- ===== src/Dataplane/EndToEnd.antt =====
-- A run of `run_pipeline` of crates/svdc-console/src/dataplane/mod.rs from a new data plane to the rows of
-- the historian.
use svdc.Base.{
  ℕ, suc, ◌+◌, ◌%◌, ◌^◌, ◌≤◌, ◌<◌, ◌≡◌, refl, ap, ◌∙◌, arith, none, some, List, [], ◌∷◌, ◌++◌,
  length, map, All, ok,
}
use svdc.Wire.Frame.{SampleData}
use svdc.Core.Tick.{TickRecord}
use svdc.Ingress.{IngressFrame, DecodedSample}
use svdc.Align.{Aligner, process_frame}
use svdc.Align
use svdc.Align.Ticks.{process_frame_lem, process_frames, process_frames-IsStream, IsStream}
use svdc.Align.Buffer
use svdc.Align.Buffer.{TickBuffer}
use svdc.Align.Buffer.Window.{push_all}
use svdc.Subscribe.{subscribe, all}
use svdc.Subscribe.Sorted.{Ascends}
use svdc.Subscribe.Delivery.{concat}
use svdc.Historian.{Historian, tick, csv_header, working}
use svdc.Historian
use svdc.Historian.Rows.{rows, record_all, record_all-gap_free}
use svdc.Dataplane.{DataPipeline, note_mu, demo_buffer_capacity}
use svdc.Dataplane
use svdc.Dataplane.Loop.{
  Round, Task, period_ns, synth_frame, note_all_samples, emit_ticks, historian_tick, round, rounds,
  begin, opened, run_pipeline,
}

-- the frames of a run from the sample count `k` on
abbrev pub frames : (ℕ → SampleData) → ℕ → List Round → List IngressFrame
frames wave k [] = []
frames wave k (r ∷ rs) =
    synth_frame wave r.now_ns k period_ns r.vendor ∷ frames wave ((k + 1) % 2 ^ 32) rs

abbrev single : TickRecord → List TickRecord
single t = t ∷ []

concat-single : (ts : List TickRecord) → concat (map single ts) ≡ ts
concat-single [] = refl
concat-single (t ∷ ts) = ap (λ rest. t ∷ rest) (concat-single ts)

abbrev frame_of : (ℕ → SampleData) → Round → Task → IngressFrame
frame_of wave r task = synth_frame wave r.now_ns task.smp_cnt period_ns r.vendor

-- the task after a round in which the aligner made the tick `t`
abbrev after : (ℕ → SampleData) → Round → TickRecord → Historian → Task → Task
after wave r t h task =
    let noted = note_all_samples r.now_ms (frame_of wave r task).samples task.pipe in
    let filled = (Buffer.push noted.buffer t).1 in
    record {
      pipe = record noted { buffer = filled; ticks_emitted = (noted.ticks_emitted + 1) % 2 ^ 64 };
      aligner = record (task.aligner) { next_tick_id = (task.aligner.next_tick_id + 1) % 2 ^ 64 };
      historian = some (tick filled h).1;
      smp_cnt = (task.smp_cnt + 1) % 2 ^ 32;
    }

-- a round with an open historian makes one tick
record OneTick (wave : ℕ → SampleData) (r : Round) (h : Historian) (task : Task) : Type 0 where
  t : TickRecord
  made :
      process_frame task.aligner (frame_of wave r task)
      ≡ (t ∷ [], record (task.aligner) { next_tick_id = (task.aligner.next_tick_id + 1) % 2 ^ 64 })
  result : round wave r task ≡ after wave r t h task

round-OneTick :
    (wave : ℕ → SampleData) (r : Round) (task : Task) (h : Historian)
    → task.historian ≡ some h
    → OneTick wave r h task
unfolding round emit_ticks historian_tick
round-OneTick wave r task h e =
    let (t, (made, live)) = process_frame_lem task.aligner (frame_of wave r task) in
    record { t = t; made = made; result = rw (made, e) refl }

-- what a run leaves, by the ticks that the aligner makes of its frames
record Ran (ticks : List TickRecord) (n : ℕ) (h : Historian) (task last : Task) : Type 0 where
  buffer : last.pipe.buffer ≡ push_all task.pipe.buffer ticks
  emitted : last.pipe.ticks_emitted % 2 ^ 64 ≡ (task.pipe.ticks_emitted + n) % 2 ^ 64
  historian : last.historian ≡ some (record_all h task.pipe.buffer (map single ticks))

-- noting units leaves the buffer and the count of ticks
note_all_samples-keeps :
    (now : ℕ) (samples : List DecodedSample) (p : DataPipeline)
    → ((note_all_samples now samples p).buffer ≡ p.buffer)
      × ((note_all_samples now samples p).ticks_emitted ≡ p.ticks_emitted)
unfolding note_all_samples
note_all_samples-keeps now [] p = (refl, refl)
note_all_samples-keeps now (asdu ∷ samples) p =
    note_all_samples-keeps now samples (note_mu now asdu.sv_id p)

rounds-Ran :
    (wave : ℕ → SampleData) (rs : List Round) (task : Task) (h : Historian)
    → task.historian ≡ some h
    → Ran
        (process_frames task.aligner (frames wave task.smp_cnt rs)).0
        (length rs)
        h
        task
        (rounds wave rs task)
unfolding rounds record_all
rounds-Ran wave [] task h e = record { buffer = refl; emitted = omega arith; historian = e }
rounds-Ran wave (r ∷ rs) task h e =
    let one = round-OneTick wave r task h e in
    let next = after wave r one.t h task in
    let later = rounds-Ran wave rs next (tick next.pipe.buffer h).1 refl in
    let samples = (frame_of wave r task).samples in
    let (same, count) = note_all_samples-keeps r.now_ms samples task.pipe in
    let emitted = later.emitted in
    rw (one.made, one.result)
      (record {
        buffer =
            later.buffer
            ∙ ap
                (λ b.
                  push_all (Buffer.push b one.t).1
                    (process_frames next.aligner (frames wave next.smp_cnt rs)).0)
                same;
        emitted = emitted ∙ omega (arith, count);
        historian =
            later.historian
            ∙ ap
                (λ b. some (
                  record_all (tick (Buffer.push b one.t).1 h).1 (Buffer.push b one.t).1
                    (map single (process_frames next.aligner (frames wave next.smp_cnt rs)).0)))
                same;
      })

IsStream-Ascends :
    (lo id : ℕ) (fs : List IngressFrame) (ticks : List TickRecord)
    → lo ≤ id
    → IsStream id fs ticks
    → Ascends lo ticks
IsStream-Ascends lo id [] [] h s = tt
IsStream-Ascends lo id [] (t ∷ ticks) h s = absurd s
IsStream-Ascends lo id (f ∷ fs) [] h s = absurd s
IsStream-Ascends lo id (f ∷ fs) (t ∷ ticks) h (live, rest) =
    let same = live.tick_id in
    (omega arith, IsStream-Ascends (suc t.tick_id) (id + 1) fs ticks (omega arith) rest)

IsStream-length :
    (id : ℕ) (fs : List IngressFrame) (ticks : List TickRecord)
    → IsStream id fs ticks
    → length ticks ≡ length fs
IsStream-length id [] [] s = refl
IsStream-length id [] (t ∷ ticks) s = absurd s
IsStream-length id (f ∷ fs) [] s = absurd s
IsStream-length id (f ∷ fs) (t ∷ ticks) (live, rest) =
    let later = IsStream-length (id + 1) fs ticks rest in omega (arith, later)

length-frames :
    (wave : ℕ → SampleData) (k : ℕ) (rs : List Round) → length (frames wave k rs) ≡ length rs
length-frames wave k [] = refl
length-frames wave k (r ∷ rs) =
    let later = length-frames wave ((k + 1) % 2 ^ 32) rs in omega (arith, later)

singles-fit :
    (ts : List TickRecord) → All (λ batch. length batch ≤ demo_buffer_capacity) (map single ts)
singles-fit [] = tt
singles-fit (t ∷ ts) = (omega arith, singles-fit ts)

-- what a finished run left: the buffer that got the ticks, the ticks counted, and the file
pub record Recorded (ticks : List TickRecord) (task : Task) : Type 0 where
  pub buffer : task.pipe.buffer ≡ push_all Dataplane.new.buffer ticks
  pub emitted : task.pipe.ticks_emitted % 2 ^ 64 ≡ length ticks
  pub file :
      (h : Historian) × (task.historian ≡ some h)
      × (h.writer.bytes ≡ csv_header ++ rows ticks)
      × (h.rows_written % 2 ^ 64 ≡ length ticks)

-- the variables before the first round
abbrev first_aligner : Aligner
first_aligner = record { binner = record { period_ns = period_ns }; next_tick_id = 0 }

abbrev first_historian : Historian
first_historian = record {
  writer = record { bytes = csv_header; stops = working };
  subscription = subscribe all;
  rows_written = 0;
}

abbrev first_task : Task
first_task = record {
  pipe = Dataplane.new;
  aligner = first_aligner;
  historian = some first_historian;
  smp_cnt = 0;
}

begin-new : begin Dataplane.new none working ≡ some first_task
unfolding begin opened Historian.new Align.new
begin-new = refl

new-first : Buffer.new demo_buffer_capacity ≡ ok Dataplane.new.buffer
unfolding Buffer.new
new-first = refl

new-first_historian : Historian.new none (subscribe all) working ≡ ok first_historian
unfolding Historian.new
new-first_historian = refl

-- A run of fewer than 2 ^ 64 rounds from a new data plane, with a new historian file that works, comes to an end
-- state. Its ticks carry the synthetic frames, one tick for each round, in order, under consecutive ids from 0,
-- each with its frame's channels and an intact CRC; exactly these were pushed to the buffer and
-- counted, and the historian's file is the header and then one row for each of them, in order, none lost to
-- the bounded buffer.
pub run_pipeline-Recorded :
    (wave : ℕ → SampleData) (rs : List Round)
    → length rs < 2 ^ 64
    → (ticks : List TickRecord) × (last : Task) × IsStream 0 (frames wave 0 rs) ticks
      × (run_pipeline wave rs Dataplane.new none working ≡ some last)
      × Recorded ticks last
unfolding run_pipeline
run_pipeline-Recorded wave rs small =
    let fs = frames wave 0 rs in
    let ticks = (process_frames first_aligner fs).0 in
    let batches = map single ticks in
    let long = length-frames wave 0 rs in
    let (stream, next) = process_frames-IsStream first_aligner fs (omega (arith, long)) in
    let count = IsStream-length 0 fs ticks stream ∙ long in
    let ascends : Ascends 0 (concat batches) =
      rw (concat-single ticks) (IsStream-Ascends 0 0 fs ticks (omega arith) stream) in
    let ran = rounds-Ran wave rs first_task first_historian refl in
    let (file, written) =
      record_all-gap_free all demo_buffer_capacity Dataplane.new.buffer batches first_historian
        (omega arith) new-first (singles-fit ticks) ascends new-first_historian in
    let emitted = ran.emitted in
    (
      ticks,
      rounds wave rs first_task,
      stream,
      rw begin-new,
      record {
        buffer = ran.buffer;
        emitted = emitted ∙ omega (arith, count);
        file = (
          record_all first_historian Dataplane.new.buffer batches,
          ran.historian,
          file ∙ ap (λ ts. csv_header ++ rows ts) (concat-single ticks),
          written
              ∙ ap (λ (ts : List TickRecord). length ts % 2 ^ 64) (concat-single ticks)
              ∙ omega (arith, count),
        );
      },
    )
