-- ===== src/Dataplane/Tests.antt =====
-- The data plane of crates/svdc-console/src/dataplane/mod.rs on short runs.
use svdc.Base.{ℕ, List, [], ◌∷◌, ◌≡◌, refl, arith, err, none, some, true}
use svdc.Wire.Frame.{SampleData}
use svdc.Core.Tick
use svdc.Core.Tick.{TickRecord}
use svdc.Subscribe.{all, subscribe, read_since}
use svdc.Subscribe.Delivery.{rounds}
use svdc.Historian.{working}
use svdc.Dataplane
use svdc.Dataplane.{DataPipeline, inject_tamper, sweep, start, stop, reset}
use svdc.Align.Ticks.{IsStream}
use svdc.Dataplane.Loop.{Round, Task, run_pipeline}
use svdc.Dataplane.EndToEnd.{frames, Recorded, run_pipeline-Recorded}
use svdc.Base.Texts.{codes}
use svdc.Vendor.{lookup}
use svdc.Dataplane.Routes
use svdc.Dataplane.Snapshot.{snapshot}
use svdc.Dataplane.Tamper.{inject_tamper-stall}

-- a pipeline with one tick
abbrev one_tick : DataPipeline
one_tick = record Dataplane.new {
  buffer = record { inner = Tick.empty 0 10 ∷ []; capacity = 256 };
  ticks_emitted = 1;
}

start_twice : (start (start one_tick).1).0 ≡ err Dataplane.already_running
unfolding start
start_twice = refl

reset_empty : (reset one_tick).buffer.inner ≡ []
unfolding reset
reset_empty = refl

inject_tamper-stall_example :
    rounds
      (read_since (subscribe all) (inject_tamper 20 one_tick).buffer).1
      (inject_tamper 20 one_tick).buffer
      ((Tick.empty 1 30 ∷ []) ∷ [])
    ≡ [] ∷ []
inject_tamper-stall_example =
    inject_tamper-stall 20 one_tick (subscribe all) ((Tick.empty 1 30 ∷ []) ∷ []) (omega arith)
      (omega arith) (omega arith) (omega arith)

-- a waveform of one channel that counts
abbrev counting : ℕ → SampleData
counting k = record { channels = record { value = k; quality = 0 } ∷ [] }

abbrev two_rounds : List Round
two_rounds =
    record { now_ns = 1_000_000; now_ms = 1; vendor = none }
    ∷ record { now_ns = 1_208_333; now_ms = 1; vendor = none }
    ∷ []

run_pipeline-Recorded_example :
    (ticks : List TickRecord) × (last : Task) × IsStream 0 (frames counting 0 two_rounds) ticks
    × (run_pipeline counting two_rounds Dataplane.new none working ≡ some last)
    × Recorded ticks last
run_pipeline-Recorded_example = run_pipeline-Recorded counting two_rounds (omega arith)

-- a preset that does not exist leaves the one selected
unknown_vendor :
    (Routes.set_vendor [] true (codes "acme") one_tick).1.selected_vendor ≡ one_tick.selected_vendor
unfolding Dataplane.set_vendor snapshot sweep lookup
unknown_vendor = refl
