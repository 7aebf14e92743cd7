-- ===== src/Northbound/Tasks.antt =====
-- The two northbound tasks of crates/svdc-bin/src/main.rs over the shared data plane: the L0 demo
-- subscriber and the bridge to the OPC UA server. Their sleeps are left out: a round is one pass of the
-- loop. The conversion of an `i32` to a float is a parameter.
use svdc.Base.{
  ℕ, ◌+◌, ◌-◌, ◌%◌, ◌^◌, ◌==◌, if◌then◌else◌, true, Option, none, some, List, [], ◌∷◌, ◌++◌, length,
  map, get_elem?,
}
use svdc.Core.Tick.{TickRecord, Sample, live_samples}
use svdc.Subscribe.{Subscription, all, subscribe, read_since}
use svdc.Dataplane.{
  DataPipeline, mark_l0_demo_active, record_l0_demo_tick, mark_l1_opcua_active,
  record_l1_opcua_publish,
}
use svdc.Server.{SampleEntry, LatestTickSnapshot, no_data}

-- one line of the demo's output
pub record L0Line : Type 0 where
  pub tick_id : ℕ
  pub ts : ℕ
  pub ch0 : ℕ
  pub ch4 : ℕ
  pub lag : ℕ

-- the task's variables, its output, and the shared state
pub record L0Task : Type 0 where
  pub pipe : DataPipeline
  pub subscription : Subscription
  pub emitted : ℕ
  pub printed : List L0Line

abbrev pub print_every : ℕ
print_every = 10

-- `.map(|s| s.value_q).unwrap_or(0)`
abbrev pub value_or_zero : Option Sample → ℕ
value_or_zero none = 0
value_or_zero (some s) = s.value_q

abbrev pub l0_line : ℕ → TickRecord → L0Line
l0_line batch_len tick = record {
  tick_id = tick.tick_id;
  ts = tick.ts_utc_ns;
  ch0 = value_or_zero (get_elem? (live_samples tick) 0);
  ch4 = value_or_zero (get_elem? (live_samples tick) 4);
  lag = batch_len - 1;
}

-- the loop over a batch, whose length goes with each tick
unfoldable pub l0_batch : ℕ → List TickRecord → L0Task → L0Task
unfolding record_l0_demo_tick
l0_batch batch_len [] t = t
l0_batch batch_len (tick ∷ batch) t = l0_batch batch_len batch (record t {
  pipe = record_l0_demo_tick tick.tick_id t.pipe;
  emitted = (t.emitted + 1) % 2 ^ 64;
  printed =
      if t.emitted % print_every == 0
      then t.printed ++ (l0_line batch_len tick ∷ [])
      else t.printed;
})

unfoldable pub l0_round : L0Task → L0Task
l0_round t =
    let (batch, subscription) = read_since t.subscription t.pipe.buffer in
    l0_batch (length batch) batch (record t { subscription = subscription })

-- the variables before the first round
unfoldable pub spawn_l0_demo : DataPipeline → L0Task
unfolding mark_l0_demo_active
spawn_l0_demo p = record {
  pipe = mark_l0_demo_active true p;
  subscription = subscribe all;
  emitted = 0;
  printed = [];
}

-- the bridge's variables, with the snapshot that the server reads
pub record L1Task : Type 0 where
  pub pipe : DataPipeline
  pub subscription : Subscription
  pub latest : LatestTickSnapshot

-- `batch.last()`
unfoldable pub last_of : List TickRecord → Option TickRecord
last_of [] = none
last_of (tick ∷ batch) = elim (last_of batch) [ none ↦ some tick | some last ↦ some last ]

unfoldable pub spawn_l1_opcua_server : DataPipeline → L1Task
unfolding mark_l1_opcua_active
spawn_l1_opcua_server p = record {
  pipe = mark_l1_opcua_active true p;
  subscription = subscribe all;
  latest = no_data;
}

module _ (to_f32 : ℕ → ℕ) where
  abbrev pub entry_of : Sample → SampleEntry
  entry_of s = record {
    raw = s.value_q;
    calib = to_f32 s.value_q;
    quality = s.quality;
    origin = s.origin;
  }

  unfoldable pub build_snapshot : TickRecord → LatestTickSnapshot
  unfolding live_samples
  build_snapshot tick = record {
    tick_id = tick.tick_id;
    ts_utc_ns = tick.ts_utc_ns;
    n_channels = tick.n_channels;
    samples = map entry_of (live_samples tick);
  }

  -- the newest tick of a batch is published, the others are skipped
  unfoldable pub l1_batch : Option TickRecord → L1Task → L1Task
  unfolding build_snapshot record_l1_opcua_publish
  l1_batch none t = t
  l1_batch (some tick) t =
      let snap = build_snapshot tick in
      record t { pipe = record_l1_opcua_publish snap.tick_id t.pipe; latest = snap }

  unfoldable pub l1_round : L1Task → L1Task
  unfolding l1_batch last_of
  l1_round t =
      let (batch, subscription) = read_since t.subscription t.pipe.buffer in
      l1_batch (last_of batch) (record t { subscription = subscription })
