-- ===== src/Northbound/Bridged.antt =====
-- The bridge to the OPC UA server of crates/svdc-bin/src/main.rs over a data plane that is being filled.
use svdc.Base.{
  ℕ, ◌+◌, ◌%◌, ◌^◌, ◌≤◌, ◌≡◌, refl, sym, ap, ap₂, subst, ◌∙◌, arith, Option, none, some, List, [],
  ◌∷◌, ◌++◌, length, All,
}
use svdc.Core.Tick.{TickRecord}
use svdc.Align.Buffer
use svdc.Align.Buffer.Window.{push_all}
use svdc.Subscribe.{all, read_since}
use svdc.Subscribe.Sorted.{Ascends}
use svdc.Subscribe.Delivery.{rounds, concat, read_since-gap_free}
use svdc.Server.{LatestTickSnapshot, no_data}
use svdc.Dataplane.{
  DataPipeline, demo_buffer_capacity, record_l1_opcua_publish, mark_l1_opcua_active,
}
use svdc.Dataplane
use svdc.Northbound.Tasks.{
  L1Task, last_of, spawn_l1_opcua_server, build_snapshot, l1_batch, l1_round,
}
use svdc.Northbound.Drained.{fill}

-- the number of batches that hold a tick
abbrev pub nonempty : List (List TickRecord) → ℕ
nonempty [] = 0
nonempty ([] ∷ batches) = nonempty batches
nonempty ((t ∷ ts) ∷ batches) = 1 + nonempty batches

-- the later of two newest ticks
abbrev later_of : Option TickRecord → Option TickRecord → Option TickRecord
later_of o none = o
later_of o (some t) = some t

last_of-append : (xs ys : List TickRecord) → last_of (xs ++ ys) ≡ later_of (last_of xs) (last_of ys)
unfolding last_of
last_of-append [] ys = first_none (last_of ys)
  where
    first_none : (o : Option TickRecord) → o ≡ later_of none o
    first_none none = refl
    first_none (some t) = refl
last_of-append (x ∷ xs) ys = rw (last_of-append xs ys) (pick (last_of xs) (last_of ys))
  where
    pick :
        (o p : Option TickRecord)
        → elim (later_of o p) [ none ↦ some x | some last ↦ some last ]
          ≡ later_of (elim o [ none ↦ some x | some last ↦ some last ]) p
    pick none none = refl
    pick (some l) none = refl
    pick o (some t) = refl

module _ (to_f32 : ℕ → ℕ) where
  -- a round after each batch of ticks
  abbrev pub l1_run : L1Task → List (List TickRecord) → L1Task
  l1_run t [] = t
  l1_run t (batch ∷ batches) =
      l1_run (l1_round to_f32 (record t { pipe = fill batch t.pipe })) batches

  -- the snapshot of the newest tick, if there is one
  abbrev pub shown : LatestTickSnapshot → Option TickRecord → LatestTickSnapshot
  shown old none = old
  shown old (some tick) = build_snapshot to_f32 tick

  abbrev pub id_of : ℕ → Option TickRecord → ℕ
  id_of old none = old
  id_of old (some tick) = tick.tick_id

  -- what the bridge has done between two of its states, by the batches delivered
  record Bridged (batches : List (List TickRecord)) (t u : L1Task) : Type 0 where
    latest : u.latest ≡ shown t.latest (last_of (concat batches))
    last :
        u.pipe.l1_opcua_last_tick_id ≡ id_of t.pipe.l1_opcua_last_tick_id (last_of (concat batches))
    total :
        u.pipe.l1_opcua_total_publishes % 2 ^ 64
        ≡ (t.pipe.l1_opcua_total_publishes + nonempty batches) % 2 ^ 64

  shown-later_of :
      (old : LatestTickSnapshot) (o p : Option TickRecord)
      → shown (shown old o) p ≡ shown old (later_of o p)
  shown-later_of old o none = refl
  shown-later_of old o (some t) = refl

  id_of-later_of :
      (old : ℕ) (o p : Option TickRecord) → id_of (id_of old o) p ≡ id_of old (later_of o p)
  id_of-later_of old o none = refl
  id_of-later_of old o (some t) = refl

  -- the publishes of one batch
  abbrev one_if : Option TickRecord → ℕ
  one_if none = 0
  one_if (some t) = 1

  nonempty-one_if :
      (batch : List TickRecord) (batches : List (List TickRecord))
      → nonempty (batch ∷ batches) ≡ one_if (last_of batch) + nonempty batches
  unfolding last_of
  nonempty-one_if [] batches = omega arith
  nonempty-one_if (t ∷ ts) batches = by_last (last_of ts)
    where
      by_last :
          (o : Option TickRecord)
          → 1 + nonempty batches
            ≡ one_if (elim o [ none ↦ some t | some last ↦ some last ]) + nonempty batches
      by_last none = refl
      by_last (some l) = refl

  -- a batch's effect, by its newest tick
  l1_batch_lem :
      (o : Option TickRecord) (t : L1Task)
      → let u = l1_batch to_f32 o t in
        (u.latest ≡ shown t.latest o)
        × (u.pipe.l1_opcua_last_tick_id ≡ id_of t.pipe.l1_opcua_last_tick_id o)
        × (u.pipe.l1_opcua_total_publishes % 2 ^ 64
            ≡ (t.pipe.l1_opcua_total_publishes + one_if o) % 2 ^ 64)
        × (u.subscription ≡ t.subscription)
        × (u.pipe.buffer ≡ t.pipe.buffer)
  unfolding l1_batch build_snapshot record_l1_opcua_publish
  l1_batch_lem none t = (refl, refl, omega arith, refl, refl)
  l1_batch_lem (some tick) t = (refl, refl, omega arith, refl, refl)

  l1_run-Bridged :
      (batches : List (List TickRecord)) (t : L1Task)
      → Bridged (rounds t.subscription t.pipe.buffer batches) t (l1_run t batches)
  unfolding l1_round
  l1_run-Bridged [] t = unfold last_of in record { latest = refl; last = refl; total = omega arith }
  l1_run-Bridged (batch ∷ batches) t =
      let filled = push_all t.pipe.buffer batch in
      let fresh = (read_since t.subscription filled).0 in
      let next = (read_since t.subscription filled).1 in
      let ready : L1Task = record t { pipe = fill batch t.pipe; subscription = next } in
      let u = l1_batch to_f32 (last_of fresh) ready in
      let (latest, last, total, same, buffer) = l1_batch_lem (last_of fresh) ready in
      let reads = rounds next filled batches in
      let later =
        subst (λ b. Bridged b u (l1_run u batches)) (ap₂ (λ s b. rounds s b batches) same buffer)
          (l1_run-Bridged batches u) in
      let count = nonempty-one_if fresh reads in
      let newest = last_of-append fresh (concat reads) in
      let publishes = later.total in
      record {
        latest =
            later.latest
            ∙ ap (λ old. shown old (last_of (concat reads))) latest
            ∙ shown-later_of t.latest (last_of fresh) (last_of (concat reads))
            ∙ ap (shown t.latest) (sym newest);
        last =
            later.last
            ∙ ap (λ old. id_of old (last_of (concat reads))) last
            ∙ id_of-later_of t.pipe.l1_opcua_last_tick_id (last_of fresh) (last_of (concat reads))
            ∙ ap (id_of t.pipe.l1_opcua_last_tick_id) (sym newest);
        total = publishes ∙ omega (arith, total, count);
      }

  -- Ticks with strictly increasing ids come to a new data plane in batches that fit its buffer, and the bridge
  -- makes a round after each batch: the OPC UA server is then shown the snapshot of the newest tick of all,
  -- or no data before the first, the last id is that tick's, and there was one publish for
  -- each batch that was not empty, modulo 2 ^ 64.
  pub l1_run-gap_free :
      (batches : List (List TickRecord))
      → All (λ batch. length batch ≤ demo_buffer_capacity) batches
      → Ascends 0 (concat batches)
      → let task = l1_run (spawn_l1_opcua_server Dataplane.new) batches in
        (task.latest ≡ shown no_data (last_of (concat batches)))
        × (task.pipe.l1_opcua_last_tick_id ≡ id_of 0 (last_of (concat batches)))
        × (task.pipe.l1_opcua_total_publishes % 2 ^ 64 ≡ nonempty batches % 2 ^ 64)
  unfolding spawn_l1_opcua_server mark_l1_opcua_active Buffer.new
  l1_run-gap_free batches fits a =
      let first = spawn_l1_opcua_server Dataplane.new in
      let got =
        read_since-gap_free all demo_buffer_capacity Dataplane.new.buffer batches (omega arith) refl
          fits a in
      let whole : Bridged batches first (l1_run first batches) =
        subst (λ bs. Bridged bs first (l1_run first batches)) got (l1_run-Bridged batches first) in
      (whole.latest, whole.last, whole.total ∙ omega arith)
