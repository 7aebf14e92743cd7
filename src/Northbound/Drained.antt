-- ===== src/Northbound/Drained.antt =====
-- The L0 demo subscriber of crates/svdc-bin/src/main.rs over a data plane that is being filled.
use svdc.Base.{
  ℕ, ◌+◌, ◌%◌, ◌^◌, ◌==◌, ◌≡◌, refl, sym, ap, ap₂, subst, ◌∙◌, arith, if◌then◌else◌, Bool-cases,
  inl, inr, List, [], ◌∷◌, ◌++◌, length, map, map-append, append_assoc, append-nil, length-append,
  All, ◌≤◌,
}
use svdc.Core.Tick.{TickRecord}
use svdc.Align.Buffer
use svdc.Align.Buffer.Window.{push_all}
use svdc.Subscribe.{all, read_since}
use svdc.Subscribe.Sorted.{Ascends}
use svdc.Subscribe.Delivery.{rounds, concat, read_since-gap_free}
use svdc.Dataplane.{DataPipeline, demo_buffer_capacity, record_l0_demo_tick, mark_l0_demo_active}
use svdc.Dataplane
use svdc.Northbound.Tasks.{L0Line, L0Task, l0_line, print_every, l0_batch, l0_round, spawn_l0_demo}

-- ticks that a producer pushes
abbrev pub fill : List TickRecord → DataPipeline → DataPipeline
fill ticks p = record p { buffer = push_all p.buffer ticks }

-- a round after each batch of ticks
abbrev pub l0_run : L0Task → List (List TickRecord) → L0Task
l0_run t [] = t
l0_run t (batch ∷ batches) = l0_run (l0_round (record t { pipe = fill batch t.pipe })) batches

-- the count of the task after ticks, which wraps
abbrev count_on : ℕ → List TickRecord → ℕ
count_on k [] = k
count_on k (t ∷ ts) = count_on ((k + 1) % 2 ^ 64) ts

-- every tenth tick, by the count before them
abbrev pub every_tenth : ℕ → List TickRecord → List TickRecord
every_tenth k [] = []
every_tenth k (t ∷ ts) =
    let rest = every_tenth ((k + 1) % 2 ^ 64) ts in if k % print_every == 0 then t ∷ rest else rest

abbrev pub last_id : ℕ → List TickRecord → ℕ
last_id id [] = id
last_id id (t ∷ ts) = last_id t.tick_id ts

abbrev pub tick_ids : List TickRecord → List ℕ
tick_ids = map (λ (t : TickRecord). t.tick_id)

abbrev pub printed_ids : List L0Line → List ℕ
printed_ids = map (λ (l : L0Line). l.tick_id)

-- what the task has done between two of its states, by the ticks delivered
record Drained (ts : List TickRecord) (t u : L0Task) : Type 0 where
  total : u.pipe.l0_demo_total_ticks % 2 ^ 64 ≡ (t.pipe.l0_demo_total_ticks + length ts) % 2 ^ 64
  last : u.pipe.l0_demo_last_tick_id ≡ last_id t.pipe.l0_demo_last_tick_id ts
  emitted : u.emitted ≡ count_on t.emitted ts
  printed : printed_ids u.printed ≡ printed_ids t.printed ++ tick_ids (every_tenth t.emitted ts)

last_id-append :
    (id : ℕ) (xs ys : List TickRecord) → last_id id (xs ++ ys) ≡ last_id (last_id id xs) ys
last_id-append id [] ys = refl
last_id-append id (x ∷ xs) ys = last_id-append x.tick_id xs ys

count_on-append :
    (k : ℕ) (xs ys : List TickRecord) → count_on k (xs ++ ys) ≡ count_on (count_on k xs) ys
count_on-append k [] ys = refl
count_on-append k (x ∷ xs) ys = count_on-append ((k + 1) % 2 ^ 64) xs ys

every_tenth-append :
    (k : ℕ) (xs ys : List TickRecord)
    → every_tenth k (xs ++ ys) ≡ every_tenth k xs ++ every_tenth (count_on k xs) ys
every_tenth-append k [] ys = refl
every_tenth-append k (x ∷ xs) ys =
    let rest = every_tenth-append ((k + 1) % 2 ^ 64) xs ys in
    elim (Bool-cases (k % print_every == 0)) [
      | inl e ↦ rw (e, rest) refl
      | inr e ↦ rw (e, rest) refl
    ]

Drained-append :
    (xs ys : List TickRecord) (t u v : L0Task)
    → Drained xs t u
    → Drained ys u v
    → Drained (xs ++ ys) t v
Drained-append xs ys t u v a b = record {
  total = (let e = a.total in let long = length-append xs ys in b.total ∙ omega (arith, e, long));
  last = b.last ∙ ap (λ id. last_id id ys) a.last ∙ sym (last_id-append _ xs ys);
  emitted = b.emitted ∙ ap (λ k. count_on k ys) a.emitted ∙ sym (count_on-append _ xs ys);
  printed =
      b.printed
      ∙ ap (λ ids. ids ++ tick_ids (every_tenth u.emitted ys)) a.printed
      ∙ append_assoc (printed_ids t.printed) (tick_ids (every_tenth t.emitted xs))
          (tick_ids (every_tenth u.emitted ys))
      ∙ ap (λ rest. printed_ids t.printed ++ rest)
          (ap (λ k. tick_ids (every_tenth t.emitted xs) ++ tick_ids (every_tenth k ys)) a.emitted
            ∙ sym (
                map-append (λ (x : TickRecord). x.tick_id) (every_tenth t.emitted xs)
                  (every_tenth (count_on t.emitted xs) ys))
            ∙ ap tick_ids (sym (every_tenth-append t.emitted xs ys)));
}

-- the task after one tick
abbrev after_tick : ℕ → TickRecord → L0Task → L0Task
after_tick n tick t = record t {
  pipe = record_l0_demo_tick tick.tick_id t.pipe;
  emitted = (t.emitted + 1) % 2 ^ 64;
  printed = if t.emitted % print_every == 0 then t.printed ++ (l0_line n tick ∷ []) else t.printed;
}

after_tick-Drained :
    (n : ℕ) (tick : TickRecord) (t : L0Task) → Drained (tick ∷ []) t (after_tick n tick t)
unfolding record_l0_demo_tick
after_tick-Drained n tick t = record {
  total = omega arith;
  last = refl;
  emitted = refl;
  printed = elim (Bool-cases (t.emitted % print_every == 0)) [
    | inl e ↦ rw e (map-append (λ (l : L0Line). l.tick_id) t.printed (l0_line n tick ∷ []))
    | inr e ↦ rw e (sym (append-nil (printed_ids t.printed)))
  ];
}

l0_batch-Drained : (n : ℕ) (ts : List TickRecord) (t : L0Task) → Drained ts t (l0_batch n ts t)
unfolding l0_batch
l0_batch-Drained n [] t = record {
  total = omega arith;
  last = refl;
  emitted = refl;
  printed = sym (append-nil (printed_ids t.printed));
}
l0_batch-Drained n (tick ∷ ts) t =
    let next = after_tick n tick t in
    Drained-append (tick ∷ []) ts t next (l0_batch n ts next) (after_tick-Drained n tick t)
      (l0_batch-Drained n ts next)

l0_batch-keeps :
    (n : ℕ) (ts : List TickRecord) (t : L0Task)
    → ((l0_batch n ts t).subscription ≡ t.subscription)
      × ((l0_batch n ts t).pipe.buffer ≡ t.pipe.buffer)
unfolding l0_batch record_l0_demo_tick
l0_batch-keeps n [] t = (refl, refl)
l0_batch-keeps n (tick ∷ ts) t = l0_batch-keeps n ts (after_tick n tick t)

-- A run is drained by what its reads deliver.
l0_run-Drained :
    (batches : List (List TickRecord)) (t : L0Task)
    → Drained (concat (rounds t.subscription t.pipe.buffer batches)) t (l0_run t batches)
unfolding l0_round
l0_run-Drained [] t = record {
  total = omega arith;
  last = refl;
  emitted = refl;
  printed = sym (append-nil (printed_ids t.printed));
}
l0_run-Drained (batch ∷ batches) t =
    let filled = push_all t.pipe.buffer batch in
    let fresh = (read_since t.subscription filled).0 in
    let next = (read_since t.subscription filled).1 in
    let ready : L0Task = record t { pipe = fill batch t.pipe; subscription = next } in
    let u = l0_batch (length fresh) fresh ready in
    let (same, buffer) = l0_batch-keeps (length fresh) fresh ready in
    let one = l0_batch-Drained (length fresh) fresh ready in
    let later =
      subst (λ b. Drained (concat b) u (l0_run u batches))
        (ap₂ (λ s b. rounds s b batches) same buffer) (l0_run-Drained batches u) in
    Drained-append fresh (concat (rounds next filled batches)) t u (l0_run u batches)
      (record { total = one.total; last = one.last; emitted = one.emitted; printed = one.printed })
      later

-- Ticks with strictly increasing ids come to a new data plane in batches that fit its buffer, and the L0
-- demo makes a round after each batch: its total is then the number of the ticks modulo 2 ^ 64, its
-- last id that of the last tick, or 0, and its lines are those of every tenth tick from the first on, however
-- the ticks were batched.
pub l0_run-gap_free :
    (batches : List (List TickRecord))
    → All (λ batch. length batch ≤ demo_buffer_capacity) batches
    → Ascends 0 (concat batches)
    → let task = l0_run (spawn_l0_demo Dataplane.new) batches in
      (task.pipe.l0_demo_total_ticks % 2 ^ 64 ≡ length (concat batches) % 2 ^ 64)
      × (task.pipe.l0_demo_last_tick_id ≡ last_id 0 (concat batches))
      × (printed_ids task.printed ≡ tick_ids (every_tenth 0 (concat batches)))
unfolding spawn_l0_demo mark_l0_demo_active Buffer.new
l0_run-gap_free batches fits a =
    let first = spawn_l0_demo Dataplane.new in
    let ran = l0_run-Drained batches first in
    let got =
      read_since-gap_free all demo_buffer_capacity Dataplane.new.buffer batches (omega arith) refl
        fits a in
    let whole : Drained (concat batches) first (l0_run first batches) =
      subst (λ bs. Drained (concat bs) first (l0_run first batches)) got ran in
    (whole.total ∙ omega arith, whole.last, whole.printed)
