-- ===== src/Northbound/Tests.antt =====
-- The northbound tasks of crates/svdc-bin/src/main.rs and the pages on them, on short runs.
use svdc.Base.{ℕ, ◌+◌, ◌%◌, ◌^◌, ◌≡◌, refl, true, none, List, [], ◌∷◌, length, arith}
use svdc.Base.Texts.{codes}
use svdc.Core.Tick
use svdc.Core.Tick.{TickRecord}
use svdc.Subscribe.Delivery.{concat}
use svdc.Server.{no_data}
use svdc.Dataplane
use svdc.Dataplane.{DataPipeline}
use svdc.Northbound.{l1, from_str, for_layer, status_badge, stub_mode}
use svdc.Northbound.Tasks.{last_of, spawn_l0_demo, spawn_l1_opcua_server}
use svdc.Northbound.Drained.{l0_run, last_id, every_tenth, tick_ids, printed_ids, l0_run-gap_free}
use svdc.Northbound.Bridged.{l1_run, shown, id_of, nonempty, l1_run-gap_free}

abbrev tick_of : ℕ → TickRecord
tick_of id = Tick.empty id 0

abbrev batches : List (List TickRecord)
batches = (tick_of 0 ∷ tick_of 1 ∷ []) ∷ [] ∷ (tick_of 5 ∷ []) ∷ []

unknown_layer : from_str (codes "L4") ≡ none
unfolding from_str
unknown_layer = refl

abbrev listening : DataPipeline
listening = record Dataplane.new { l1_opcua_active = true }

stub_badge : status_badge l1 (for_layer l1 listening) ≡ stub_mode
unfolding status_badge
stub_badge = refl

l0_run-gap_free_example :
    let task = l0_run (spawn_l0_demo Dataplane.new) batches in
    (task.pipe.l0_demo_total_ticks % 2 ^ 64 ≡ length (concat batches) % 2 ^ 64)
    × (task.pipe.l0_demo_last_tick_id ≡ last_id 0 (concat batches))
    × (printed_ids task.printed ≡ tick_ids (every_tenth 0 (concat batches)))
l0_run-gap_free_example = l0_run-gap_free batches (omega arith) (omega arith)

-- a conversion for the example alone
abbrev bits : ℕ → ℕ
bits v = v + 1

l1_run-gap_free_example :
    let task = l1_run bits (spawn_l1_opcua_server Dataplane.new) batches in
    (task.latest ≡ shown bits no_data (last_of (concat batches)))
    × (task.pipe.l1_opcua_last_tick_id ≡ id_of bits 0 (last_of (concat batches)))
    × (task.pipe.l1_opcua_total_publishes % 2 ^ 64 ≡ nonempty batches % 2 ^ 64)
l1_run-gap_free_example = l1_run-gap_free bits batches (omega arith) (omega arith)
