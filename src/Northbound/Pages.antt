-- ===== src/Northbound/Pages.antt =====
-- The rows and the detail pages of crates/svdc-console/src/routes/northbound.rs agree.
use svdc.Base.{
  ℕ, ◌==◌, ◌&&◌, ◌≡◌, refl, Bool, true, false, Bool-cases, inl, inr, Option, none, some, arith,
}
use svdc.Dataplane.{DataPipeline}
use svdc.Northbound.{
  Layer, l0, l1, l2, l3, from_str, code, for_layer, Badge, stub_mode, running, not_started,
  planned_phase, wired_badge, status_badge, Summary, no_publishes, idle, dash, cursor,
  work_unit_label, live_summary, no_traffic, activation, no_card, is_l1, Detail, wired_detail,
  planned_detail, wired_body, layer_detail_body, LiveStatus,
}

-- the status of a task, by what the pages show of it
abbrev status_of : (active : Bool) (last total : ℕ) (is_stub : Bool) → LiveStatus
status_of active last total is_stub = record {
  active = active;
  last_tick_id = last;
  total_count = total;
  is_stub = is_stub;
}

-- what the row and the page of a layer show for a status: the badge, the summary and the detail
pub data IsPage : Layer → Option LiveStatus → Badge → Summary → Detail → Type 0 where
  waiting :
      (last total : ℕ)
      → total ≡ 0
      → IsPage l1 (some (status_of true last total true)) stub_mode no_publishes (
          wired_detail (record {
            badge = stub_mode;
            last_tick = none;
            total = total;
            card = no_traffic;
            verification = true;
          }))
  live :
      (layer : Layer) (last total : ℕ)
      → IsPage layer
          (some (status_of true last total false))
          running
          (cursor last total (work_unit_label layer))
          (wired_detail (record {
            badge = running;
            last_tick = some last;
            total = total;
            card = no_card;
            verification = is_l1 layer;
          }))
  off :
      (layer : Layer) (last total : ℕ)
      → IsPage layer (some (status_of false last total false)) not_started idle (
          wired_detail (record {
            badge = not_started;
            last_tick = none;
            total = total;
            card = activation;
            verification = is_l1 layer;
          }))
  roadmap : (layer : Layer) → IsPage layer none (planned_phase 4) dash (planned_detail 4)

-- what the code shows
abbrev pub Shown : Layer → Option LiveStatus → Type 0
Shown layer status =
    IsPage layer status (status_badge layer status) (live_summary layer status)
      (layer_detail_body layer status)

l0-Shown : (active : Bool) (last total : ℕ) → Shown l0 (some (status_of active last total false))
unfolding status_badge wired_badge live_summary layer_detail_body wired_body
l0-Shown true last total = live l0 last total
l0-Shown false last total = off l0 last total

l1-Shown :
    (active : Bool) (last total : ℕ)
    → Shown l1 (some (status_of active last total (active && (total == 0))))
unfolding status_badge wired_badge live_summary layer_detail_body wired_body
l1-Shown false last total = off l1 last total
l1-Shown true last total = elim (Bool-cases (total == 0)) [
  | inl e ↦ rw e (waiting last total (ground arith))
  | inr e ↦ rw e (live l1 last total)
]

-- The badge and the summary in the row of a layer and its detail page say the same: L1 waits while it is
-- enabled and has published nothing; else L0 and L1 show their cursor and their total while the task
-- runs, and are idle with the card on how to start them otherwise; L2 and L3 are planned for phase 4.
layer_detail_body-IsPage : (p : DataPipeline) (layer : Layer) → Shown layer (for_layer layer p)
unfolding status_badge live_summary layer_detail_body
layer_detail_body-IsPage p l0 =
    l0-Shown p.l0_demo_active p.l0_demo_last_tick_id p.l0_demo_total_ticks
layer_detail_body-IsPage p l1 =
    l1-Shown p.l1_opcua_active p.l1_opcua_last_tick_id p.l1_opcua_total_publishes
layer_detail_body-IsPage p l2 = roadmap l2
layer_detail_body-IsPage p l3 = roadmap l3

-- The code of a layer in a path is read as that layer.
from_str-code : (layer : Layer) → from_str (code layer) ≡ some layer
unfolding from_str
from_str-code l0 = refl
from_str-code l1 = refl
from_str-code l2 = refl
from_str-code l3 = refl
