-- ===== src/Northbound.antt =====
-- The northbound pages of crates/svdc-console/src/routes/northbound.rs: which badge, counters and card
-- each layer shows, by the state of the data plane. The layout and the fixed texts are left out.
-- Northbound/Tasks has the two tasks of crates/svdc-bin/src/main.rs that the pages report on.
pub mod Tasks
pub mod Drained
pub mod Bridged
pub mod Pages
mod Tests
use svdc.Base.{
  ℕ, ◌==◌, if◌then◌else◌, Bool, true, false, ◌&&◌, ◌||◌, Option, none, some, List, [], ◌∷◌,
}
use svdc.Base.Texts.{codes, same_text}
use svdc.Dataplane.{DataPipeline}

pub data Layer : Type 0 where
  l0 l1 l2 l3 : Layer

unfoldable pub from_str : List ℕ → Option Layer
from_str s =
    if same_text s (codes "L0") || same_text s (codes "l0")
    then some l0
    else if same_text s (codes "L1") || same_text s (codes "l1")
    then some l1
    else if same_text s (codes "L2") || same_text s (codes "l2")
    then some l2
    else if same_text s (codes "L3") || same_text s (codes "l3")
    then some l3
    else none

abbrev pub all : List Layer
all = l0 ∷ l1 ∷ l2 ∷ l3 ∷ []

abbrev pub code : Layer → List ℕ
code l0 = codes "L0"
code l1 = codes "L1"
code l2 = codes "L2"
code l3 = codes "L3"

pub data Maturity : Type 0 where
  wired : Maturity
  planned : (phase : ℕ) → Maturity

abbrev pub maturity : Layer → Maturity
maturity l0 = wired
maturity l1 = wired
maturity l2 = planned 4
maturity l3 = planned 4

pub record LiveStatus : Type 0 where
  pub active : Bool
  pub last_tick_id : ℕ
  pub total_count : ℕ
  pub is_stub : Bool

abbrev pub l0_from_pipeline : DataPipeline → LiveStatus
l0_from_pipeline p = record {
  active = p.l0_demo_active;
  last_tick_id = p.l0_demo_last_tick_id;
  total_count = p.l0_demo_total_ticks;
  is_stub = false;
}

abbrev pub l1_from_pipeline : DataPipeline → LiveStatus
l1_from_pipeline p = record {
  active = p.l1_opcua_active;
  last_tick_id = p.l1_opcua_last_tick_id;
  total_count = p.l1_opcua_total_publishes;
  is_stub = p.l1_opcua_active && (p.l1_opcua_total_publishes == 0);
}

abbrev pub for_layer : Layer → DataPipeline → Option LiveStatus
for_layer l0 p = some (l0_from_pipeline p)
for_layer l1 p = some (l1_from_pipeline p)
for_layer l2 p = none
for_layer l3 p = none

-- `Wired · stub mode`, `Wired · running`, `Wired · not started` and `Planned (Phase …)`
pub data Badge : Type 0 where
  stub_mode running not_started : Badge
  planned_phase : (phase : ℕ) → Badge

-- the badge of a wired layer
unfoldable pub wired_badge : Option LiveStatus → Badge
wired_badge none = not_started
wired_badge (some s) = if s.is_stub then stub_mode else if s.active then running else not_started

unfoldable pub status_badge : Layer → Option LiveStatus → Badge
unfolding wired_badge
status_badge layer status = elim (maturity layer) [
  | wired ↦ wired_badge status
  | planned phase ↦ planned_phase phase
]

abbrev pub work_unit_label : Layer → List ℕ
work_unit_label l0 = codes "drained"
work_unit_label l1 = codes "published"
work_unit_label l2 = []
work_unit_label l3 = []

-- `stub · no publishes`, the cursor and the total with its unit, `idle` and `—`
pub data Summary : Type 0 where
  no_publishes idle dash : Summary
  cursor : (last_tick_id total_count : ℕ) (unit : List ℕ) → Summary

-- the last two cases
abbrev idle_or_dash : Layer → Summary
idle_or_dash l0 = idle
idle_or_dash l1 = idle
idle_or_dash l2 = dash
idle_or_dash l3 = dash

unfoldable pub live_summary : Layer → Option LiveStatus → Summary
live_summary layer none = idle_or_dash layer
live_summary layer (some s) =
    if s.is_stub
    then no_publishes
    else if s.active
    then cursor s.last_tick_id s.total_count (work_unit_label layer)
    else idle_or_dash layer

-- the card below the table
pub data Card : Type 0 where
  no_traffic activation no_card : Card

abbrev pub is_l1 : Layer → Bool
is_l1 l0 = false
is_l1 l1 = true
is_l1 l2 = false
is_l1 l3 = false

-- the detail page of a wired layer: the cell of the last tick is empty without one
pub record WiredBody : Type 0 where
  pub badge : Badge
  pub last_tick : Option ℕ
  pub total : ℕ
  pub card : Card
  pub verification : Bool

unfoldable pub wired_body : Layer → LiveStatus → WiredBody
unfolding status_badge
wired_body layer status = record {
  badge = status_badge layer (some status);
  last_tick =
      if status.active && (if status.is_stub then false else true)
      then some status.last_tick_id
      else none;
  total = status.total_count;
  card =
      if status.is_stub
      then no_traffic
      else if (if status.active then false else true)
      then activation
      else no_card;
  verification = is_l1 layer;
}

pub data Detail : Type 0 where
  wired_detail : WiredBody → Detail
  planned_detail : (phase : ℕ) → Detail

-- `status.unwrap_or(…)`
abbrev status_or_zero : Option LiveStatus → LiveStatus
status_or_zero none = record { active = false; last_tick_id = 0; total_count = 0; is_stub = false }
status_or_zero (some s) = s

unfoldable pub layer_detail_body : Layer → Option LiveStatus → Detail
unfolding wired_body
layer_detail_body layer status = elim (maturity layer) [
  | wired ↦ wired_detail (wired_body layer (status_or_zero status))
  | planned phase ↦ planned_detail phase
]
