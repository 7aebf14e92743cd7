-- ===== src/Dataplane.antt =====
-- The control state of `DataPipeline` in crates/svdc-console/src/dataplane/mod.rs: the tick buffer,
-- the running flags, the counters, the merging units seen and the vendor selected. Each method is one
-- step; the background task is Dataplane/Loop, and the historian file that `reset` removes is outside.
mod Tests
pub mod Tamper
pub mod Snapshot
pub mod Loop
pub mod Routes
pub mod EndToEnd
use svdc.Base.{
  ℕ, ◌+◌, ◌%◌, ◌^◌, Bool, true, false, List, [], ◌∷◌, map, length, set, ◌||◌, Option, none, some,
  Outcome, ok, err, if◌then◌else◌,
}
use svdc.Core.Tick
use svdc.Core.Tick.{TickRecord, IntegrityViolation, as_u8, live}
use svdc.Align.Buffer
use svdc.Align.Buffer.{TickBuffer}
use svdc.Base.Texts.{codes, same_text}
use svdc.Observe.{MuObservation, note_mu_observed}
use svdc.Vendor.{VendorProfile, lookup}

pub record DataPipeline : Type 0 where
  pub buffer : TickBuffer
  pub running : Bool
  pub ticks_emitted : ℕ
  pub tamper_count : ℕ
  pub last_violations : ℕ
  pub external_feed_active : Bool
  pub seen_mus : List MuObservation
  pub selected_vendor : Option VendorProfile
  pub l0_demo_active : Bool
  pub l0_demo_last_tick_id : ℕ
  pub l0_demo_total_ticks : ℕ
  pub l1_opcua_active : Bool
  pub l1_opcua_last_tick_id : ℕ
  pub l1_opcua_total_publishes : ℕ

abbrev pub demo_buffer_capacity : ℕ
demo_buffer_capacity = 256

abbrev pub new : DataPipeline
new = record {
  buffer = record { inner = []; capacity = demo_buffer_capacity };
  running = false;
  ticks_emitted = 0;
  tamper_count = 0;
  last_violations = 0;
  external_feed_active = false;
  seen_mus = [];
  selected_vendor = none;
  l0_demo_active = false;
  l0_demo_last_tick_id = 0;
  l0_demo_total_ticks = 0;
  l1_opcua_active = false;
  l1_opcua_last_tick_id = 0;
  l1_opcua_total_publishes = 0;
}

unfoldable pub mark_l0_demo_active : Bool → DataPipeline → DataPipeline
mark_l0_demo_active active p = record p { l0_demo_active = active }

unfoldable pub record_l0_demo_tick : ℕ → DataPipeline → DataPipeline
record_l0_demo_tick id p = record p {
  l0_demo_last_tick_id = id;
  l0_demo_total_ticks = (p.l0_demo_total_ticks + 1) % 2 ^ 64;
}

unfoldable pub mark_l1_opcua_active : Bool → DataPipeline → DataPipeline
mark_l1_opcua_active active p = record p { l1_opcua_active = active }

unfoldable pub record_l1_opcua_publish : ℕ → DataPipeline → DataPipeline
record_l1_opcua_publish id p = record p {
  l1_opcua_last_tick_id = id;
  l1_opcua_total_publishes = (p.l1_opcua_total_publishes + 1) % 2 ^ 64;
}

pub data VendorError : Type 0 where
  unknown_vendor_preset : VendorError

-- the preset that a name stands for
unfoldable pub found_vendor :
    Option VendorProfile → DataPipeline → Outcome VendorError (Unit {0}) × DataPipeline
found_vendor none p = (err unknown_vendor_preset, p)
found_vendor (some v) p = (ok tt, record p { selected_vendor = some v })

unfoldable pub set_vendor :
    Option (List ℕ) → DataPipeline → Outcome VendorError (Unit {0}) × DataPipeline
unfolding found_vendor
set_vendor none p = (ok tt, record p { selected_vendor = none })
set_vendor (some name) p =
    if same_text name [] || same_text name (codes "none")
    then (ok tt, record p { selected_vendor = none })
    else found_vendor (lookup name) p

unfoldable pub selected_vendor_name : DataPipeline → Option (List ℕ)
selected_vendor_name p = elim p.selected_vendor [ none ↦ none | some v ↦ some v.name ]

abbrev pub note_mu : ℕ → List ℕ → DataPipeline → DataPipeline
note_mu now sv_id p = record p { seen_mus = note_mu_observed now sv_id p.seen_mus }

abbrev pub clear_seen_mus : DataPipeline → DataPipeline
clear_seen_mus p = record p { seen_mus = [] }

pub data StartError : Type 0 where
  external_feed already_running : StartError

unfoldable pub start : DataPipeline → Outcome StartError (Unit {0}) × DataPipeline
start p =
    if p.external_feed_active
    then (err external_feed, p)
    else if p.running
    then (err already_running, p)
    else (ok tt, record p { running = true; ticks_emitted = 0 })

pub data StopError : Type 0 where
  not_running : StopError

unfoldable pub stop : DataPipeline → Outcome StopError (Unit {0}) × DataPipeline
stop p = if p.running then (ok tt, record p { running = false }) else (err not_running, p)

unfoldable pub mark_external_feed : Bool → DataPipeline → DataPipeline
mark_external_feed active p = record p { external_feed_active = active }

unfoldable pub record_external_tick : DataPipeline → DataPipeline
record_external_tick p = record p { ticks_emitted = (p.ticks_emitted + 1) % 2 ^ 64 }

-- the record that `inject_tamper` pushes, with a CRC that is wrong on purpose
unfoldable pub tampered : ℕ → ℕ → TickRecord
unfolding Tick.set_flag
tampered tick_id now =
    let bad = Tick.empty tick_id now in
    let bad = record bad { n_channels = 1 } in
    let bad = Tick.set_flag bad Tick.complete in
    record bad {
      samples =
          set bad.samples 0
            (record { value_q = 0xBAD_BAD; quality = 0; origin = as_u8 live; reserved = 0 });
      crc = 0xDEAD_BEEF;
    }

unfoldable pub inject_tamper : ℕ → DataPipeline → DataPipeline
unfolding tampered
inject_tamper now p =
    let tick_id = (p.ticks_emitted + 1_000_000_000) % 2 ^ 64 in
    record p {
      ticks_emitted = (p.ticks_emitted + 1) % 2 ^ 64;
      buffer = (Buffer.push p.buffer (tampered tick_id now)).1;
      tamper_count = (p.tamper_count + 1) % 2 ^ 64;
    }

-- `while self.buffer.pop().is_some() {}`, by the ticks left
unfoldable pub drain : List TickRecord → List TickRecord
drain [] = []
drain (tick ∷ rest) = drain rest

unfoldable pub reset : DataPipeline → DataPipeline
unfolding drain
reset p = record p {
  buffer = record p.buffer { inner = drain p.buffer.inner };
  ticks_emitted = 0;
  tamper_count = 0;
  last_violations = 0;
}

-- the sweep of `snapshot`: the state with the fresh count, and the ids reported
unfoldable pub sweep : DataPipeline → List ℕ × DataPipeline
unfolding Buffer.verify_all
sweep p =
    let violations = Buffer.verify_all p.buffer in
    (
      map (λ (v : IntegrityViolation). v.tick_id) violations,
      record p { last_violations = length violations },
    )
