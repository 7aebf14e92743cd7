-- ===== src/Server.antt =====
-- The publisher of the OPC UA server, crates/svdc-opcua/src/server.rs: the variables that it registers and
-- the updates that it pushes into them. The server itself is a library; a node identifier is its string,
-- the clock is an argument, and a float is its bits.
pub mod Updates
mod Tests
use svdc.Base.{
  ℕ, ◌+◌, ◌%◌, ◌^◌, ◌==◌, if◌then◌else◌, Bool, true, false, ◌&&◌, ◌||◌, Option, none, some, List,
  [], ◌∷◌, ◌++◌, get_elem?,
}
use svdc.Base.Texts.{codes, decimal, same_text}
use svdc.OpcUa.Quality.{iec61850_to_opcua_status, apply_origin_override}
use svdc.OpcUa.Timestamp.{utc_ns_to_opcua_ticks}
use svdc.AddressSpace.{
  MuFolderSpec, AddressSpaceNode, NodeKind, folder, object, variable, VariableKind, inst_mag_i,
  inst_mag_f, quality, time, tick_id, last_tick_id, last_ts_utc_ns, n_channels, two_digits,
  reference,
}

-- the raw value, the calibrated float, the quality byte and the origin byte
pub record SampleEntry : Type 0 where
  pub raw : ℕ
  pub calib : ℕ
  pub quality : ℕ
  pub origin : ℕ

pub record LatestTickSnapshot : Type 0 where
  pub tick_id : ℕ
  pub ts_utc_ns : ℕ
  pub n_channels : ℕ
  pub samples : List SampleEntry

-- `LatestTickSnapshot::default`, and what `clear` leaves
abbrev pub no_data : LatestTickSnapshot
no_data = record { tick_id = 0; ts_utc_ns = 0; n_channels = 0; samples = [] }

abbrev pub clear : LatestTickSnapshot → LatestTickSnapshot
clear snapshot = no_data

-- a value with its OPC UA type
pub data Variant : Type 0 where
  int32 float uint16 uint64 date_time : ℕ → Variant

-- `DataValue` as the code builds it: with a status and the two timestamps, or by `new_now`
pub data DataValue : Type 0 where
  stamped : (value : Variant) (status source_timestamp server_timestamp : ℕ) → DataValue
  new_now : (value : Variant) → DataValue

-- the first value of a variable, which has its type
unfoldable pub build_variable : VariableKind → Variant
build_variable inst_mag_i = int32 0
build_variable tick_id = int32 0
build_variable inst_mag_f = float 0
build_variable quality = uint16 0
build_variable time = date_time 0
build_variable last_tick_id = uint64 0
build_variable last_ts_utc_ns = uint64 0
build_variable n_channels = uint16 0

-- `DateTime::null()` and `0_f32` are the zeros above; a missing sample
abbrev pub missing : SampleEntry
missing = record { raw = 0; calib = 0; quality = 0; origin = 1 }

abbrev pub or_missing : Option SampleEntry → SampleEntry
or_missing none = missing
or_missing (some s) = s

-- the five updates of one channel
unfoldable pub channel_update :
    (server_ts source_ts tick : ℕ) → List ℕ → SampleEntry → List (List ℕ × DataValue)
unfolding iec61850_to_opcua_status apply_origin_override
channel_update server_ts source_ts tick ch_prefix s =
    let status = apply_origin_override (iec61850_to_opcua_status s.quality) s.origin in
    (ch_prefix ++ codes ".instMag.i", stamped (int32 s.raw) status source_ts server_ts)
    ∷ (ch_prefix ++ codes ".instMag.f", stamped (float s.calib) status source_ts server_ts)
    ∷ (ch_prefix ++ codes ".q", new_now (uint16 s.quality))
    ∷ (ch_prefix ++ codes ".t", new_now (date_time source_ts))
    ∷ (ch_prefix ++ codes ".tick_id", new_now (int32 (tick % 2 ^ 32)))
    ∷ []

-- `format!("{}.Ch{:02}_{}", registry_prefix, idx, name)`
abbrev pub ch_prefix : List ℕ → ℕ → List ℕ → List ℕ
ch_prefix registry_prefix idx name =
    registry_prefix ++ (codes ".Ch" ++ (two_digits idx ++ (b'_' ∷ name)))

-- the loop over the channels from index `idx` on
unfoldable pub channel_updates :
    (server_ts source_ts : ℕ)
    → LatestTickSnapshot
    → List ℕ
    → ℕ
    → List (List ℕ)
    → List (List ℕ × DataValue)
unfolding channel_update
channel_updates server_ts source_ts snapshot registry_prefix idx [] = []
channel_updates server_ts source_ts snapshot registry_prefix idx (name ∷ names) =
    channel_update server_ts source_ts snapshot.tick_id (ch_prefix registry_prefix idx name)
      (or_missing (get_elem? snapshot.samples idx))
    ++ channel_updates server_ts source_ts snapshot registry_prefix (idx + 1) names

-- the three updates of a unit's status
unfoldable pub status_updates : LatestTickSnapshot → List ℕ → List (List ℕ × DataValue)
status_updates snapshot status_prefix =
    (status_prefix ++ codes ".last_tick_id", new_now (uint64 snapshot.tick_id))
    ∷ (status_prefix ++ codes ".last_ts_utc_ns", new_now (uint64 snapshot.ts_utc_ns))
    ∷ (status_prefix ++ codes ".n_channels", new_now (uint16 snapshot.n_channels))
    ∷ []

-- the loop over the merging units
unfoldable pub unit_updates :
    (server_ts source_ts : ℕ) → LatestTickSnapshot → List MuFolderSpec → List (List ℕ × DataValue)
unfolding channel_updates status_updates
unit_updates server_ts source_ts snapshot [] = []
unit_updates server_ts source_ts snapshot (mu ∷ mus) =
    channel_updates server_ts source_ts snapshot
      (codes "s=Substations.Demo." ++ (mu.sv_id ++ codes ".ChannelRegistry")) 0 mu.channel_names
    ++ (status_updates snapshot (codes "s=Substations.Demo." ++ (mu.sv_id ++ codes ".TickStatus"))
        ++ unit_updates server_ts source_ts snapshot mus)

unfoldable pub build_updates :
    ℕ → List MuFolderSpec → LatestTickSnapshot → List (List ℕ × DataValue)
unfolding unit_updates utc_ns_to_opcua_ticks
build_updates now mu_specs snapshot =
    unit_updates now (utc_ns_to_opcua_ticks snapshot.ts_utc_ns) snapshot mu_specs

abbrev is_empty : List SampleEntry → Bool
is_empty [] = true
is_empty (s ∷ samples) = false

-- one round of the publisher: nothing is pushed before the first snapshot
unfoldable pub publish : ℕ → List MuFolderSpec → LatestTickSnapshot → List (List ℕ × DataValue)
unfolding build_updates
publish now mu_specs snapshot =
    if (snapshot.tick_id == 0) && is_empty snapshot.samples
    then []
    else build_updates now mu_specs snapshot

-- the library's address space: the identifiers that it has, and its variables with their first values
pub record NodeSpace : Type 0 where
  pub ids : List (List ℕ)
  pub initial_values : List (List ℕ × Variant)

abbrev pub no_nodes : NodeSpace
no_nodes = record { ids = []; initial_values = [] }

unfoldable pub has_id : List ℕ → List (List ℕ) → Bool
has_id id [] = false
has_id id (j ∷ ids) = same_text id j || has_id id ids

-- a folder and an object hold no value
unfoldable pub declared : NodeKind → List ℕ → List (List ℕ × Variant)
unfolding build_variable
declared folder node_id = []
declared object node_id = []
declared (variable kind) node_id = (node_id, build_variable kind) ∷ []

-- `add_folder` and `add_variables`, which refuse an identifier that is taken; their results are ignored
unfoldable pub register : AddressSpaceNode → NodeSpace → NodeSpace
unfolding declared has_id
register n space = if has_id n.node_id space.ids then space else record {
  ids = n.node_id ∷ space.ids;
  initial_values = space.initial_values ++ declared n.kind n.node_id;
}

unfoldable pub populate_address_space : List AddressSpaceNode → NodeSpace → NodeSpace
unfolding register
populate_address_space [] space = space
populate_address_space (n ∷ nodes) space = populate_address_space nodes (register n space)
