-- ===== src/AddressSpace.antt =====
-- The nodes of the OPC UA server, crates/svdc-opcua/src/address_space.rs. A text is its bytes; the index
-- of a channel is a `usize`.
pub mod Tree
mod Tests
use svdc.Base.{ℕ, ◌+◌, ltb, if◌then◌else◌, List, [], ◌∷◌, ◌++◌, map, Option, none, some}
use svdc.Base.Texts.{codes, decimal}

abbrev pub reference_channels : List (List ℕ)
reference_channels =
    codes "Va"
    ∷ codes "Vb"
    ∷ codes "Vc"
    ∷ codes "Vn"
    ∷ codes "Ia"
    ∷ codes "Ib"
    ∷ codes "Ic"
    ∷ codes "In"
    ∷ []

pub record MuFolderSpec : Type 0 where
  pub sv_id : List ℕ
  pub channel_names : List (List ℕ)

abbrev pub reference : List ℕ → MuFolderSpec
reference sv_id = record { sv_id = sv_id; channel_names = reference_channels }

pub data VariableKind : Type 0 where
  inst_mag_i inst_mag_f quality time tick_id last_tick_id last_ts_utc_ns n_channels : VariableKind

pub data NodeKind : Type 0 where
  folder object : NodeKind
  variable : VariableKind → NodeKind

pub record AddressSpaceNode : Type 0 where
  pub node_id : List ℕ
  pub browse_name : List ℕ
  pub kind : NodeKind
  pub parent : Option (List ℕ)

-- `format!("{}.{}", parent, name)`
abbrev pub dotted : List ℕ → List ℕ → List ℕ
dotted parent name = parent ++ (b'.' ∷ name)

-- `{:02}`
abbrev pub two_digits : ℕ → List ℕ
two_digits n = if ltb n 10 then b'0' ∷ decimal n else decimal n

abbrev pub node : List ℕ → List ℕ → List ℕ → NodeKind → AddressSpaceNode
node node_id browse_name parent kind = record {
  node_id = node_id;
  browse_name = browse_name;
  kind = kind;
  parent = some parent;
}

-- the variables below one node
unfoldable pub variables : List ℕ → List (List ℕ × VariableKind) → List AddressSpaceNode
variables parent [] = []
variables parent ((suffix, kind) ∷ rest) =
    node (dotted parent suffix) suffix parent (variable kind) ∷ variables parent rest

abbrev pub channel_variables : List (List ℕ × VariableKind)
channel_variables =
    (codes "instMag.i", inst_mag_i)
    ∷ (codes "instMag.f", inst_mag_f)
    ∷ (codes "q", quality)
    ∷ (codes "t", time)
    ∷ (codes "tick_id", tick_id)
    ∷ []

abbrev pub status_variables : List (List ℕ × VariableKind)
status_variables =
    (codes "last_tick_id", last_tick_id)
    ∷ (codes "last_ts_utc_ns", last_ts_utc_ns)
    ∷ (codes "n_channels", n_channels)
    ∷ []

-- `Ch{:02}_{}`
unfoldable pub channel_browse : ℕ → List ℕ → List ℕ
unfolding decimal
channel_browse idx name = codes "Ch" ++ (two_digits idx ++ (b'_' ∷ name))

-- the loop over the channels from index `idx` on
unfoldable pub channel_nodes : List ℕ → ℕ → List (List ℕ) → List AddressSpaceNode
unfolding channel_browse variables
channel_nodes registry_id idx [] = []
channel_nodes registry_id idx (name ∷ names) =
    let ch_browse = channel_browse idx name in
    let ch_id = dotted registry_id ch_browse in
    node ch_id ch_browse registry_id object
    ∷ (variables ch_id channel_variables ++ channel_nodes registry_id (idx + 1) names)

unfoldable pub mu_nodes : List ℕ → MuFolderSpec → List AddressSpaceNode
unfolding channel_nodes variables
mu_nodes substation_id mu =
    let mu_id = dotted substation_id mu.sv_id in
    let registry_id = dotted mu_id (codes "ChannelRegistry") in
    let status_id = dotted mu_id (codes "TickStatus") in
    node mu_id mu.sv_id substation_id object
    ∷ node registry_id (codes "ChannelRegistry") mu_id folder
    ∷ (channel_nodes registry_id 0 mu.channel_names
        ++ (node status_id (codes "TickStatus") mu_id folder
            ∷ variables status_id status_variables))

-- the loop over the merging units
unfoldable pub all_mu_nodes : List ℕ → List MuFolderSpec → List AddressSpaceNode
unfolding mu_nodes
all_mu_nodes substation_id [] = []
all_mu_nodes substation_id (mu ∷ mus) = mu_nodes substation_id mu ++ all_mu_nodes substation_id mus

abbrev pub substations : List ℕ
substations = codes "Substations"

unfoldable pub build_nodes : List ℕ → List MuFolderSpec → List AddressSpaceNode
unfolding all_mu_nodes
build_nodes substation mus =
    let substations_id = codes "s=Substations" in
    let substation_id = dotted substations_id substation in
    record { node_id = substations_id; browse_name = substations; kind = folder; parent = none }
    ∷ node substation_id substation substations_id folder
    ∷ all_mu_nodes substation_id mus
