-- ===== src/Server/Tests.antt =====
-- The updates of crates/svdc-opcua/src/server.rs for one unit with two channels.
use svdc.Base.{◌≡◌, refl, [], ◌∷◌, map, none, true}
use svdc.Base.Texts.{codes}
use svdc.AddressSpace.{MuFolderSpec, AddressSpaceNode, node, variable, quality, build_nodes}
use svdc.Server.{
  LatestTickSnapshot, no_data, or_missing, channel_updates, no_nodes, has_id,
  populate_address_space, build_updates, publish,
}
use svdc.Server.Updates.{pushed, registered, all_new, build_updates-registered}

abbrev unit_a : MuFolderSpec
unit_a = record { sv_id = codes "MU-A"; channel_names = codes "Va" ∷ codes "Ia" ∷ [] }

-- a tick with a sample for the first channel alone
abbrev one_sample : LatestTickSnapshot
one_sample = record {
  tick_id = 7;
  ts_utc_ns = 1_000;
  n_channels = 1;
  samples = record { raw = 5; calib = 1; quality = 0; origin = 1 } ∷ [];
}

-- nothing is pushed before the first tick
publish_empty : publish 0 (unit_a ∷ []) no_data ≡ []
unfolding publish
publish_empty = refl

-- the second channel, which has no sample, is published as a good zero
channel_without_sample :
    channel_updates 9 8 one_sample (codes "R") 1 (codes "Ia" ∷ [])
    ≡ channel_updates 9 8
        (record one_sample {
          samples = or_missing none ∷ record { raw = 0; calib = 0; quality = 0; origin = 1 } ∷ [];
        })
        (codes "R")
        1
        (codes "Ia" ∷ [])
unfolding channel_updates
channel_without_sample = refl

unit_a-all_new : all_new [] (build_nodes (codes "Demo") (unit_a ∷ [])) ≡ true
unfolding build_nodes has_id
unit_a-all_new = refl

-- a second variable under the same identifier is left out
abbrev quality_node : AddressSpaceNode
quality_node = node (codes "X.q") (codes "q") (codes "X") (variable quality)

taken_id :
    populate_address_space (quality_node ∷ quality_node ∷ []) no_nodes
    ≡ populate_address_space (quality_node ∷ []) no_nodes
unfolding populate_address_space
taken_id = refl

build_updates-registered_example :
    map pushed (build_updates 9 (unit_a ∷ []) one_sample)
    ≡ map registered
        (populate_address_space (build_nodes (codes "Demo") (unit_a ∷ [])) no_nodes).initial_values
build_updates-registered_example =
    build_updates-registered 9 (unit_a ∷ []) one_sample unit_a-all_new
