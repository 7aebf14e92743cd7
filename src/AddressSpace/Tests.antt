-- ===== src/AddressSpace/Tests.antt =====
-- The nodes of one merging unit with two channels.
use svdc.Base.{◌+◌, ◌≡◌, refl, List, [], ◌∷◌, map, length, none}
use svdc.Base.Texts.{codes, decimal}
use svdc.AddressSpace.{MuFolderSpec, AddressSpaceNode, build_nodes}
use svdc.AddressSpace.Tree.{IsTree, nodes_of, build_nodes-IsTree}

abbrev unit_a : MuFolderSpec
unit_a = record { sv_id = codes "MU-A"; channel_names = codes "Va" ∷ codes "Ia" ∷ [] }

empty_substation :
    map (λ (n : AddressSpaceNode). n.node_id) (build_nodes (codes "Demo") [])
    ≡ (codes "s=Substations" ∷ codes "s=Substations.Demo" ∷ [])
unfolding build_nodes
empty_substation = refl

sample_rate_digits : decimal 4800 ≡ codes "4800"
unfolding decimal
sample_rate_digits = refl

build_nodes-IsTree_example :
    (root : AddressSpaceNode) × (rest : List AddressSpaceNode) × (build_nodes
        (codes "Demo")
        (unit_a ∷ [])
      ≡ root ∷ rest)
    × (root.parent ≡ none)
    × IsTree (root ∷ []) rest
    × (length rest ≡ 1 + nodes_of (unit_a ∷ []))
build_nodes-IsTree_example = build_nodes-IsTree (codes "Demo") (unit_a ∷ [])
