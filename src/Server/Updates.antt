-- ===== src/Server/Updates.antt =====
-- The updates of crates/svdc-opcua/src/server.rs against the variables of its address space.
use mathlib.Core.Bool.{true≢false}
use svdc.Base.{
  ℕ, Bool, true, false, Bool-cases, if◌then◌else◌, inl, inr, append-nil, ◌+◌, List, [], ◌∷◌, ◌++◌,
  ◌≡◌, refl, sym, ap, ◌∙◌, map, map-append, append_assoc,
}
use svdc.Base.Texts.{codes}
use svdc.AddressSpace.{
  MuFolderSpec, AddressSpaceNode, folder, node, variables, status_variables, channel_browse,
  channel_nodes, mu_nodes, all_mu_nodes, build_nodes,
}
use svdc.Server.{
  LatestTickSnapshot, Variant, int32, float, uint16, uint64, date_time, DataValue, stamped, new_now,
  build_variable, channel_update, channel_updates, status_updates, unit_updates, build_updates,
  has_id, declared, NodeSpace, no_nodes, register, populate_address_space,
}

-- the OPC UA types of values
pub data Scalar : Type 0 where
  int32_type float_type uint16_type uint64_type date_time_type : Scalar

abbrev pub type_of : Variant → Scalar
type_of (int32 v) = int32_type
type_of (float v) = float_type
type_of (uint16 v) = uint16_type
type_of (uint64 v) = uint64_type
type_of (date_time v) = date_time_type

abbrev pub value_of : DataValue → Variant
value_of (stamped value status source_timestamp server_timestamp) = value
value_of (new_now value) = value

-- the identifier and the type that an update has
abbrev pub pushed : List ℕ × DataValue → List ℕ × Scalar
pushed (id, d) = (id, type_of (value_of d))

-- the identifier and the type that a variable was registered with
abbrev pub registered : List ℕ × Variant → List ℕ × Scalar
registered (id, v) = (id, type_of v)

-- the variables of nodes that are all added
declared_all : List AddressSpaceNode → List (List ℕ × Variant)
declared_all [] = []
declared_all (n ∷ nodes) = declared n.kind n.node_id ++ declared_all nodes

declared_all-append :
    (xs ys : List AddressSpaceNode) → declared_all (xs ++ ys) ≡ declared_all xs ++ declared_all ys
unfolding declared_all
declared_all-append [] ys = refl
declared_all-append (n ∷ xs) ys =
    ap (λ vs. declared n.kind n.node_id ++ vs) (declared_all-append xs ys)
    ∙ sym (append_assoc (declared n.kind n.node_id) (declared_all xs) (declared_all ys))

-- no identifier is one of `ids` or of those before it
abbrev pub all_new : List (List ℕ) → List AddressSpaceNode → Bool
all_new ids [] = true
all_new ids (n ∷ nodes) =
    let rest = all_new (n.node_id ∷ ids) nodes in if has_id n.node_id ids then false else rest

-- the space with one more node
abbrev with_node : AddressSpaceNode → NodeSpace → NodeSpace
with_node n space = record {
  ids = n.node_id ∷ space.ids;
  initial_values = space.initial_values ++ declared n.kind n.node_id;
}

register-new :
    (n : AddressSpaceNode) (space : NodeSpace)
    → has_id n.node_id space.ids ≡ false
    → register n space ≡ with_node n space
unfolding register
register-new n space e = rw e refl

populate-all_new :
    (nodes : List AddressSpaceNode) (space : NodeSpace)
    → all_new space.ids nodes ≡ true
    → (populate_address_space nodes space).initial_values
      ≡ space.initial_values ++ declared_all nodes
unfolding populate_address_space declared_all
populate-all_new [] space new = sym (append-nil space.initial_values)
populate-all_new (n ∷ nodes) space new = elim (Bool-cases (has_id n.node_id space.ids)) [
  | inl e ↦ absurd (true≢false (sym (rw e at new)))
  | inr e ↦
      ap (λ (next : NodeSpace). (populate_address_space nodes next).initial_values)
        (register-new n space e)
      ∙ populate-all_new nodes (with_node n space) (rw e at new)
      ∙ append_assoc space.initial_values (declared n.kind n.node_id) (declared_all nodes)
]

channel_updates-registered :
    (now ts idx : ℕ) (s : LatestTickSnapshot) (id : List ℕ) (names : List (List ℕ))
    → map pushed (channel_updates now ts s id idx names)
      ≡ map registered (declared_all (channel_nodes id idx names))
unfolding channel_updates channel_update declared_all declared build_variable channel_nodes
    variables channel_browse
channel_updates-registered now ts idx s id [] = refl
channel_updates-registered now ts idx s id (name ∷ names) =
    let rest = channel_updates-registered now ts (idx + 1) s id names in rw rest refl

unit_updates-registered :
    (now ts : ℕ) (s : LatestTickSnapshot) (mus : List MuFolderSpec)
    → map pushed (unit_updates now ts s mus)
      ≡ map registered (declared_all (all_mu_nodes (codes "s=Substations.Demo") mus))
unfolding unit_updates status_updates declared_all declared build_variable variables mu_nodes
    all_mu_nodes
unit_updates-registered now ts s [] = refl
unit_updates-registered now ts s (mu ∷ mus) =
    let registry_id = codes "s=Substations.Demo." ++ (mu.sv_id ++ codes ".ChannelRegistry") in
    let status_id = codes "s=Substations.Demo." ++ (mu.sv_id ++ codes ".TickStatus") in
    let channels = channel_nodes registry_id 0 mu.channel_names in
    let status =
      node status_id (codes "TickStatus") (codes "s=Substations.Demo." ++ mu.sv_id) folder
      ∷ variables status_id status_variables in
    let later = all_mu_nodes (codes "s=Substations.Demo") mus in
    let left : map pushed (unit_updates now ts s (mu ∷ mus))
        ≡ map registered (declared_all channels)
          ++ map pushed (status_updates s status_id ++ unit_updates now ts s mus) =
      map-append pushed (channel_updates now ts s registry_id 0 mu.channel_names)
        (status_updates s status_id ++ unit_updates now ts s mus)
      ∙ ap (λ us. us ++ map pushed (status_updates s status_id ++ unit_updates now ts s mus))
          (channel_updates-registered now ts 0 s registry_id mu.channel_names) in
    let right : map registered (declared_all (all_mu_nodes (codes "s=Substations.Demo") (mu ∷ mus)))
        ≡ map registered (declared_all channels)
          ++ map registered (declared_all (status ++ later)) =
      ap (λ ns. map registered (declared_all ns)) (append_assoc channels status later)
      ∙ ap (map registered) (declared_all-append channels (status ++ later))
      ∙ map-append registered (declared_all channels) (declared_all (status ++ later)) in
    let tail : map pushed (status_updates s status_id ++ unit_updates now ts s mus)
        ≡ map registered (declared_all (status ++ later)) =
      rw (unit_updates-registered now ts s mus) refl in
    left ∙ ap (λ us. map registered (declared_all channels) ++ us) tail ∙ sym right

-- Under the substation Demo and when no two nodes have the same identifier, the updates that the publisher
-- pushes for any snapshot are, one for one and in order, the variables that the server has registered: each
-- variable is updated once, under its identifier and with a value of the type that it was
-- registered with, and nothing else is updated. The variable `tick_id` of a channel is an Int32 in both.
pub build_updates-registered :
    (now : ℕ) (mus : List MuFolderSpec) (s : LatestTickSnapshot)
    → all_new [] (build_nodes (codes "Demo") mus) ≡ true
    → map pushed (build_updates now mus s)
      ≡ map registered
          (populate_address_space (build_nodes (codes "Demo") mus) no_nodes).initial_values
unfolding build_updates declared_all declared build_nodes
build_updates-registered now mus s new =
    unit_updates-registered now _ s mus
    ∙ ap (map registered) (sym (populate-all_new (build_nodes (codes "Demo") mus) no_nodes new))
