-- ===== src/AddressSpace/Tree.antt =====
-- The nodes of crates/svdc-opcua/src/address_space.rs as a tree that one pass can build.
use svdc.Base.{
  ℕ, ◌+◌, ◌*◌, ◌≡◌, refl, List, [], ◌∷◌, ◌++◌, length, none, some, ◌⊎◌, inl, inr, arith,
  length-append,
}
use svdc.Base.Texts.{codes}
use svdc.AddressSpace.{
  MuFolderSpec, AddressSpaceNode, dotted, node, variables, channel_variables, status_variables,
  channel_browse, channel_nodes, mu_nodes, all_mu_nodes, build_nodes, VariableKind, folder, object,
}

-- a node is registered
abbrev pub Registered : List ℕ → List AddressSpaceNode → Type 0
Registered id [] = ⊥
Registered id (n ∷ seen) = (n.node_id ≡ id) ⊎ Registered id seen

-- a node that hangs below one that is registered, under its browse name
pub data Hangs (seen : List AddressSpaceNode) (n : AddressSpaceNode) : Type 0 where
  below :
      (p : List ℕ)
      → n.parent ≡ some p
      → n.node_id ≡ dotted p n.browse_name
      → Registered p seen
      → Hangs seen n

-- each node hangs below one that is registered before it
abbrev pub IsTree : List AddressSpaceNode → List AddressSpaceNode → Type 0
IsTree seen [] = Unit
IsTree seen (n ∷ nodes) = Hangs seen n × IsTree (n ∷ seen) nodes

-- the nodes registered after a pass
abbrev after : List AddressSpaceNode → List AddressSpaceNode → List AddressSpaceNode
after seen [] = seen
after seen (n ∷ nodes) = after (n ∷ seen) nodes

Registered-after :
    (id : List ℕ) (nodes seen : List AddressSpaceNode)
    → Registered id seen
    → Registered id (after seen nodes)
Registered-after id [] seen r = r
Registered-after id (n ∷ nodes) seen r = Registered-after id nodes (n ∷ seen) (inr r)

IsTree-append :
    (xs ys seen : List AddressSpaceNode)
    → IsTree seen xs
    → IsTree (after seen xs) ys
    → IsTree seen (xs ++ ys)
IsTree-append [] ys seen t u = u
IsTree-append (x ∷ xs) ys seen t u = (t.0, IsTree-append xs ys (x ∷ seen) (t.1) u)

variables-IsTree :
    (p : List ℕ) (vs : List (List ℕ × VariableKind)) (seen : List AddressSpaceNode)
    → Registered p seen
    → IsTree seen (variables p vs)
unfolding variables
variables-IsTree p [] seen r = tt
variables-IsTree p ((suffix, kind) ∷ vs) seen r =
    (below p refl refl r, variables-IsTree p vs _ (inr r))

channel_nodes-IsTree :
    (p : List ℕ) (idx : ℕ) (names : List (List ℕ)) (seen : List AddressSpaceNode)
    → Registered p seen
    → IsTree seen (channel_nodes p idx names)
unfolding channel_nodes
channel_nodes-IsTree p idx [] seen r = tt
channel_nodes-IsTree p idx (name ∷ names) seen r =
    let ch_id = dotted p (channel_browse idx name) in
    let vs = variables ch_id channel_variables in
    let seen' = node ch_id (channel_browse idx name) p object ∷ seen in
    (
      below p refl refl r,
      IsTree-append vs _ _ (variables-IsTree ch_id channel_variables _ (inl refl))
          (channel_nodes-IsTree p (idx + 1) names _ (Registered-after p vs seen' (inr r))),
    )

mu_nodes-IsTree :
    (p : List ℕ) (mu : MuFolderSpec) (seen : List AddressSpaceNode)
    → Registered p seen
    → IsTree seen (mu_nodes p mu)
unfolding mu_nodes
mu_nodes-IsTree p mu seen r =
    let mu_id = dotted p mu.sv_id in
    let registry_id = dotted mu_id (codes "ChannelRegistry") in
    let status_id = dotted mu_id (codes "TickStatus") in
    let channels = channel_nodes registry_id 0 mu.channel_names in
    let seen' =
      node registry_id (codes "ChannelRegistry") mu_id folder
      ∷ node mu_id mu.sv_id p object
      ∷ seen in
    (
      below p refl refl r,
      (
        below mu_id refl refl (inl refl),
        IsTree-append channels _ _
            (channel_nodes-IsTree registry_id 0 mu.channel_names _ (inl refl))
            (
              below mu_id refl refl (Registered-after mu_id channels seen' (inr (inl refl))),
              variables-IsTree status_id status_variables _ (inl refl),
            ),
      ),
    )

all_mu_nodes-IsTree :
    (p : List ℕ) (mus : List MuFolderSpec) (seen : List AddressSpaceNode)
    → Registered p seen
    → IsTree seen (all_mu_nodes p mus)
unfolding all_mu_nodes
all_mu_nodes-IsTree p [] seen r = tt
all_mu_nodes-IsTree p (mu ∷ mus) seen r =
    IsTree-append (mu_nodes p mu) _ seen (mu_nodes-IsTree p mu seen r)
      (all_mu_nodes-IsTree p mus _ (Registered-after p (mu_nodes p mu) seen r))

-- six nodes for a unit and six for each of its channels
abbrev pub nodes_of : List MuFolderSpec → ℕ
nodes_of [] = 0
nodes_of (mu ∷ mus) = 6 + 6 * length mu.channel_names + nodes_of mus

length-channel_nodes :
    (p : List ℕ) (idx : ℕ) (names : List (List ℕ))
    → length (channel_nodes p idx names) ≡ 6 * length names
unfolding channel_nodes variables
length-channel_nodes p idx [] = omega arith
length-channel_nodes p idx (name ∷ names) = omega (arith, length-channel_nodes p (idx + 1) names)

length-mu_nodes :
    (p : List ℕ) (mu : MuFolderSpec) → length (mu_nodes p mu) ≡ 6 + 6 * length mu.channel_names
unfolding mu_nodes variables
length-mu_nodes p mu =
    let mu_id = dotted p mu.sv_id in
    let status_id = dotted mu_id (codes "TickStatus") in
    let registry_id = dotted mu_id (codes "ChannelRegistry") in
    omega (
      arith,
      length-append {A = AddressSpaceNode} (channel_nodes registry_id 0 mu.channel_names)
          (node status_id (codes "TickStatus") mu_id folder ∷ variables status_id status_variables),
      length-channel_nodes registry_id 0 mu.channel_names,
    )

length-all_mu_nodes :
    (p : List ℕ) (mus : List MuFolderSpec) → length (all_mu_nodes p mus) ≡ nodes_of mus
unfolding all_mu_nodes
length-all_mu_nodes p [] = refl
length-all_mu_nodes p (mu ∷ mus) = omega (
  arith,
  length-append {A = AddressSpaceNode} (mu_nodes p mu) (all_mu_nodes p mus),
  length-mu_nodes p mu,
  length-all_mu_nodes p mus,
)

-- The first node is a root, and every later one hangs below a node that stands before it in the list,
-- under the identifier of that node, a dot and its own browse name; there are six nodes for each unit
-- and six for each channel, besides the two folders above.
pub build_nodes-IsTree :
    (substation : List ℕ) (mus : List MuFolderSpec)
    → (root : AddressSpaceNode) × (rest : List AddressSpaceNode) × (build_nodes substation mus
        ≡ root ∷ rest)
      × (root.parent ≡ none)
      × IsTree (root ∷ []) rest
      × (length rest ≡ 1 + nodes_of mus)
unfolding build_nodes
build_nodes-IsTree substation mus =
    let p = dotted (codes "s=Substations") substation in
    (
      _,
      _,
      refl,
      refl,
      (below (codes "s=Substations") refl refl (inl refl), all_mu_nodes-IsTree p mus _ (inl refl)),
      omega (arith, length-all_mu_nodes p mus),
    )
