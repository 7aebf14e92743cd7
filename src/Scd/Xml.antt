-- ===== src/Scd/Xml.antt =====
-- What crates/svdc-console/src/scd/mod.rs uses of an XML document: the tree that the XML library
-- returns, with the accessors of its nodes.
use Prim.Native.String.{String}
use text.Mathlib.Text.{◌==◌ as str_eq}
use svdc.Base.{if◌then◌else◌, Bool, false, Option, none, some, List, [], ◌∷◌, ◌++◌, map}
use svdc.Base.Texts.{codes, lower, same_text}

mutual
  pub data Node : Type 0 where
    element : (name : String) (attributes : List (String × String)) (children : Nodes) → Node
    text_node : String → Node
    other : Node

  pub data Nodes : Type 0 where
    nil : Nodes
    cons : Node → Nodes → Nodes

unfoldable mutual
  pub descendants : Node → List Node
  descendants (element name attributes nodes) =
      element name attributes nodes ∷ all_descendants nodes
  descendants (text_node s) = text_node s ∷ []
  descendants other = other ∷ []

  pub all_descendants : Nodes → List Node
  all_descendants nil = []
  all_descendants (cons n nodes) = descendants n ++ all_descendants nodes

abbrev pub listed : Nodes → List Node
listed nil = []
listed (cons n nodes) = n ∷ listed nodes

abbrev pub children : Node → List Node
children (element name attributes nodes) = listed nodes
children (text_node s) = []
children other = []

abbrev pub attribute_in : String → List (String × String) → Option String
attribute_in key [] = none
attribute_in key ((k, v) ∷ attributes) =
    if str_eq k key then some v else attribute_in key attributes

abbrev pub attribute : String → Node → Option String
attribute key (element name attributes nodes) = attribute_in key attributes
attribute key (text_node s) = none
attribute key other = none

abbrev first_text : Nodes → Option String
first_text nil = none
first_text (cons (text_node s) nodes) = some s
first_text (cons (element name attributes inner) nodes) = none
first_text (cons other nodes) = none

abbrev pub text_of : Node → Option String
text_of (element name attributes nodes) = first_text nodes
text_of (text_node s) = some s
text_of other = none

-- `n.is_element() && n.tag_name().name().eq_ignore_ascii_case(name)`
unfoldable pub eq_local_name : Node → String → Bool
eq_local_name (element tag attributes nodes) name =
    same_text (map lower (codes tag)) (map lower (codes name))
eq_local_name (text_node s) name = false
eq_local_name other name = false

-- `.filter(|n| eq_local_name(*n, name))`
unfoldable pub named : String → List Node → List Node
unfolding eq_local_name
named name [] = []
named name (n ∷ nodes) =
    let rest = named name nodes in if eq_local_name n name then n ∷ rest else rest

abbrev pub first {ℓ} : {A : Type ℓ} → List A → Option A
first [] = none
first (x ∷ xs) = some x

abbrev pub unwrap_or {ℓ} : {A : Type ℓ} → Option A → A → A
unwrap_or none d = d
unwrap_or (some a) d = a
