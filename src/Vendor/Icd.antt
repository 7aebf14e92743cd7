-- ===== src/Vendor/Icd.antt =====
-- The loader of crates/ssiec-sv-publisher/src/vendor_loader.rs, over the tree of the document that the XML
-- library returns.
use Prim.Native.String.{String}
use text.Mathlib.Text.{◌==◌ as str_eq}
use svdc.Base.{
  ℕ, ◌^◌, bit_and, ◌==◌, if◌then◌else◌, Bool, true, false, ◌||◌, Option, none, some, List, [], ◌∷◌,
  map, drop, length, Outcome, ok, err, ◌>>=◌,
}
use svdc.Base.Texts.{codes, starts}
use svdc.Scd.Xml.{
  Node, element, text_node, other, descendants, children, attribute, text_of, first, unwrap_or,
}
use svdc.Scd.Numbers.{from_str_radix, trim}
use svdc.Wire.Frame.{VlanTag}
use svdc.Vendor.{VendorProfile, process_bus}

pub data LoadError : Type 0 where
  io : LoadError
  xml : LoadError
  no_sampled_value_control : LoadError
  missing_attribute : String → LoadError
  bad_value : (field : String) (text : List ℕ) → LoadError

-- the two variables that the loader changes; a `BTreeSet` is the list of its elements, whose order
-- nothing reads
pub record Merge : Type 0 where
  pub profile : VendorProfile
  pub overridden : List String

pub record LoadedProfile : Type 0 where
  pub profile : VendorProfile
  pub manufacturer : Option String
  pub overridden : List String

unfoldable pub in_set : String → List String → Bool
in_set field [] = false
in_set field (f ∷ fields) = str_eq f field || in_set field fields

-- `overridden.insert(field)`
unfoldable pub insert : String → List String → List String
unfolding in_set
insert field fields = if in_set field fields then fields else field ∷ fields

-- `has_tag_name` with a local name
abbrev pub has_tag_name : Node → String → Bool
has_tag_name (element tag attributes nodes) name = str_eq tag name
has_tag_name (text_node s) name = false
has_tag_name other name = false

unfoldable pub tagged : String → List Node → List Node
tagged name [] = []
tagged name (n ∷ nodes) =
    let rest = tagged name nodes in if has_tag_name n name then n ∷ rest else rest

-- `map_err` to a bad value
unfoldable pub or_bad_value : {A : Type 0} → String → List ℕ → Option A → Outcome LoadError A
or_bad_value field text none = err (bad_value field text)
or_bad_value field text (some v) = ok v

unfoldable pub parse_u32 : List ℕ → String → Outcome LoadError ℕ
unfolding or_bad_value
parse_u32 s field = or_bad_value field s (from_str_radix 10 (2 ^ 32) (trim s))

unfoldable pub parse_u8 : List ℕ → String → Outcome LoadError ℕ
unfolding or_bad_value
parse_u8 s field = or_bad_value field s (from_str_radix 10 (2 ^ 8) (trim s))

-- of a text without its white space: after `0x` hexadecimal, else decimal
unfoldable pub trimmed_u16 : List ℕ → String → Outcome LoadError ℕ
unfolding or_bad_value
trimmed_u16 s field =
    if starts s (codes "0x") || starts s (codes "0X")
    then or_bad_value field s (from_str_radix 16 (2 ^ 16) (drop 2 s))
    else or_bad_value field s (from_str_radix 10 (2 ^ 16) s)

unfoldable pub parse_u16_hex : List ℕ → String → Outcome LoadError ℕ
parse_u16_hex s field = trimmed_u16 (trim s) field

unfoldable pub push_front : ℕ → List (List ℕ) → List (List ℕ)
push_front c [] = (c ∷ []) ∷ []
push_front c (p ∷ ps) = (c ∷ p) ∷ ps

-- `s.split(['-', ':'])`
unfoldable pub split : List ℕ → List (List ℕ)
unfolding push_front
split [] = [] ∷ []
split (c ∷ cs) =
    let rest = split cs in if (c == b'-') || (c == b':') then [] ∷ rest else push_front c rest

abbrev keep_piece : List ℕ → List (List ℕ) → List (List ℕ)
keep_piece [] pieces = pieces
keep_piece (c ∷ cs) pieces = (c ∷ cs) ∷ pieces

-- `.filter(|p| !p.is_empty())`
unfoldable pub not_empty : List (List ℕ) → List (List ℕ)
not_empty [] = []
not_empty (p ∷ ps) = keep_piece p (not_empty ps)

-- the loop over the pieces, for a whole text `s`
unfoldable pub octets_of : List ℕ → List (List ℕ) → Outcome LoadError (List ℕ)
unfolding or_bad_value
octets_of s [] = ok []
octets_of s (b ∷ bs) = do
  o ← or_bad_value "MAC-Address" s (from_str_radix 16 256 b)
  os ← octets_of s bs
  ok (o ∷ os)

unfoldable pub parse_mac : List ℕ → Outcome LoadError (List ℕ)
unfolding split not_empty octets_of
parse_mac s =
    let bytes = not_empty (map trim (split s)) in
    if length bytes == 6 then octets_of s bytes else err (bad_value "MAC-Address" s)

unfoldable pub set_svid : Option String → Merge → Merge
unfolding insert
set_svid none m = m
set_svid (some s) m = record {
  profile = record (m.profile) { svid_template = codes s };
  overridden = insert "svid_template" m.overridden;
}

unfoldable pub set_conf_rev : Option String → Merge → Outcome LoadError Merge
unfolding parse_u32 insert
set_conf_rev none m = ok m
set_conf_rev (some s) m = do
  v ← parse_u32 (codes s) "confRev"
  ok (record {
    profile = record (m.profile) { default_conf_rev = v };
    overridden = insert "default_conf_rev" m.overridden;
  })

unfoldable pub set_rate : Option String → Merge → Outcome LoadError Merge
unfolding parse_u32 insert
set_rate none m = ok m
set_rate (some s) m = do
  v ← parse_u32 (codes s) "smpRate"
  ok (record {
    profile = record (m.profile) { default_smp_rate_hz = v };
    overridden = insert "default_smp_rate_hz" m.overridden;
  })

-- the variables of the loop over the parameters of an address
pub record Address : Type 0 where
  pub merge : Merge
  pub vlan_id : Option ℕ
  pub vlan_pri : Option ℕ

unfoldable pub set_appid : List ℕ → Address → Outcome LoadError Address
unfolding parse_u16_hex insert
set_appid text a = do
  v ← parse_u16_hex text "APPID"
  ok (record a {
    merge = record {
      profile = record (a.merge.profile) { default_appid = v };
      overridden = insert "default_appid" a.merge.overridden;
    };
  })

unfoldable pub set_mac : List ℕ → Address → Outcome LoadError Address
unfolding parse_mac insert
set_mac text a = do
  mac ← parse_mac text
  ok (record a {
    merge = record {
      profile = record (a.merge.profile) { multicast_mac = mac };
      overridden = insert "multicast_mac" a.merge.overridden;
    };
  })

unfoldable pub set_vlan_id : List ℕ → Address → Outcome LoadError Address
unfolding parse_u16_hex
set_vlan_id text a = do
  vid ← parse_u16_hex text "VLAN-ID"
  ok (record a { vlan_id = some (bit_and vid 0x0FFF) })

unfoldable pub set_vlan_pri : List ℕ → Address → Outcome LoadError Address
unfolding parse_u8
set_vlan_pri text a = do
  pcp ← parse_u8 text "VLAN-PRIORITY"
  ok (record a { vlan_pri = some (bit_and pcp 0x7) })

-- one `P` element: its type, and its text without white space
unfoldable pub set_parameter : String → List ℕ → Address → Outcome LoadError Address
unfolding set_appid set_mac set_vlan_id set_vlan_pri
set_parameter kind text a =
    if str_eq kind "APPID"
    then set_appid text a
    else if str_eq kind "MAC-Address"
    then set_mac text a
    else if str_eq kind "VLAN-ID"
    then set_vlan_id text a
    else if str_eq kind "VLAN-PRIORITY"
    then set_vlan_pri text a
    else ok a

unfoldable pub set_parameters : List Node → Address → Outcome LoadError Address
unfolding set_parameter
set_parameters [] a = ok a
set_parameters (p ∷ ps) a = do
  a' ← set_parameter (unwrap_or (attribute "type" p) "") (trim (codes (unwrap_or (text_of p) ""))) a
  set_parameters ps a'

abbrev pub is_given : Option ℕ → Bool
is_given none = false
is_given (some v) = true

unfoldable pub set_tag : VlanTag → Merge → Merge
unfolding insert
set_tag tag m = record {
  profile = record (m.profile) { vlan = some tag };
  overridden = insert "vlan" m.overridden;
}

unfoldable pub set_vlan : Address → Merge
unfolding set_tag process_bus
set_vlan a =
    let existing = unwrap_or a.merge.profile.vlan (process_bus 0) in
    let tag : VlanTag = record {
      pcp = unwrap_or a.vlan_pri existing.pcp;
      dei = 0;
      vid = unwrap_or a.vlan_id existing.vid;
    } in
    if is_given a.vlan_id || is_given a.vlan_pri then set_tag tag a.merge else a.merge

unfoldable pub with_address : Option Node → Merge → Outcome LoadError Merge
unfolding tagged set_parameters set_vlan
with_address none m = ok m
with_address (some address) m = do
  a ←
      set_parameters (tagged "P" (children address))
        (record { merge = m; vlan_id = none; vlan_pri = none })
  ok (set_vlan a)

unfoldable pub with_smv : Option Node → Merge → Outcome LoadError Merge
unfolding tagged with_address
with_smv none m = ok m
with_smv (some smv) m = with_address (first (tagged "Address" (children smv))) m

-- the attributes of the control block, then the address of the first `SMV`
unfoldable pub merged : Option Node → Node → VendorProfile → Outcome LoadError Merge
unfolding set_svid set_conf_rev set_rate with_smv tagged
merged none root base = err no_sampled_value_control
merged (some control) root base = do
  m ←
      set_conf_rev (attribute "confRev" control)
        (set_svid (attribute "smvID" control) (record { profile = base; overridden = [] }))
  m' ← set_rate (attribute "smpRate" control) m
  with_smv (first (tagged "SMV" (descendants root))) m'

abbrev manufacturer_of : Option Node → Option String
manufacturer_of none = none
manufacturer_of (some ied) = attribute "manufacturer" ied

-- the root element, or nothing when the XML library rejects the document
unfoldable pub load_from_icd_str : Option Node → VendorProfile → Outcome LoadError LoadedProfile
unfolding merged tagged
load_from_icd_str none base = err xml
load_from_icd_str (some root) base = do
  m ← merged (first (tagged "SampledValueControl" (descendants root))) root base
  ok (record {
    profile = m.profile;
    manufacturer = manufacturer_of (first (tagged "IED" (descendants root)));
    overridden = m.overridden;
  })
