-- ===== src/Scd/Parse.antt =====
-- `parse_scd` of crates/svdc-console/src/scd/mod.rs over the tree of the document.
use Prim.Native.String.{String}
use text.Mathlib.Text.{◌==◌ as str_eq}
use svdc.Base.{
  ℕ, ◌^◌, ◌==◌, if◌then◌else◌, Bool, false, ◌||◌, Option, none, some, List, [], ◌∷◌, ◌++◌, map,
  replicate, Outcome, ok, err, ◌>>=◌,
}
use svdc.Base.Texts.{codes, lower, starts}
use svdc.Scd.{Channel, ChannelUnit, voltage, current, other, MergingUnit}
use svdc.Scd.Xml.{
  Node, descendants, children, attribute, text_of, eq_local_name, named, first, unwrap_or,
}
use svdc.Scd.Numbers.{from_str_radix, parse_mac, trim}

pub data ScdError : Type 0 where
  xml : ScdError
  missing : String → ScdError
  malformed : (field : String) (value : List ℕ) → ScdError

abbrev contains : List ℕ → List ℕ → Bool
contains [] t = starts [] t
contains (x ∷ s) t = starts (x ∷ s) t || contains s t

unfoldable pub from_do_name : List ℕ → ChannelUnit
from_do_name do_name =
    let lc = map lower do_name in
    if starts lc (codes "phv") || (contains lc (codes "vol") || starts lc (codes "v"))
    then voltage
    else if starts lc (codes "a") || (contains lc (codes "amp") || contains lc (codes "cur"))
    then current
    else other

-- `n.attribute(key).unwrap_or("")`
abbrev attribute_or_empty : String → Node → String
attribute_or_empty key n = unwrap_or (attribute key n) ""

abbrev dotted_name : (prefix ln_class ln_inst do_name fc : List ℕ) → List ℕ
dotted_name prefix ln_class ln_inst do_name fc =
    prefix ++ (ln_class ++ (ln_inst ++ (b'.' ∷ (do_name ++ (b'.' ∷ fc)))))

unfoldable pub parse_fcda : Node → Channel
unfolding from_do_name
parse_fcda n =
    let do_name = codes (attribute_or_empty "doName" n) in
    record {
      name =
          dotted_name (codes (attribute_or_empty "prefix" n))
            (codes (attribute_or_empty "lnClass" n)) (codes (attribute_or_empty "lnInst" n)) do_name
            (codes (attribute_or_empty "fc" n));
      unit = from_do_name do_name;
    }

-- `.and_then(|s| s.parse::<u32>().ok()).unwrap_or(0)`
unfoldable pub rate_of : Option String → ℕ
unfolding from_str_radix
rate_of none = 0
rate_of (some s) = unwrap_or (from_str_radix 10 (2 ^ 32) (codes s)) 0

-- the variables that the `SampledValueControl` of an IED sets
pub record Control : Type 0 where
  pub sv_id : String
  pub smp_rate : ℕ
  pub dataset_name : Option String

unfoldable pub control_of : Option Node → Control
unfolding rate_of
control_of none = record { sv_id = ""; smp_rate = 0; dataset_name = none }
control_of (some n) = record {
  sv_id = attribute_or_empty "smvID" n;
  smp_rate = rate_of (attribute "smpRate" n);
  dataset_name = attribute "datSet" n;
}

abbrev is_named : Option String → String → Bool
is_named none name = false
is_named (some v) name = str_eq v name

-- `.find(|n| n.attribute("name") == Some(ds_name))`
unfoldable pub find_dataset : String → List Node → Option Node
find_dataset name [] = none
find_dataset name (n ∷ nodes) =
    if is_named (attribute "name" n) name then some n else find_dataset name nodes

unfoldable pub channels_of : Option String → Node → List Channel
unfolding parse_fcda find_dataset named
channels_of none ied = []
channels_of (some ds_name) ied = elim (find_dataset ds_name (named "DataSet" (descendants ied))) [
  | none ↦ []
  | some ds ↦ map parse_fcda (named "FCDA" (children ds))
]

unfoldable pub unit_of : String → Control → Node → Option MergingUnit
unfolding channels_of
unit_of ied_name control ied =
    if str_eq control.sv_id "" || (control.smp_rate == 0)
    then none
    else some (record {
      id = ied_name;
      mac = replicate 6 0;
      appid = 0;
      sv_id = control.sv_id;
      smp_rate = control.smp_rate;
      channels = channels_of control.dataset_name ied;
    })

-- one IED, by its name: no unit when it has no name or no stream
unfoldable pub named_ied : Option String → Node → Option MergingUnit
unfolding control_of unit_of
named_ied none ied = none
named_ied (some ied_name) ied =
    unit_of ied_name (control_of (first (named "SampledValueControl" (descendants ied)))) ied

unfoldable pub push_unit : Option MergingUnit → List MergingUnit → List MergingUnit
push_unit none mus = mus
push_unit (some mu) mus = mu ∷ mus

unfoldable pub gather : List Node → List MergingUnit
unfolding named_ied push_unit
gather [] = []
gather (ied ∷ ieds) = push_unit (named_ied (attribute "name" ied) ied) (gather ieds)

-- `mu.mac = parse_mac(value)?` and the same for the APPID
unfoldable pub set_mac : List ℕ → Option (List ℕ) → MergingUnit → Outcome ScdError MergingUnit
set_mac value none mu = err (malformed "MAC-Address" value)
set_mac value (some mac) mu = ok (record mu { mac = mac })

unfoldable pub set_appid : List ℕ → Option ℕ → MergingUnit → Outcome ScdError MergingUnit
set_appid value none mu = err (malformed "APPID" value)
set_appid value (some v) mu = ok (record mu { appid = v })

-- one `P` element of an access point, by its type
unfoldable pub apply_p : Option String → List ℕ → MergingUnit → Outcome ScdError MergingUnit
unfolding set_mac set_appid parse_mac from_str_radix
apply_p none value mu = ok mu
apply_p (some p_type) value mu =
    if str_eq p_type "MAC-Address"
    then set_mac value (parse_mac value) mu
    else if str_eq p_type "APPID"
    then set_appid value (from_str_radix 16 (2 ^ 16) value) mu
    else ok mu

unfoldable pub apply_all : List Node → MergingUnit → Outcome ScdError MergingUnit
unfolding apply_p trim
apply_all [] mu = ok mu
apply_all (p ∷ ps) mu = do
  mu' ← apply_p (attribute "type" p) (trim (codes (unwrap_or (text_of p) ""))) mu
  apply_all ps mu'

-- the first unit of that name is changed in its place
unfoldable pub apply_to :
    String → List Node → List MergingUnit → Outcome ScdError (List MergingUnit)
unfolding apply_all
apply_to ied_name ps [] = ok []
apply_to ied_name ps (mu ∷ mus) =
    let rest = apply_to ied_name ps mus in
    if str_eq mu.id ied_name
    then (do mu' ← apply_all ps mu; ok (mu' ∷ mus))
    else (do mus' ← rest; ok (mu ∷ mus'))

unfoldable pub apply_access_point :
    Option String → Node → List MergingUnit → Outcome ScdError (List MergingUnit)
unfolding apply_to named
apply_access_point none cap mus = ok mus
apply_access_point (some ied_name) cap mus = apply_to ied_name (named "P" (descendants cap)) mus

unfoldable pub apply_access_points :
    List Node → List MergingUnit → Outcome ScdError (List MergingUnit)
unfolding apply_access_point
apply_access_points [] mus = ok mus
apply_access_points (cap ∷ caps) mus = do
  mus' ← apply_access_point (attribute "iedName" cap) cap mus
  apply_access_points caps mus'

-- the root element of the document that the XML library returns, or nothing on a parse error
unfoldable pub parse_scd : Option Node → Outcome ScdError (List MergingUnit)
unfolding gather apply_access_points named
parse_scd none = err xml
parse_scd (some root) =
    if eq_local_name root "SCL"
    then apply_access_points (named "ConnectedAP" (descendants root))
        (gather (named "IED" (children root)))
    else err (missing "SCL root element")
