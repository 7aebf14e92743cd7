-- ===== src/Vendor/Valid.antt =====
-- The profiles that the loader of crates/ssiec-sv-publisher/src/vendor_loader.rs returns, and the frames sent
-- with them.
use Prim.Native.String.{String}
use svdc.Base.{
  ℕ, ◌^◌, ◌<◌, ◌≡◌, refl, bit_and, ◌==◌, ◌||◌, Bool-cases, Option, none, some, List, [], ◌∷◌, map,
  drop, length, ok, Gives, gives, fails, >>=-Gives, Gives-weaken, arith, inl, inr, if-keeps, IsU16,
  IsU32,
}
use svdc.Base.Bits.{bit_and-le}
use svdc.Base.Texts.{codes, starts}
use svdc.Scd.Xml.{Node, attribute, unwrap_or, text_of, descendants, first, children}
use svdc.Scd.Numbers.{trim}
use svdc.Scd.Radix.{Below, number, no_number, from_str_radix-Below}
use svdc.Wire.Frame.{VlanTag}
use svdc.Vendor.{VendorProfile, process_bus}
use svdc.Vendor.Icd.{
  LoadError, Merge, LoadedProfile, tagged, or_bad_value, parse_u32, parse_u8, trimmed_u16,
  parse_u16_hex, split, not_empty, octets_of, parse_mac, set_svid, set_conf_rev, set_rate, Address,
  set_appid, set_mac, set_vlan_id, set_vlan_pri, set_parameter, set_parameters, set_tag, set_vlan,
  is_given, with_address, with_smv, merged, load_from_icd_str,
}

abbrev pub IsVlanTag : VlanTag → Type 0
IsVlanTag t = (t.pcp < 8) × ((t.dei ≡ 0) × (t.vid < 4096))

-- `P` of the value, if there is one
pub data Maybe {A : Type 0} (P : A → Type 0) : Option A → Type 0 where
  just : (a : A) → P a → Maybe P (some a)
  nothing : Maybe P none

-- the field types' ranges, and a tag whose fields fit their bits
pub record IsProfile (p : VendorProfile) : Type 0 where
  pub six : length p.multicast_mac ≡ 6
  pub oui : length p.mac_oui ≡ 3
  pub appid : IsU16 p.default_appid
  pub rate : IsU32 p.default_smp_rate_hz
  pub conf_rev : IsU32 p.default_conf_rev
  pub tag : Maybe IsVlanTag p.vlan

abbrev Under : ℕ → ℕ → Type 0
Under b v = v < b

or_bad_value-Gives :
    (b : ℕ) (field : String) (text : List ℕ) (o : Option ℕ)
    → Below b o
    → Gives (Under b) (or_bad_value field text o)
unfolding or_bad_value
or_bad_value-Gives b field text _ (number v p) = gives v p
or_bad_value-Gives b field text _ no_number = fails _

pub parse_u32-Gives : (s : List ℕ) (field : String) → Gives (Under (2 ^ 32)) (parse_u32 s field)
unfolding parse_u32
parse_u32-Gives s field =
    or_bad_value-Gives (2 ^ 32) field s _ (from_str_radix-Below 10 (2 ^ 32) (trim s) (omega arith))

pub parse_u16_hex-Gives :
    (s : List ℕ) (field : String) → Gives (Under (2 ^ 16)) (parse_u16_hex s field)
unfolding parse_u16_hex trimmed_u16
parse_u16_hex-Gives s field =
    let t = trim s in
    elim (Bool-cases (starts t (codes "0x") || starts t (codes "0X"))) [
      | inl e ↦ rw e (
          or_bad_value-Gives (2 ^ 16) field t _
            (from_str_radix-Below 16 (2 ^ 16) (drop 2 t) (omega arith)))
      | inr e ↦
          rw e (
            or_bad_value-Gives (2 ^ 16) field t _
              (from_str_radix-Below 10 (2 ^ 16) t (omega arith)))
    ]

pub parse_u8-Gives : (s : List ℕ) (field : String) → Gives (Under (2 ^ 8)) (parse_u8 s field)
unfolding parse_u8
parse_u8-Gives s field =
    or_bad_value-Gives (2 ^ 8) field s _ (from_str_radix-Below 10 (2 ^ 8) (trim s) (omega arith))

abbrev HasLength : ℕ → List ℕ → Type 0
HasLength n bs = length bs ≡ n

octets_of-Gives : (s : List ℕ) (bs : List (List ℕ)) → Gives (HasLength (length bs)) (octets_of s bs)
unfolding octets_of
octets_of-Gives s [] = gives [] refl
octets_of-Gives s (b ∷ bs) =
    >>=-Gives
      (or_bad_value-Gives 256 "MAC-Address" s _ (from_str_radix-Below 16 256 b (omega arith)))
      (λ o p. >>=-Gives (octets_of-Gives s bs) (λ os e. gives (o ∷ os) (omega arith)))

pub parse_mac-Gives : (s : List ℕ) → Gives (HasLength 6) (parse_mac s)
unfolding parse_mac
parse_mac-Gives s =
    let bytes = not_empty (map trim (split s)) in
    elim (Bool-cases (length bytes == 6)) [
      | inl e ↦ rw e (Gives-weaken (octets_of-Gives s bytes) (λ os h. ground arith))
      | inr e ↦ rw e (fails _)
    ]

abbrev IsMerge : Merge → Type 0
IsMerge m = IsProfile m.profile

set_svid-IsMerge : (o : Option String) (m : Merge) → IsMerge m → IsMerge (set_svid o m)
unfolding set_svid
set_svid-IsMerge none m v = v
set_svid-IsMerge (some s) m v = record {
  six = v.six;
  oui = v.oui;
  appid = v.appid;
  rate = v.rate;
  conf_rev = v.conf_rev;
  tag = v.tag;
}

set_conf_rev-Gives : (o : Option String) (m : Merge) → IsMerge m → Gives IsMerge (set_conf_rev o m)
unfolding set_conf_rev
set_conf_rev-Gives none m v = gives m v
set_conf_rev-Gives (some s) m v = >>=-Gives (parse_u32-Gives (codes s) "confRev") (λ n p.
    gives _ (record {
      six = v.six;
      oui = v.oui;
      appid = v.appid;
      rate = v.rate;
      conf_rev = p;
      tag = v.tag;
    }))

set_rate-Gives : (o : Option String) (m : Merge) → IsMerge m → Gives IsMerge (set_rate o m)
unfolding set_rate
set_rate-Gives none m v = gives m v
set_rate-Gives (some s) m v = >>=-Gives (parse_u32-Gives (codes s) "smpRate") (λ n p.
    gives _ (record {
      six = v.six;
      oui = v.oui;
      appid = v.appid;
      rate = p;
      conf_rev = v.conf_rev;
      tag = v.tag;
    }))

record IsAddress (a : Address) : Type 0 where
  merge : IsMerge a.merge
  id : Maybe (Under 4096) a.vlan_id
  pri : Maybe (Under 8) a.vlan_pri

set_appid-Gives : (text : List ℕ) (a : Address) → IsAddress a → Gives IsAddress (set_appid text a)
unfolding set_appid
set_appid-Gives text a v = >>=-Gives (parse_u16_hex-Gives text "APPID") (λ n p. gives _ (record {
  merge = record {
    six = v.merge.six;
    oui = v.merge.oui;
    appid = p;
    rate = v.merge.rate;
    conf_rev = v.merge.conf_rev;
    tag = v.merge.tag;
  };
  id = v.id;
  pri = v.pri;
}))

set_mac-Gives : (text : List ℕ) (a : Address) → IsAddress a → Gives IsAddress (set_mac text a)
unfolding set_mac
set_mac-Gives text a v = >>=-Gives (parse_mac-Gives text) (λ n p. gives _ (record {
  merge = record {
    six = p;
    oui = v.merge.oui;
    appid = v.merge.appid;
    rate = v.merge.rate;
    conf_rev = v.merge.conf_rev;
    tag = v.merge.tag;
  };
  id = v.id;
  pri = v.pri;
}))

set_vlan_id-Gives :
    (text : List ℕ) (a : Address) → IsAddress a → Gives IsAddress (set_vlan_id text a)
unfolding set_vlan_id
set_vlan_id-Gives text a v = >>=-Gives (parse_u16_hex-Gives text "VLAN-ID") (λ n p.
    gives _ (record {
      merge = v.merge;
      id = just (bit_and n 0x0FFF) (omega (arith, bit_and-le n 0x0FFF));
      pri = v.pri;
    }))

set_vlan_pri-Gives :
    (text : List ℕ) (a : Address) → IsAddress a → Gives IsAddress (set_vlan_pri text a)
unfolding set_vlan_pri
set_vlan_pri-Gives text a v = >>=-Gives (parse_u8-Gives text "VLAN-PRIORITY") (λ n p.
    gives _ (record {
      merge = v.merge;
      id = v.id;
      pri = just (bit_and n 0x7) (omega (arith, bit_and-le n 0x7));
    }))

set_parameter-Gives :
    (kind : String) (text : List ℕ) (a : Address)
    → IsAddress a
    → Gives IsAddress (set_parameter kind text a)
unfolding set_parameter
set_parameter-Gives kind text a v =
    let same : Gives {E = LoadError} IsAddress (ok a) = gives a v in
    search
      (
        if-keeps (Gives {E = LoadError} IsAddress),
        same,
        set_appid-Gives text a v,
        set_mac-Gives text a v,
        set_vlan_id-Gives text a v,
        set_vlan_pri-Gives text a v,
      )
      depth 10

set_parameters-Gives :
    (ps : List Node) (a : Address) → IsAddress a → Gives IsAddress (set_parameters ps a)
unfolding set_parameters
set_parameters-Gives [] a v = gives a v
set_parameters-Gives (p ∷ ps) a v =
    >>=-Gives
      (set_parameter-Gives (unwrap_or (attribute "type" p) "")
        (trim (codes (unwrap_or (text_of p) ""))) a v)
      (λ a' v'. set_parameters-Gives ps a' v')

unwrap-holds :
    {A : Type 0} (P : A → Type 0) (o : Option A) (d : A) → Maybe P o → P d → P (unwrap_or o d)
unwrap-holds P _ d (just a p) q = p
unwrap-holds P _ d nothing q = q

set_tag-IsMerge : (t : VlanTag) (m : Merge) → IsVlanTag t → IsMerge m → IsMerge (set_tag t m)
unfolding set_tag
set_tag-IsMerge t m h v = record {
  six = v.six;
  oui = v.oui;
  appid = v.appid;
  rate = v.rate;
  conf_rev = v.conf_rev;
  tag = just t h;
}

set_vlan-IsMerge : (a : Address) → IsAddress a → IsMerge (set_vlan a)
unfolding set_vlan process_bus
set_vlan-IsMerge a v =
    let old : IsVlanTag (unwrap_or a.merge.profile.vlan (process_bus 0)) =
      unwrap-holds IsVlanTag a.merge.profile.vlan (process_bus 0) v.merge.tag
        (omega arith, (refl, omega arith)) in
    let pri = unwrap-holds (Under 8) a.vlan_pri _ v.pri (old.0) in
    let id = unwrap-holds (Under 4096) a.vlan_id _ v.id (old.1.1) in
    if-keeps IsMerge (is_given a.vlan_id || is_given a.vlan_pri)
      (set_tag-IsMerge _ a.merge (pri, (refl, id)) v.merge) v.merge

with_address-Gives : (o : Option Node) (m : Merge) → IsMerge m → Gives IsMerge (with_address o m)
unfolding with_address
with_address-Gives none m v = gives m v
with_address-Gives (some address) m v =
    >>=-Gives
      (set_parameters-Gives (tagged "P" (children address)) _
        (record { merge = v; id = nothing; pri = nothing }))
      (λ a w. gives (set_vlan a) (set_vlan-IsMerge a w))

with_smv-Gives : (o : Option Node) (m : Merge) → IsMerge m → Gives IsMerge (with_smv o m)
unfolding with_smv
with_smv-Gives none m v = gives m v
with_smv-Gives (some smv) m v = with_address-Gives (first (tagged "Address" (children smv))) m v

merged-Gives :
    (o : Option Node) (root : Node) (base : VendorProfile)
    → IsProfile base
    → Gives IsMerge (merged o root base)
unfolding merged
merged-Gives none root base v = fails _
merged-Gives (some control) root base v =
    >>=-Gives
      (set_conf_rev-Gives (attribute "confRev" control) _ (
        set_svid-IsMerge (attribute "smvID" control) (record { profile = base; overridden = [] })
          v))
      (λ m w.
        >>=-Gives (set_rate-Gives (attribute "smpRate" control) m w)
          (λ m' w'. with_smv-Gives (first (tagged "SMV" (descendants root))) m' w'))

abbrev pub IsLoaded : LoadedProfile → Type 0
IsLoaded l = IsProfile l.profile

pub load_from_icd_str-IsLoaded :
    (document : Option Node) (base : VendorProfile)
    → IsProfile base
    → Gives IsLoaded (load_from_icd_str document base)
unfolding load_from_icd_str
load_from_icd_str-IsLoaded none base v = fails _
load_from_icd_str-IsLoaded (some root) base v =
    >>=-Gives (merged-Gives (first (tagged "SampledValueControl" (descendants root))) root base v)
      (λ m w. gives _ w)
