-- ===== src/Vendor.antt =====
-- The vendor profiles of crates/ssiec-sv-publisher/src/vendor.rs, with `FrameParams::from_vendor` of its
-- lib.rs. A text is its bytes.
pub mod Icd
pub mod Valid
pub mod Sends
pub mod Lookup
mod Tests
pub mod Reported
use svdc.Base.{
  ℕ, zero, suc, ◌+◌, ◌-◌, leb, ◌==◌, if◌then◌else◌, Bool, true, false, ◌&&◌, Option, none, some,
  List, [], ◌∷◌, ◌++◌, map, length, take,
}
use svdc.Base.Texts.{codes, lower, same_text, starts}
use svdc.Wire.Frame.{VlanTag, FrameParams}

-- PCP 4 and DEI 0
unfoldable pub process_bus : ℕ → VlanTag
process_bus vid = record { pcp = 4; dei = 0; vid = vid }

pub record VendorProfile : Type 0 where
  pub name : List ℕ
  pub mac_oui : List ℕ
  pub multicast_mac : List ℕ
  pub default_appid : ℕ
  pub default_smp_rate_hz : ℕ
  pub default_conf_rev : ℕ
  pub svid_template : List ℕ
  pub vlan : Option VlanTag
  pub notes : List ℕ

unfoldable pub source_mac : VendorProfile → List ℕ → List ℕ
source_mac v suffix = take 3 v.mac_oui ++ take 3 suffix

-- `replace`, with the number of bytes of a match that are still to be left out
unfoldable pub replace_from : ℕ → List ℕ → List ℕ → List ℕ → List ℕ
replace_from skip from to [] = []
replace_from (suc skip) from to (c ∷ s) = replace_from skip from to s
replace_from zero from to (c ∷ s) = elim (starts (c ∷ s) from) [
  | true ↦ to ++ replace_from (length from - 1) from to s
  | false ↦ c ∷ replace_from 0 from to s
]

unfoldable pub svid_for : VendorProfile → List ℕ → List ℕ
unfolding replace_from
svid_for v name = replace_from 0 (codes "{name}") name v.svid_template

abbrev pub default_tag : ℕ → Option VlanTag
default_tag vid = some (record { pcp = 4; dei = 0; vid = vid })

abbrev pub abb_relion_670 : VendorProfile
abb_relion_670 = record {
  name = codes "abb_relion_670";
  mac_oui = 0x00 ∷ 0x21 ∷ 0xC1 ∷ [];
  multicast_mac = 0x01 ∷ 0x0C ∷ 0xCD ∷ 0x04 ∷ 0x00 ∷ 0x01 ∷ [];
  default_appid = 0x4000;
  default_smp_rate_hz = 4800;
  default_conf_rev = 1;
  svid_template = codes "{name}MU01/LLN0$MX$Phsmeas9$svID";
  vlan = default_tag 100;
  notes =
      codes
        "ABB Relion 670 / SAM600. Long IEC-61850 functional-naming svID; VLAN VID = 100 is the typical process-bus default from ABB engineering examples.";
}

abbrev pub siemens_siprotec_5 : VendorProfile
siemens_siprotec_5 = record {
  name = codes "siemens_siprotec_5";
  mac_oui = 0x00 ∷ 0x1F ∷ 0xF8 ∷ [];
  multicast_mac = 0x01 ∷ 0x0C ∷ 0xCD ∷ 0x04 ∷ 0x00 ∷ 0x02 ∷ [];
  default_appid = 0x4001;
  default_smp_rate_hz = 4800;
  default_conf_rev = 10001;
  svid_template = codes "{name}_MU01_PB";
  vlan = default_tag 4000;
  notes =
      codes
        "Siemens SIPROTEC 5 6MU85. Short svID, confRev seed 10001 per Siemens engineering convention, VLAN VID 4000 common on SIPROTEC process-bus reference designs.";
}

abbrev pub ge_ur_series : VendorProfile
ge_ur_series = record {
  name = codes "ge_ur_series";
  mac_oui = 0x00 ∷ 0x11 ∷ 0x30 ∷ [];
  multicast_mac = 0x01 ∷ 0x0C ∷ 0xCD ∷ 0x04 ∷ 0x00 ∷ 0x03 ∷ [];
  default_appid = 0x4002;
  default_smp_rate_hz = 4800;
  default_conf_rev = 1;
  svid_template = codes "{name}_F60_MU";
  vlan = default_tag 0;
  notes =
      codes
        "GE Vernova UR-series F60/T60/B30. VID = 0 = priority-only tag is GE's documented bench-test default; production deployments set VID per bus.";
}

abbrev pub sel_2240 : VendorProfile
sel_2240 = record {
  name = codes "sel_2240";
  mac_oui = 0x00 ∷ 0x30 ∷ 0xA7 ∷ [];
  multicast_mac = 0x01 ∷ 0x0C ∷ 0xCD ∷ 0x04 ∷ 0x00 ∷ 0x04 ∷ [];
  default_appid = 0x4003;
  default_smp_rate_hz = 4800;
  default_conf_rev = 1;
  svid_template = codes "{name}_PB_MU";
  vlan = default_tag 0;
  notes =
      codes
        "SEL-2240 Axion / SEL-401. Strict 9-2 LE adherence, useful as the 'reference' baseline against which other vendors' quirks are diffed.";
}

abbrev pub presets : List VendorProfile
presets = abb_relion_670 ∷ siemens_siprotec_5 ∷ ge_ur_series ∷ sel_2240 ∷ []

abbrev pub find_in : List ℕ → List VendorProfile → Option VendorProfile
find_in needle [] = none
find_in needle (v ∷ vendors) = if same_text v.name needle then some v else find_in needle vendors

unfoldable pub lookup : List ℕ → Option VendorProfile
lookup name = find_in (map lower name) presets

-- `FrameParams::from_vendor`
unfoldable pub from_vendor : VendorProfile → List ℕ → FrameParams
unfolding source_mac
from_vendor v unit_suffix = record {
  dst_mac = v.multicast_mac;
  src_mac = source_mac v unit_suffix;
  appid = v.default_appid;
  vlan = v.vlan;
}
