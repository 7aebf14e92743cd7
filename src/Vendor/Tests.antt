-- ===== src/Vendor/Tests.antt =====
-- The loader of crates/ssiec-sv-publisher/src/vendor_loader.rs on a small document, and the presets.
use Prim.Native.String.{String}
use svdc.Base.{◌≡◌, refl, arith, some, [], ◌∷◌, replicate, ok, err, Gives}
use svdc.Base.Texts.{codes}
use svdc.Wire.Frame.{AsduFields, IsSampleData}
use svdc.Scd.Xml.{Node, element, text_node, nil, cons, descendants}
use svdc.Vendor.{sel_2240, siemens_siprotec_5, lookup, svid_for}
use svdc.Scd.Numbers.{from_str_radix, trim}
use svdc.Vendor.Icd.{LoadError, LoadedProfile, trimmed_u16, bad_value, load_from_icd_str}
use svdc.Vendor.Valid.{IsProfile}
use svdc.Vendor.Sends.{LoadsSender, load_from_icd_str-Sends}
use svdc.Vendor.Reported.{TracksBase, load_from_icd_str-Reported}
use svdc.Vendor.Lookup.{bus_tag}

abbrev p_element : String → String → Node
p_element kind text = element "P" (("type", kind) ∷ []) (cons (text_node text) nil)

abbrev icd : String → Node
icd appid = element "SCL" [] (
    cons
      (element "SMV" [] (
        cons
          (element "Address" [] (
            cons (p_element "VLAN-ID" "0x064") (
              cons (p_element "MAC-Address" "01-0C-CD-04-00-AA")
                (cons (p_element "APPID" appid) nil))))
          nil))
      (cons
        (element "IED" (("manufacturer", "VendorX") ∷ []) (
          cons
            (element "SampledValueControl"
              (("smvID", "TEST_MU01_PB") ∷ ("confRev", " 2025") ∷ ("smpRate", "4800") ∷ []) nil)
            nil))
        nil))

abbrev loaded : LoadedProfile
loaded = record {
  profile = record sel_2240 {
    multicast_mac = 0x01 ∷ 0x0C ∷ 0xCD ∷ 0x04 ∷ 0x00 ∷ 0xAA ∷ [];
    default_appid = 0x4ABC;
    default_conf_rev = 2025;
    svid_template = codes "TEST_MU01_PB";
    vlan = some (record { pcp = 4; dei = 0; vid = 100 });
  };
  manufacturer = some "VendorX";
  overridden =
      "vlan" ∷ "default_appid" ∷ "multicast_mac" ∷ "default_smp_rate_hz" ∷ "default_conf_rev"
      ∷ "svid_template" ∷ [];
}

all_fields : load_from_icd_str (some (icd " 0x4ABC ")) sel_2240 ≡ ok loaded
unfolding load_from_icd_str descendants from_str_radix trim trimmed_u16
all_fields = refl

four_hex_digits :
    load_from_icd_str (some (icd "4ABC")) sel_2240 ≡ err (bad_value "APPID" (codes "4ABC"))
unfolding load_from_icd_str descendants from_str_radix trim trimmed_u16
four_hex_digits = refl

any_case : lookup (codes "SIEMENS_siprotec_5") ≡ some siemens_siprotec_5
unfolding lookup
any_case = refl

substituted : svid_for siemens_siprotec_5 (codes "SS1") ≡ codes "SS1_MU01_PB"
unfolding svid_for
substituted = refl

abbrev asdu : AsduFields
asdu = record {
  sv_id = codes "TEST_MU01_PB";
  smp_cnt = 7;
  conf_rev = 2025;
  smp_synch = 2;
  smp_rate = 4800;
  samples = record { channels = replicate 8 (record { value = 5; quality = 0 }) };
}

samples-IsSampleData : IsSampleData asdu.samples
samples-IsSampleData = (refl, omega arith)

sel-IsProfile : IsProfile sel_2240
sel-IsProfile = record {
  six = refl;
  oui = refl;
  appid = omega arith;
  rate = omega arith;
  conf_rev = omega arith;
  tag = bus_tag 0 (omega arith);
}

load_from_icd_str-Sends_example :
    Gives {E = LoadError}
      (LoadsSender (0 ∷ 0 ∷ 1 ∷ []) asdu)
      (load_from_icd_str (some (icd "0x4ABC")) sel_2240)
load_from_icd_str-Sends_example =
    load_from_icd_str-Sends (some (icd "0x4ABC")) sel_2240 (0 ∷ 0 ∷ 1 ∷ []) asdu sel-IsProfile refl
      (omega arith, omega arith, omega arith, omega arith, omega arith, samples-IsSampleData)
      (omega arith) (omega arith)

load_from_icd_str-Reported_example :
    Gives {E = LoadError} (TracksBase sel_2240) (load_from_icd_str (some (icd "0x4ABC")) sel_2240)
load_from_icd_str-Reported_example = load_from_icd_str-Reported (some (icd "0x4ABC")) sel_2240
