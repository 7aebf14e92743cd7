-- ===== src/Scd/Tests.antt =====
-- The units of a small document.
use Prim.Native.String.{String}
use svdc.Base.{◌≡◌, refl, some, [], ◌∷◌, ok, err, Gives}
use svdc.Base.Texts.{codes}
use svdc.Scd.{voltage}
use svdc.Scd.Xml.{Node, element, text_node, nil, cons, descendants, named}
use svdc.Scd.Parse.{ScdError, malformed, parse_scd}
use svdc.Scd.Valid.{AreUnits, parse_scd-Gives}

abbrev control : Node
control =
    element "SampledValueControl"
      (("smvID", "SVDC_DEMO_01") ∷ ("datSet", "ds") ∷ ("smpRate", "4800") ∷ []) nil

abbrev dataset : Node
dataset = element "DataSet" (("name", "ds") ∷ []) (
    cons
      (element "FCDA"
        (("prefix", "VPh")
          ∷ ("lnClass", "MMXU")
          ∷ ("lnInst", "1")
          ∷ ("doName", "PhV.phsA")
          ∷ ("fc", "MX")
          ∷ [])
        nil)
      nil)

abbrev ied : Node
ied = element "IED" (("name", "MU-A") ∷ []) (cons control (cons dataset nil))

abbrev access_point : String → String → Node
access_point address appid = element "ConnectedAP" (("iedName", "MU-A") ∷ []) (
    cons (element "P" (("type", "MAC-Address") ∷ []) (cons (text_node address) nil))
      (cons (element "P" (("type", "APPID") ∷ []) (cons (text_node appid) nil)) nil))

abbrev scl : String → String → Node
scl address appid = element "SCL" [] (cons ied (cons (access_point address appid) nil))

one_unit :
    parse_scd (some (scl "01-0C-CD-04-00-01" " 4000 "))
    ≡ ok (
        record {
          id = "MU-A";
          mac = 1 ∷ 0xC ∷ 0xCD ∷ 4 ∷ 0 ∷ 1 ∷ [];
          appid = 0x4000;
          sv_id = "SVDC_DEMO_01";
          smp_rate = 4800;
          channels = (record { name = codes "VPhMMXU1.PhV.phsA.MX"; unit = voltage }) ∷ [];
        }
        ∷ [])
unfolding parse_scd descendants named
one_unit = refl

short_address :
    parse_scd (some (scl "01-0C-CD-04-00" "4000"))
    ≡ err (malformed "MAC-Address" (codes "01-0C-CD-04-00"))
unfolding parse_scd descendants named
short_address = refl

parse_scd-Gives_example :
    Gives {E = ScdError} AreUnits (parse_scd (some (scl "01-0C-CD-04-00-01" "4000")))
parse_scd-Gives_example = parse_scd-Gives (some (scl "01-0C-CD-04-00-01" "4000"))
