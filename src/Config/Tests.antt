-- ===== src/Config/Tests.antt =====
-- The routes of crates/svdc-console/src/routes/config.rs on small requests.
use Prim.Native.String.{String}
use svdc.Base.{ℕ, ◌≡◌, refl, Option, none, some, List, [], ◌∷◌, ◌++◌, inl, inr, arith, length}
use svdc.Base.Texts.{codes}
use svdc.Audit
use svdc.Scd
use svdc.Scd.{MergingUnit, snapshot}
use svdc.Scd.Xml.{Node}
use svdc.Scd.Numbers.{parse_mac}
use svdc.Config.{
  ManualMuRequest, invalid_mac, build_mu, trim_start_matches, manual_channels, ConfigState,
  status_ok, field, malformed_body, utf8, unreadable, read_fields, malformed, any_id,
}
use svdc.Config.Held.{register_mu, serve, IsServed, serve-IsServed}
use svdc.Config.Race.{in_turn, interleaved, interleaved-lost}

two_prefixes : trim_start_matches (codes "0x0x4000") ≡ codes "4000"
unfolding trim_start_matches
two_prefixes = refl

-- an empty `sv_id` is accepted
abbrev request : ManualMuRequest
request = record {
  id = "MU-A";
  mac = codes "01-0C-cd-04-00-01";
  appid = codes "0x4000";
  sv_id = "";
  smp_rate = 4800;
  v_count = 9;
  i_count = 0;
}

abbrev unit_named : String → MergingUnit
unit_named id = record {
  id = id;
  mac = 1 ∷ 12 ∷ 0xCD ∷ 4 ∷ 0 ∷ 1 ∷ [];
  appid = 0x4000;
  sv_id = "";
  smp_rate = 4800;
  channels = manual_channels 9 0;
}

build_request : build_mu request ≡ inr (unit_named "MU-A")
unfolding build_mu parse_mac
build_request = refl

build_short_mac : build_mu (record request { mac = codes "01:0C" }) ≡ inl invalid_mac
unfolding build_mu parse_mac
build_short_mac = refl

-- four channels at most of a kind
four_channels : length (manual_channels 9 0) ≡ 4
four_channels = refl

-- the last field of the name is kept, and others are skipped
last_field :
    read_fields none (
      field (some "scd") (utf8 (codes "a"))
      ∷ field none unreadable
      ∷ field (some "scd") (utf8 (codes "b"))
      ∷ [])
    ≡ inr (some (codes "b"))
unfolding read_fields
last_field = refl

broken_body :
    read_fields none (field (some "scd") (utf8 (codes "a")) ∷ malformed_body ∷ []) ≡ inl malformed
unfolding read_fields
broken_body = refl

abbrev no_units : ConfigState
no_units = record { registry = Scd.new; audit = Audit.with_capacity 10 }

abbrev no_document : List ℕ → Option Node
no_document text = none

serve-IsServed_example :
    IsServed no_document 5 no_units
      (register_mu request)
      (serve no_document 5 (register_mu request) no_units)
serve-IsServed_example =
    serve-IsServed no_document 5 (register_mu request) no_units (omega arith) tt

interleaved-lost_example :
    let (first, second) = in_turn 5 6 (unit_named "MU-A") (unit_named "MU-B") no_units in
    let (first', second') = interleaved 5 6 (unit_named "MU-A") (unit_named "MU-B") no_units in
    (first.0.0 ≡ status_ok)
    × (second.0.0 ≡ status_ok)
    × (snapshot second.1.registry ≡ ([] ++ (unit_named "MU-A" ∷ [])) ++ (unit_named "MU-B" ∷ []))
    × (first'.0.0 ≡ status_ok)
    × (second'.0.0 ≡ status_ok)
    × (snapshot second'.1.registry ≡ [] ++ (unit_named "MU-B" ∷ []))
unfolding any_id
interleaved-lost_example =
    interleaved-lost 5 6 (unit_named "MU-A") (unit_named "MU-B") no_units refl refl refl
