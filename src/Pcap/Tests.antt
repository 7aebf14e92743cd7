-- ===== src/Pcap/Tests.antt =====
-- Captures of a few frames.
use svdc.Base.{
  ℕ, Option, List, ◌^◌, leb, if◌then◌else◌, err, ◌≡◌, refl, arith, some, none, [], ◌∷◌, replicate,
  ok, panic,
}
use svdc.Base.Texts.{codes, same_text}
use svdc.Scd.Xml.{element, nil, cons, descendants}
use svdc.Scd.Numbers.{from_str_radix, trim}
use svdc.Wire.Frame.{SampleData, IsSampleData}
use svdc.Vendor.{siemens_siprotec_5, lookup, svid_for, from_vendor, source_mac, replace_from}
use svdc.Vendor.Icd.{load_from_icd_str}
use svdc.Pcap.{run_pcap, new, capture_all}
use svdc.Pcap.ReadBack.{Captured}
use svdc.Pcap.Options.{needs_value, default_opts, checked, parse_stream_opts}
use svdc.Pcap.Accepted.{Comes, IsAccepted, parse_stream_opts-Comes}
use svdc.Pcap.Identity.{
  Documents, StreamOpts, Identity, stream_of, identity_of, load_from_icd_path, from_file,
  resolve_with, resolve_frame_identity, named_error, run_pcap-resolve_frame_identity,
}

abbrev flat : ℕ → SampleData
flat i = record { channels = replicate 8 (record { value = 5; quality = 0 }) }

flat-IsSampleData : (i : ℕ) → IsSampleData (flat i)
flat-IsSampleData i = (refl, omega arith)

abbrev no_files : Documents
no_files path = none

abbrev plain : StreamOpts
plain = record {
  frames = 2;
  sample_rate = 4800;
  frequency = 0x42700000;
  harmonics = [];
  duration = none;
  vendor = some siemens_siprotec_5;
  vendor_icd = none;
  calibration_csv = none;
}

abbrev siemens : Identity
siemens = record {
  params = record {
    dst_mac = 0x01 ∷ 0x0C ∷ 0xCD ∷ 0x04 ∷ 0x00 ∷ 0x02 ∷ [];
    src_mac = 0x00 ∷ 0x1F ∷ 0xF8 ∷ 0x00 ∷ 0x00 ∷ 0x01 ∷ [];
    appid = 0x4001;
    vlan = some (record { pcp = 4; dei = 0; vid = 4000 });
  };
  sv_id = codes "SVDC_DEMO_MU01_PB";
  conf_rev = 10001;
  sample_rate = 4800;
}

siemens_found : plain.vendor ≡ lookup (codes "SIEMENS_siprotec_5")
unfolding lookup
siemens_found = refl

siemens_resolved : resolve_frame_identity no_files plain ≡ ok siemens
unfolding resolve_frame_identity resolve_with identity_of from_vendor source_mac svid_for
    replace_from
siemens_resolved = refl

run_pcap-resolve_frame_identity_example :
    Captured
      (stream_of siemens flat)
      2
      (run_pcap (stream_of siemens flat) 2 (record { bytes = []; room = 1000 }))
run_pcap-resolve_frame_identity_example =
    run_pcap-resolve_frame_identity no_files plain siemens (codes "SIEMENS_siprotec_5") flat 1000
      siemens_found siemens_resolved (omega arith) (omega arith) flat-IsSampleData (omega arith)
      (omega arith) (omega arith)

-- a vendor file with a sample rate of 0
abbrev zero_rate_file : Documents
zero_rate_file path =
    some (
      some
        (element "SCL" [] (cons (element "SampledValueControl" (("smpRate", "0") ∷ []) nil) nil)))

abbrev with_file : StreamOpts
with_file = record plain { vendor_icd = some "mu.icd" }

zero_rate_resolved :
    resolve_frame_identity zero_rate_file with_file ≡ ok (record siemens { sample_rate = 0 })
unfolding resolve_frame_identity resolve_with from_file load_from_icd_path load_from_icd_str
    descendants from_str_radix trim identity_of from_vendor source_mac svid_for replace_from
    named_error
zero_rate_resolved = refl

zero_rate_panics :
    (run_pcap
      (stream_of (record siemens { sample_rate = 0 }) flat)
      2
      (record { bytes = []; room = 1000 })).0
    ≡ panic
unfolding run_pcap capture_all new
zero_rate_panics = refl

-- a parser of floats for the examples: `-1` and `60` alone; the sign bit of an `f64` makes no duration
abbrev some_f32 : List ℕ → Option ℕ
some_f32 s = if same_text s (codes "60") then some 0x4270_0000 else none

abbrev some_f64 : List ℕ → Option ℕ
some_f64 s = if same_text s (codes "-1") then some 0xBFF0_0000_0000_0000 else none

abbrev no_negative : ℕ → Option ℕ
no_negative bits = if leb (2 ^ 63) bits then none else some bits

negative_duration :
    parse_stream_opts some_f32 some_f64 no_negative ("--duration" ∷ "-1" ∷ []) ≡ panic
unfolding parse_stream_opts
negative_duration = refl

missing_rate :
    parse_stream_opts some_f32 some_f64 no_negative ("--frames" ∷ "2" ∷ "--rate" ∷ [])
    ≡ err (needs_value "--rate")
unfolding parse_stream_opts from_str_radix
missing_rate = refl

-- the bits of a NaN pass the test of the frequency
nan_frequency :
    checked (record default_opts { frequency = 0x7FC0_0000 })
    ≡ ok (record default_opts { frequency = 0x7FC0_0000 })
unfolding checked
nan_frequency = refl

parse_stream_opts-Comes_example :
    Comes some_f32 some_f64 no_negative IsAccepted
      (parse_stream_opts some_f32 some_f64 no_negative ("--frames" ∷ "2" ∷ "--rate" ∷ "4000" ∷ []))
parse_stream_opts-Comes_example =
    parse_stream_opts-Comes some_f32 some_f64 no_negative
      ("--frames" ∷ "2" ∷ "--rate" ∷ "4000" ∷ [])
