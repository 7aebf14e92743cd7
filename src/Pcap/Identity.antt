-- ===== src/Pcap/Identity.antt =====
-- `resolve_frame_identity` of crates/ssiec-sv-publisher/src/main.rs, and the captures under its result. Reading and
-- parsing a file is a function from paths.
use Prim.Native.String.{String}
use svdc.Base.{
  ℕ, ◌+◌, ◌*◌, ◌≤◌, ◌<◌, ◌^◌, ◌≡◌, refl, Option, none, some, List, [], ◌∷◌, length, Outcome, ok,
  err, panic, ◌>>=◌, Gives, gives, fails, >>=-Gives, All, IsU32, arith, subst, ok-injective,
  err-ne-ok,
}
use svdc.Base.Texts.{codes}
use svdc.Scd.Xml.{Node}
use svdc.Wire.Frame.{SampleData, FrameParams, IsFrameParams, IsSampleData}
use svdc.Wire.Utf8.{IsAscii}
use svdc.Vendor.{VendorProfile, sel_2240, from_vendor, svid_for, lookup}
use svdc.Vendor.Icd.{LoadError, io, LoadedProfile, load_from_icd_str}
use svdc.Vendor.Valid.{IsProfile, IsLoaded, Maybe, just, nothing, load_from_icd_str-IsLoaded}
use svdc.Vendor.Sends.{from_vendor-IsFrameParams}
use svdc.Vendor.Lookup.{presets-IsProfile, lookup-Maybe}
use svdc.Pcap.{Stream, run_pcap}
use svdc.Pcap.ReadBack.{Captured, run_pcap-Captured}

-- a float is its bits, a duration its nanoseconds
pub record StreamOpts : Type 0 where
  pub frames : ℕ
  pub sample_rate : ℕ
  pub frequency : ℕ
  pub harmonics : List ℕ
  pub duration : Option ℕ
  pub vendor : Option VendorProfile
  pub vendor_icd : Option String
  pub calibration_csv : Option String

pub record Identity : Type 0 where
  pub params : FrameParams
  pub sv_id : List ℕ
  pub conf_rev : ℕ
  pub sample_rate : ℕ

-- `FrameParams::DEMO`
abbrev pub demo : FrameParams
demo = record {
  dst_mac = 0x01 ∷ 0x0C ∷ 0xCD ∷ 0x04 ∷ 0x00 ∷ 0x01 ∷ [];
  src_mac = 0x02 ∷ 0x00 ∷ 0x00 ∷ 0x00 ∷ 0x00 ∷ 0x01 ∷ [];
  appid = 0x4000;
  vlan = none;
}

-- nothing for a file that cannot be read, and no root for one that cannot be parsed
abbrev pub Documents : Type 0
Documents = String → Option (Option Node)

-- `map_err` with the path
unfoldable pub named_error :
    {A : Type 0} → String → Outcome LoadError A → Outcome (String × LoadError) A
named_error path (ok a) = ok a
named_error path (err e) = err (path, e)
named_error path panic = panic

unfoldable pub load_from_icd_path :
    Documents → String → VendorProfile → Outcome LoadError LoadedProfile
load_from_icd_path documents path base = elim (documents path) [
  | none ↦ err io
  | some document ↦ load_from_icd_str document base
]

unfoldable pub identity_of : VendorProfile → Identity
identity_of v = record {
  params = from_vendor v (0x00 ∷ 0x00 ∷ 0x01 ∷ []);
  sv_id = svid_for v (codes "SVDC_DEMO");
  conf_rev = v.default_conf_rev;
  sample_rate = v.default_smp_rate_hz;
}

-- a file over a preset
unfoldable pub from_file :
    Documents → String → VendorProfile → Outcome (String × LoadError) Identity
from_file documents path base = do
  loaded ← named_error path (load_from_icd_path documents path base)
  ok (identity_of loaded.profile)

unfoldable pub resolve_with :
    Documents → Option VendorProfile → Option String → ℕ → Outcome (String × LoadError) Identity
resolve_with documents (some profile) (some path) rate = from_file documents path profile
resolve_with documents (some profile) none rate = ok (identity_of profile)
resolve_with documents none (some path) rate = from_file documents path sel_2240
resolve_with documents none none rate =
    ok (record { params = demo; sv_id = codes "SVDC_DEMO_01"; conf_rev = 1; sample_rate = rate })

unfoldable pub resolve_frame_identity :
    Documents → StreamOpts → Outcome (String × LoadError) Identity
resolve_frame_identity documents opts =
    resolve_with documents opts.vendor opts.vendor_icd opts.sample_rate

-- the stream of an identity and a waveform
abbrev pub stream_of : Identity → (ℕ → SampleData) → Stream
stream_of id sample = record {
  params = id.params;
  sv_id = id.sv_id;
  conf_rev = id.conf_rev;
  sample_rate = id.sample_rate;
  sample = sample;
}

record IsIdentity (id : Identity) : Type 0 where
  params : IsFrameParams id.params
  conf_rev : IsU32 id.conf_rev

identity_of-IsIdentity : (v : VendorProfile) → IsProfile v → IsIdentity (identity_of v)
unfolding identity_of
identity_of-IsIdentity v h = record {
  params = from_vendor-IsFrameParams v (0x00 ∷ 0x00 ∷ 0x01 ∷ []) h refl;
  conf_rev = h.conf_rev;
}

named_error-Gives :
    {A : Type 0} {P : A → Type 0} (path : String) (r : Outcome LoadError A)
    → Gives P r
    → Gives P (named_error path r)
unfolding named_error
named_error-Gives path _ (gives a p) = gives a p
named_error-Gives path _ (fails e) = fails (path, e)

load_from_icd_path-Gives :
    (documents : Documents) (path : String) (base : VendorProfile)
    → IsProfile base
    → Gives IsLoaded (load_from_icd_path documents path base)
unfolding load_from_icd_path
load_from_icd_path-Gives documents path base v = read (documents path)
  where
    read :
        (o : Option (Option Node))
        → Gives IsLoaded
            (elim o [ none ↦ err io | some document ↦ load_from_icd_str document base ])
    read none = fails io
    read (some document) = load_from_icd_str-IsLoaded document base v

from_file-Gives :
    (documents : Documents) (path : String) (base : VendorProfile)
    → IsProfile base
    → Gives IsIdentity (from_file documents path base)
unfolding from_file
from_file-Gives documents path base v =
    >>=-Gives (named_error-Gives path _ (load_from_icd_path-Gives documents path base v))
      (λ l w. gives _ (identity_of-IsIdentity l.profile w))

resolve_with-Gives :
    (documents : Documents) (o : Option VendorProfile) (icd : Option String) (rate : ℕ)
    → Maybe IsProfile o
    → Gives IsIdentity (resolve_with documents o icd rate)
unfolding resolve_with
resolve_with-Gives documents _ (some path) rate (just v h) = from_file-Gives documents path v h
resolve_with-Gives documents _ none rate (just v h) = gives _ (identity_of-IsIdentity v h)
resolve_with-Gives documents _ (some path) rate nothing =
    from_file-Gives documents path sel_2240 (presets-IsProfile.1.1.1.0)
resolve_with-Gives documents _ none rate nothing =
    gives _ (record { params = (refl, refl, omega arith); conf_rev = omega arith })

value-holds : {E A : Type 0} (P : A → Type 0) (a : A) (r : Outcome E A) → Gives P r → r ≡ ok a → P a
value-holds P a _ (gives b p) q = subst P (ok-injective b a q) p
value-holds P a _ (fails e) q = absurd (err-ne-ok e a q)

-- Whatever `lookup` finds for `--vendor`, and whatever the vendor file holds: if `resolve_frame_identity` gives
-- an identity with a positive rate and an ASCII svID of at most 191 bytes, and the waveform's samples and
-- the frame count are in range, then `run_pcap` finishes on a new file with room for 336 bytes a frame. A
-- reader of the format finds in the file exactly one packet for each frame, in order: the time of packet
-- `i` is `i` sample intervals in whole microseconds, and its bytes decode to the fields of frame `i`.
pub run_pcap-resolve_frame_identity :
    (documents : Documents) (opts : StreamOpts) (id : Identity) (name : List ℕ)
    (sample : ℕ → SampleData) (room : ℕ)
    → opts.vendor ≡ lookup name
    → resolve_frame_identity documents opts ≡ ok id
    → All IsAscii id.sv_id
    → length id.sv_id ≤ 191
    → ((i : ℕ) → IsSampleData (sample i))
    → 0 < id.sample_rate
    → opts.frames < 2 ^ 32
    → 24 + opts.frames * 336 ≤ room
    → Captured
        (stream_of id sample)
        opts.frames
        (run_pcap (stream_of id sample) opts.frames (record { bytes = []; room = room }))
unfolding resolve_frame_identity
run_pcap-resolve_frame_identity documents opts id name sample room v e ascii short samples rate
      count fits =
    let h =
      value-holds IsIdentity id _
        (resolve_with-Gives documents opts.vendor opts.vendor_icd opts.sample_rate
          (rw v (lookup-Maybe name)))
        e in
    run_pcap-Captured (stream_of id sample) opts.frames room
      (record {
        params = h.params;
        conf_rev = h.conf_rev;
        ascii = ascii;
        short = short;
        samples = samples;
      })
      rate count fits
