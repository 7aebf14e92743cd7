-- ===== src/Pcap/Options.antt =====
-- `parse_stream_opts` of crates/ssiec-sv-publisher/src/main.rs. A float is its bits, and its parsers and the
-- conversion of seconds to a duration, which panics on some, are the standard library's and parameters.
use Prim.Native.String.{String}
use text.Mathlib.Text.{◌==◌ as str_eq}
use svdc.Base.{
  ℕ, ◌^◌, ◌==◌, leb, if◌then◌else◌, Bool, ◌&&◌, ◌||◌, Option, none, some, List, [], ◌∷◌, ◌++◌,
  Outcome, ok, err, panic, ◌>>=◌,
}
use svdc.Base.Texts.{codes}
use svdc.Scd.Numbers.{from_str_radix, trim}
use svdc.Vendor.{VendorProfile, lookup}
use svdc.Pcap.Identity.{StreamOpts}

-- the messages, and `listed` for the exit after `--vendor list`
pub data StreamError : Type 0 where
  needs_value unknown_option unknown_preset : String → StreamError
  invalid : (option value : String) → StreamError
  invalid_order : List ℕ → StreamError
  rate_not_positive frequency_not_positive listed : StreamError

-- `StreamOpts::default`; the frequency is the bits of 60.0
abbrev pub default_opts : StreamOpts
default_opts = record {
  frames = 1;
  sample_rate = 4800;
  frequency = 0x4270_0000;
  harmonics = [];
  duration = none;
  vendor = none;
  vendor_icd = none;
  calibration_csv = none;
}

abbrev push_front : ℕ → List (List ℕ) → List (List ℕ)
push_front c [] = (c ∷ []) ∷ []
push_front c (tok ∷ toks) = (c ∷ tok) ∷ toks

-- `v.split(',')`
unfoldable pub split_commas : List ℕ → List (List ℕ)
split_commas [] = [] ∷ []
split_commas (c ∷ cs) =
    let rest = split_commas cs in if c == b',' then [] ∷ rest else push_front c rest

abbrev parse_u32 : List ℕ → Option ℕ
parse_u32 s = from_str_radix 10 (2 ^ 32) s

-- a value, or an error
abbrev pub or_error : {A : Type 0} → StreamError → Option A → Outcome StreamError A
or_error e none = err e
or_error e (some a) = ok a

-- the loop over the harmonic orders, which are appended
unfoldable pub push_orders : List (List ℕ) → List ℕ → Outcome StreamError (List ℕ)
unfolding trim from_str_radix
push_orders [] harmonics = ok harmonics
push_orders (tok ∷ toks) harmonics = do
  n ← or_error (invalid_order tok) (parse_u32 (trim tok))
  push_orders toks (harmonics ++ (n ∷ []))

abbrev pub or_panic : Option ℕ → Outcome StreamError ℕ
or_panic none = panic
or_panic (some d) = ok d

-- `x <= 0.0` for the bits of an `f32`: a zero, or a negative number
abbrev pub le_zero : ℕ → Bool
le_zero x = (x == 0) || (leb 0x8000_0000 x && leb x 0xFF80_0000)

-- a preset also sets the rate
abbrev with_vendor : StreamOpts → VendorProfile → StreamOpts
with_vendor opts v = record opts { vendor = some v; sample_rate = v.default_smp_rate_hz }

abbrev is_option : String → Bool
is_option arg =
    str_eq arg "--frames"
    || (str_eq arg "--duration"
        || (str_eq arg "--rate"
            || (str_eq arg "--frequency"
                || (str_eq arg "--harmonics"
                    || (str_eq arg "--vendor"
                        || (str_eq arg "--vendor-icd" || str_eq arg "--calibration-csv"))))))

-- the checks behind the loop
unfoldable pub checked : StreamOpts → Outcome StreamError StreamOpts
checked opts =
    if opts.sample_rate == 0
    then err rate_not_positive
    else if le_zero opts.frequency
    then err frequency_not_positive
    else ok opts

module _ (parse_f32 parse_f64 : List ℕ → Option ℕ) (from_secs_f64 : ℕ → Option ℕ) where
  -- one option with its value
  unfoldable pub set_option : String → String → StreamOpts → Outcome StreamError StreamOpts
  unfolding split_commas push_orders lookup
  set_option arg v opts =
      if str_eq arg "--frames"
      then (do n ← or_error (invalid arg v) (parse_u32 (codes v)); ok (record opts { frames = n }))
      else if str_eq arg "--duration"
      then (do
        secs ← or_error (invalid arg v) (parse_f64 (codes v))
        d ← or_panic (from_secs_f64 secs)
        ok (record opts { duration = some d }))
      else if str_eq arg "--rate"
      then (do
        n ← or_error (invalid arg v) (parse_u32 (codes v))
        ok (record opts { sample_rate = n }))
      else if str_eq arg "--frequency"
      then (do
        x ← or_error (invalid arg v) (parse_f32 (codes v))
        ok (record opts { frequency = x }))
      else if str_eq arg "--harmonics"
      then (do
        hs ← push_orders (split_commas (codes v)) opts.harmonics
        ok (record opts { harmonics = hs }))
      else if str_eq arg "--vendor"
      then (if str_eq v "list"
          then err listed
          else (do p ← or_error (unknown_preset v) (lookup (codes v)); ok (with_vendor opts p)))
      else if str_eq arg "--vendor-icd"
      then ok (record opts { vendor_icd = some v })
      else if str_eq arg "--calibration-csv"
      then ok (record opts { calibration_csv = some v })
      else err (unknown_option arg)

  -- the loop over the arguments
  unfoldable pub set_options : List String → StreamOpts → Outcome StreamError StreamOpts
  unfolding set_option
  set_options [] opts = ok opts
  set_options (arg ∷ []) opts =
      if is_option arg then err (needs_value arg) else err (unknown_option arg)
  set_options (arg ∷ v ∷ rest) opts = do opts' ← set_option arg v opts; set_options rest opts'

  unfoldable pub parse_stream_opts : List String → Outcome StreamError StreamOpts
  unfolding set_options checked
  parse_stream_opts rest = do opts ← set_options rest default_opts; checked opts
