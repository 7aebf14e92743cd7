-- ===== src/Pcap/Accepted.antt =====
-- What `parse_stream_opts` of crates/ssiec-sv-publisher/src/main.rs comes to on any arguments.
use Prim.Native.String.{String}
use svdc.Base.{
  ℕ, ◌^◌, ◌<◌, ◌≡◌, refl, ◌==◌, false, Bool-cases, inl, inr, Option, none, some, List, [], ◌∷◌,
  ◌++◌, All, All-append, Outcome, ok, err, panic, ◌>>=◌, arith, if-keeps, IsU32,
}
use svdc.Base.Texts.{codes}
use svdc.Scd.Numbers.{from_str_radix, trim}
use svdc.Scd.Radix.{Below, number, no_number, from_str_radix-Below}
use svdc.Vendor.{VendorProfile, lookup}
use svdc.Vendor.Valid.{IsProfile, Maybe, just, nothing}
use svdc.Vendor.Lookup.{lookup-Maybe}
use svdc.Pcap.Identity.{StreamOpts}
use svdc.Pcap.Options.{
  StreamError, invalid, invalid_order, unknown_preset, default_opts, split_commas, or_error,
  push_orders, or_panic, le_zero, checked, set_option, set_options, parse_stream_opts,
}

-- options whose fields fit their types
pub record IsOpts (opts : StreamOpts) : Type 0 where
  pub frames : IsU32 opts.frames
  pub rate : IsU32 opts.sample_rate
  pub orders : All IsU32 opts.harmonics
  pub preset : Maybe IsProfile opts.vendor

-- options that the checks let through
pub record IsAccepted (opts : StreamOpts) : Type 0 where
  pub fields : IsOpts opts
  pub positive : 0 < opts.sample_rate
  pub frequency : le_zero opts.frequency ≡ false

module _ (parse_f32 parse_f64 : List ℕ → Option ℕ) (from_secs_f64 : ℕ → Option ℕ) where
  -- a value of which `P` holds, an error, or the panic of a duration that the parser accepts
  pub data Comes {A : Type 0} (P : A → Type 0) : Outcome StreamError A → Type 0 where
    value : (a : A) → P a → Comes P (ok a)
    stopped : (e : StreamError) → Comes P (err e)
    bad_duration :
        (text : List ℕ) (secs : ℕ)
        → parse_f64 text ≡ some secs
        → from_secs_f64 secs ≡ none
        → Comes P panic

  >>=-Comes :
      {A : Type 0} {B : Type 0} {P : A → Type 0} {Q : B → Type 0} {m : Outcome StreamError A}
      {f : A → Outcome StreamError B}
      → Comes P m
      → ((a : A) → P a → Comes Q (f a))
      → Comes Q (m >>= f)
  >>=-Comes (value a p) k = k a p
  >>=-Comes (stopped e) k = stopped e
  >>=-Comes (bad_duration text secs p q) k = bad_duration text secs p q

  or_error-Comes : (e : StreamError) (o : Option ℕ) → Below (2 ^ 32) o → Comes IsU32 (or_error e o)
  or_error-Comes e _ (number v p) = value v p
  or_error-Comes e _ no_number = stopped e

  abbrev Any : ℕ → Type 0
  Any x = Unit

  or_error-Any : (e : StreamError) (o : Option ℕ) → Comes Any (or_error e o)
  or_error-Any e none = stopped e
  or_error-Any e (some x) = value x tt

  parsed-Comes :
      (e : StreamError) (s : List ℕ) → Comes IsU32 (or_error e (from_str_radix 10 (2 ^ 32) s))
  parsed-Comes e s = or_error-Comes e _ (from_str_radix-Below 10 (2 ^ 32) s (omega arith))

  push_orders-Comes :
      (toks : List (List ℕ)) (harmonics : List ℕ)
      → All IsU32 harmonics
      → Comes (All IsU32) (push_orders toks harmonics)
  unfolding push_orders
  push_orders-Comes [] harmonics a = value harmonics a
  push_orders-Comes (tok ∷ toks) harmonics a =
      >>=-Comes (parsed-Comes (invalid_order tok) (trim tok)) λ n p.
        push_orders-Comes toks (harmonics ++ (n ∷ []))
          (All-append IsU32 harmonics (n ∷ []) a (p, tt))

  duration-Comes :
      (arg v : String) (opts : StreamOpts)
      → IsOpts opts
      → Comes IsOpts (do
        secs ← or_error (invalid arg v) (parse_f64 (codes v))
        d ← or_panic (from_secs_f64 secs)
        ok (record opts { duration = some d }))
  duration-Comes arg v opts o = by_text (parse_f64 (codes v)) refl
    where
      by_secs :
          (secs : ℕ) (d : Option ℕ)
          → parse_f64 (codes v) ≡ some secs
          → from_secs_f64 secs ≡ d
          → Comes IsOpts (do d ← or_panic d; ok (record opts { duration = some d }))
      by_secs secs none e f = bad_duration (codes v) secs e f
      by_secs secs (some d) e f =
          value _
            (record { frames = o.frames; rate = o.rate; orders = o.orders; preset = o.preset })

      by_text :
          (t : Option ℕ)
          → parse_f64 (codes v) ≡ t
          → Comes IsOpts (do
            secs ← or_error (invalid arg v) t
            d ← or_panic (from_secs_f64 secs)
            ok (record opts { duration = some d }))
      by_text none e = stopped _
      by_text (some secs) e = by_secs secs (from_secs_f64 secs) e refl

  vendor-Comes :
      (e : StreamError) (opts : StreamOpts) (o : Option VendorProfile)
      → IsOpts opts
      → Maybe IsProfile o
      → Comes IsOpts (do
        p ← or_error e o
        ok (record opts { vendor = some p; sample_rate = p.default_smp_rate_hz }))
  vendor-Comes e opts _ i nothing = stopped e
  vendor-Comes e opts _ i (just p h) =
      value _ (record { frames = i.frames; rate = h.rate; orders = i.orders; preset = just p h })

  set_option-Comes :
      (arg v : String) (opts : StreamOpts)
      → IsOpts opts
      → Comes IsOpts (set_option parse_f32 parse_f64 from_secs_f64 arg v opts)
  unfolding set_option
  set_option-Comes arg v opts o =
      let text : Comes IsOpts (ok (record opts { vendor_icd = some v })) =
        value _
          (record { frames = o.frames; rate = o.rate; orders = o.orders; preset = o.preset }) in
      let csv : Comes IsOpts (ok (record opts { calibration_csv = some v })) =
        value _
          (record { frames = o.frames; rate = o.rate; orders = o.orders; preset = o.preset }) in
      let counted = >>=-Comes {Q = IsOpts} (parsed-Comes (invalid arg v) (codes v)) λ n p.
        value (record opts { frames = n })
          (record { frames = p; rate = o.rate; orders = o.orders; preset = o.preset }) in
      let rated = >>=-Comes {Q = IsOpts} (parsed-Comes (invalid arg v) (codes v)) λ n p.
        value (record opts { sample_rate = n })
          (record { frames = o.frames; rate = p; orders = o.orders; preset = o.preset }) in
      let tuned = >>=-Comes {Q = IsOpts} (or_error-Any (invalid arg v) (parse_f32 (codes v))) λ x p.
        value (record opts { frequency = x })
          (record { frames = o.frames; rate = o.rate; orders = o.orders; preset = o.preset }) in
      let ordered =
        >>=-Comes {Q = IsOpts} (push_orders-Comes (split_commas (codes v)) opts.harmonics o.orders)
          λ hs p.
            value (record opts { harmonics = hs })
              (record { frames = o.frames; rate = o.rate; orders = p; preset = o.preset }) in
      let timed = duration-Comes arg v opts o in
      let preset =
        vendor-Comes (unknown_preset v) opts (lookup (codes v)) o (lookup-Maybe (codes v)) in
      search
        (if-keeps (Comes IsOpts), stopped, text, csv, counted, rated, tuned, ordered, timed, preset)
        depth 12

  set_options-Comes :
      (rest : List String) (opts : StreamOpts)
      → IsOpts opts
      → Comes IsOpts (set_options parse_f32 parse_f64 from_secs_f64 rest opts)
  unfolding set_options
  set_options-Comes [] opts o = value opts o
  set_options-Comes (arg ∷ []) opts o = search (if-keeps (Comes IsOpts), stopped)
  set_options-Comes (arg ∷ v ∷ rest) opts o =
      >>=-Comes (set_option-Comes arg v opts o) λ opts' o'. set_options-Comes rest opts' o'

  checked-Comes : (opts : StreamOpts) → IsOpts opts → Comes IsAccepted (checked opts)
  unfolding checked
  checked-Comes opts o = elim (Bool-cases (opts.sample_rate == 0)) [
    | inl e ↦ rw e (stopped _)
    | inr e ↦ elim (Bool-cases (le_zero opts.frequency)) [
      | inl f ↦ rw (e, f) (stopped _)
      | inr f ↦
          rw (e, f) (value opts (record { fields = o; positive = ground arith; frequency = f }))
    ]
  ]

  -- On any arguments `parse_stream_opts` ends with a message or with options: a count of frames and a rate that
  -- are a `u32`, the rate above 0, a frequency that is no zero and no negative number, harmonic
  -- orders that are a `u32`, and no preset or one with its fields in range. It panics only on a `--duration`
  -- that parses as a float and is no duration.
  pub parse_stream_opts-Comes :
      (rest : List String)
      → Comes IsAccepted (parse_stream_opts parse_f32 parse_f64 from_secs_f64 rest)
  unfolding parse_stream_opts
  parse_stream_opts-Comes rest =
      >>=-Comes
        (set_options-Comes rest default_opts
          (record { frames = omega arith; rate = omega arith; orders = tt; preset = nothing }))
        λ opts o. checked-Comes opts o
