-- ===== src/Vendor/Lookup.antt =====
-- The presets that `lookup` of crates/ssiec-sv-publisher/src/vendor.rs finds.
use svdc.Base.{ℕ, ◌<◌, refl, Bool-cases, List, [], ◌∷◌, map, All, arith, inl, inr}
use svdc.Base.Texts.{lower, same_text}
use svdc.Vendor.{VendorProfile, presets, find_in, lookup, default_tag}
use svdc.Vendor.Valid.{IsProfile, IsVlanTag, Maybe, just, nothing}

find_in-Maybe :
    (needle : List ℕ) (P : VendorProfile → Type 0) (vendors : List VendorProfile)
    → All P vendors
    → Maybe P (find_in needle vendors)
find_in-Maybe needle P [] h = nothing
find_in-Maybe needle P (v ∷ vendors) h = elim (Bool-cases (same_text v.name needle)) [
  | inl e ↦ rw e (just v (h.0))
  | inr e ↦ rw e (find_in-Maybe needle P vendors (h.1))
]

pub bus_tag : (vid : ℕ) → vid < 4096 → Maybe IsVlanTag (default_tag vid)
bus_tag vid h = just _ (omega arith, (refl, h))

pub presets-IsProfile : All IsProfile presets
presets-IsProfile = (
  record {
    six = refl;
    oui = refl;
    appid = omega arith;
    rate = omega arith;
    conf_rev = omega arith;
    tag = bus_tag 100 (omega arith);
  },
  (
    record {
      six = refl;
      oui = refl;
      appid = omega arith;
      rate = omega arith;
      conf_rev = omega arith;
      tag = bus_tag 4000 (omega arith);
    },
    (
      record {
        six = refl;
        oui = refl;
        appid = omega arith;
        rate = omega arith;
        conf_rev = omega arith;
        tag = bus_tag 0 (omega arith);
      },
      (
        record {
          six = refl;
          oui = refl;
          appid = omega arith;
          rate = omega arith;
          conf_rev = omega arith;
          tag = bus_tag 0 (omega arith);
        },
        tt,
      ),
    ),
  ),
)

pub lookup-Maybe : (name : List ℕ) → Maybe IsProfile (lookup name)
unfolding lookup
lookup-Maybe name = find_in-Maybe (map lower name) IsProfile presets presets-IsProfile
