-- ===== src/Config/Manual.antt =====
-- The unit that a registration to crates/svdc-console/src/routes/config.rs describes, and what `build_mu` and
-- the test for its id make of one.
use Prim.Native.String.{String}
use text.Mathlib.Text.{◌==◌ as str_eq}
use text.Mathlib.TextEquality.{eq_iff}
use mathlib.Core.Bool.{true≢false}
use svdc.Base.{
  ℕ, ◌^◌, ◌<◌, ◌≡◌, ◌==◌, true, false, Bool-cases, ◌⊎◌, inl, inr, Option, none, some, List, [], ◌∷◌,
  length, All, arith, sym, ◌∙◌, refl,
}
use svdc.Scd.{MergingUnit}
use svdc.Scd.Numbers.{parse_mac, from_str_radix}
use svdc.Scd.Radix.{Below, number, no_number, from_str_radix-Below}
use svdc.Scd.Valid.{IsByte, Mac, mac, no_mac}
use svdc.Config.{
  ManualMuRequest, BuildError, with_mac, with_appid, any_id, trim_start_matches, manual_channels,
}

-- a unit whose fields fit their types, with a sample rate
pub record IsHeld (mu : MergingUnit) : Type 0 where
  pub rate : 0 < mu.smp_rate
  pub rate_u32 : mu.smp_rate < 2 ^ 32
  pub six : length mu.mac ≡ 6
  pub octets : All IsByte mu.mac
  pub appid_u16 : mu.appid < 2 ^ 16

abbrev pub AreHeld : List MergingUnit → Type 0
AreHeld mus = All IsHeld mus

-- the unit that a registration describes
pub record IsManual (req : ManualMuRequest) (mu : MergingUnit) : Type 0 where
  pub id : mu.id ≡ req.id
  pub sv_id : mu.sv_id ≡ req.sv_id
  pub rate : mu.smp_rate ≡ req.smp_rate
  pub mac : parse_mac req.mac ≡ some mu.mac
  pub appid : from_str_radix 16 (2 ^ 16) (trim_start_matches req.appid) ≡ some mu.appid
  pub channels : mu.channels ≡ manual_channels req.v_count req.i_count
  pub held : IsHeld mu

abbrev pub HasId : String → List MergingUnit → Type 0
HasId id [] = ⊥
HasId id (m ∷ mus) = (m.id ≡ id) ⊎ HasId id mus

-- what `build_mu` returns
pub data IsBuilt (req : ManualMuRequest) : BuildError ⊎ MergingUnit → Type 0 where
  built : (mu : MergingUnit) → IsManual req mu → IsBuilt req (inr mu)
  no_mac_built : (e : BuildError) → parse_mac req.mac ≡ none → IsBuilt req (inl e)
  no_appid_built :
      (e : BuildError)
      → from_str_radix 16 (2 ^ 16) (trim_start_matches req.appid) ≡ none
      → IsBuilt req (inl e)
  no_rate_built : (e : BuildError) → req.smp_rate ≡ 0 → IsBuilt req (inl e)

with_appid-IsBuilt :
    (req : ManualMuRequest) (bs : List ℕ) (o : Option ℕ)
    → req.smp_rate < 2 ^ 32
    → length bs ≡ 6
    → All IsByte bs
    → parse_mac req.mac ≡ some bs
    → from_str_radix 16 (2 ^ 16) (trim_start_matches req.appid) ≡ o
    → Below (2 ^ 16) o
    → IsBuilt req (with_appid req bs o)
unfolding with_appid
with_appid-IsBuilt req bs _ r six a read parsed no_number = no_appid_built _ parsed
with_appid-IsBuilt req bs _ r six a read parsed (number v p) =
    elim (Bool-cases (req.smp_rate == 0)) [
      | inl e ↦ rw e (no_rate_built _ (ground arith))
      | inr e ↦ rw e (
          built _ (record {
            id = refl;
            sv_id = refl;
            rate = refl;
            mac = read;
            appid = parsed;
            channels = refl;
            held = record {
              rate = ground arith;
              rate_u32 = r;
              six = six;
              octets = a;
              appid_u16 = p;
            };
          }))
    ]

pub with_mac-IsBuilt :
    (req : ManualMuRequest) (o : Option (List ℕ))
    → req.smp_rate < 2 ^ 32
    → parse_mac req.mac ≡ o
    → Mac o
    → IsBuilt req (with_mac req o)
unfolding with_mac
with_mac-IsBuilt req _ r read no_mac = no_mac_built _ read
with_mac-IsBuilt req _ r read (mac bs six a) =
    with_appid-IsBuilt req bs _ r six a read refl
      (from_str_radix-Below 16 (2 ^ 16) (trim_start_matches req.appid) (omega arith))

-- what the test for a unit's id finds
pub HasId-any_id : (id : String) (mus : List MergingUnit) → any_id id mus ≡ true → HasId id mus
unfolding any_id
HasId-any_id id [] e = elim (true≢false (sym e)) [ ]
HasId-any_id id (m ∷ mus) e = elim (Bool-cases (str_eq m.id id)) [
  | inl same ↦ inl ((eq_iff m.id id).0 same)
  | inr other ↦ inr (HasId-any_id id mus (rw other at e))
]

pub HasId-any_id_not :
    (id : String) (mus : List MergingUnit) → any_id id mus ≡ false → ¬ HasId id mus
unfolding any_id
HasId-any_id_not id [] e h = h
HasId-any_id_not id (m ∷ mus) e h = elim (Bool-cases (str_eq m.id id)) [
  | inl same ↦ true≢false (rw same at e)
  | inr other ↦ elim h [
    | inl here ↦ true≢false (sym ((eq_iff m.id id).1 here) ∙ other)
    | inr later ↦ HasId-any_id_not id mus (rw other at e) later
  ]
]
