-- ===== src/Scd/Valid.antt =====
-- The units that `parse_scd` of crates/svdc-console/src/scd/mod.rs returns.
use Prim.Native.String.{String}
use text.Mathlib.Text.{◌==◌ as str_eq}
use svdc.Base.{
  ℕ, suc, ◌*◌, ◌^◌, ◌<◌, ◌≡◌, refl, ◌==◌, false, Bool-cases, Option, none, some, List, [], ◌∷◌,
  length, All, ok, Gives, gives, fails, >>=-Gives, arith, inl, inr, if-keeps,
}
use svdc.Base.Texts.{codes}
use svdc.Scd.{MergingUnit}
use svdc.Scd.Radix.{Below, number, no_number, from_str_radix-Below}
use svdc.Scd.Xml.{
  Node, attribute, unwrap_or, text_of, named, descendants, first, children, eq_local_name,
}
use svdc.Scd.Numbers.{from_str_radix, hex_digits, pairs_from, parse_mac, trim}
use svdc.Scd.Parse.{
  ScdError, xml, Control, control_of, unit_of, rate_of, named_ied, push_unit, gather, set_mac,
  set_appid, apply_p, apply_all, apply_to, apply_access_point, apply_access_points, parse_scd,
}

abbrev pub IsByte : ℕ → Type 0
IsByte b = b < 256

-- the bytes of `n` digits, or none
data Bytes (n : ℕ) : Option (List ℕ) → Type 0 where
  bytes : (bs : List ℕ) → All IsByte bs → 2 * length bs ≡ n → Bytes n (some bs)
  no_bytes : Bytes n none

pairs_from-Bytes : (cs : List ℕ) → Bytes (length cs) (pairs_from cs)
unfolding pairs_from
pairs_from-Bytes [] = bytes [] tt (omega arith)
pairs_from-Bytes (c ∷ []) = no_bytes
pairs_from-Bytes (c ∷ d ∷ cs) =
    after (from_str_radix 16 256 (c ∷ d ∷ []))
      (from_str_radix-Below 16 256 (c ∷ d ∷ []) (omega arith)) (pairs_from cs) (pairs_from-Bytes cs)
  where
    after :
        (o : Option ℕ)
        → Below 256 o
        → (rest : Option (List ℕ)) → Bytes (length cs) rest
        → Bytes
            (suc (suc (length cs)))
            (elim o [ none ↦ none | some b ↦ elim rest [ none ↦ none | some bs ↦ some (b ∷ bs) ] ])
    after _ (number b p) _ (bytes bs a e) = bytes (b ∷ bs) (p, a) (omega arith)
    after _ (number b p) _ no_bytes = no_bytes
    after _ no_number rest r = no_bytes

-- a unit with a stream, whose fields fit their types
pub record IsUnit (mu : MergingUnit) : Type 0 where
  pub published : str_eq mu.sv_id "" ≡ false
  pub rate : 0 < mu.smp_rate
  pub rate_u32 : mu.smp_rate < 2 ^ 32
  pub six : length mu.mac ≡ 6
  pub octets : All IsByte mu.mac
  pub appid_u16 : mu.appid < 2 ^ 16

-- the address of six bytes that `parse_mac` returns, or none
pub data Mac : Option (List ℕ) → Type 0 where
  mac : (bs : List ℕ) → length bs ≡ 6 → All IsByte bs → Mac (some bs)
  no_mac : Mac none

pub parse_mac-Mac : (s : List ℕ) → Mac (parse_mac s)
unfolding parse_mac
parse_mac-Mac s = elim (Bool-cases (length (hex_digits s) == 12)) [
  | inl e ↦
      rw e (six_of (pairs_from (hex_digits s)) (pairs_from-Bytes (hex_digits s)) (ground arith))
  | inr e ↦ rw e no_mac
]
  where
    six_of :
        (o : Option (List ℕ)) → Bytes (length (hex_digits s)) o → length (hex_digits s) ≡ 12 → Mac o
    six_of _ (bytes bs a e) h = mac bs (omega arith) a
    six_of _ no_bytes h = no_mac

abbrev pub AreUnits : List MergingUnit → Type 0
AreUnits mus = All IsUnit mus

unwrap-Below : (b : ℕ) (o : Option ℕ) → Below b o → 0 < b → unwrap_or o 0 < b
unwrap-Below b _ (number v p) h = p
unwrap-Below b _ no_number h = h

rate_of-lt : (o : Option String) → rate_of o < 2 ^ 32
unfolding rate_of
rate_of-lt none = omega arith
rate_of-lt (some s) =
    unwrap-Below (2 ^ 32) _ (from_str_radix-Below 10 (2 ^ 32) (codes s) (omega arith)) (omega arith)

control_of-rate : (o : Option Node) → (control_of o).smp_rate < 2 ^ 32
unfolding control_of
control_of-rate none = omega arith
control_of-rate (some n) = rate_of-lt (attribute "smpRate" n)

data IsFound : Option MergingUnit → Type 0 where
  found : (mu : MergingUnit) → IsUnit mu → IsFound (some mu)
  skipped : IsFound none

unit_of-IsFound :
    (name : String) (control : Control) (ied : Node)
    → control.smp_rate < 2 ^ 32
    → IsFound (unit_of name control ied)
unfolding unit_of
unit_of-IsFound name control ied h = elim (Bool-cases (str_eq control.sv_id "")) [
  | inl e ↦ rw e skipped
  | inr e ↦ elim (Bool-cases (control.smp_rate == 0)) [
    | inl f ↦ rw (e, f) skipped
    | inr f ↦
        rw (e, f)
          (found _ (record {
            published = e;
            rate = ground arith;
            rate_u32 = h;
            six = refl;
            octets = (
              omega arith,
              (omega arith, (omega arith, (omega arith, (omega arith, (omega arith, tt))))),
            );
            appid_u16 = omega arith;
          }))
  ]
]

named_ied-IsFound : (name : Option String) (ied : Node) → IsFound (named_ied name ied)
unfolding named_ied
named_ied-IsFound none ied = skipped
named_ied-IsFound (some name) ied =
    let o = first (named "SampledValueControl" (descendants ied)) in
    unit_of-IsFound name (control_of o) ied (control_of-rate o)

push_unit-AreUnits :
    (o : Option MergingUnit) (mus : List MergingUnit)
    → IsFound o
    → AreUnits mus
    → AreUnits (push_unit o mus)
unfolding push_unit
push_unit-AreUnits _ mus (found mu u) us = (u, us)
push_unit-AreUnits _ mus skipped us = us

gather-AreUnits : (ieds : List Node) → AreUnits (gather ieds)
unfolding gather
gather-AreUnits [] = tt
gather-AreUnits (ied ∷ ieds) =
    push_unit-AreUnits _ (gather ieds) (named_ied-IsFound (attribute "name" ied) ied)
      (gather-AreUnits ieds)

set_mac-Gives :
    (value : List ℕ) (o : Option (List ℕ)) (mu : MergingUnit)
    → Mac o
    → IsUnit mu
    → Gives IsUnit (set_mac value o mu)
unfolding set_mac
set_mac-Gives value _ mu no_mac u = fails _
set_mac-Gives value _ mu (mac bs e a) u = gives _ (record {
  published = u.published;
  rate = u.rate;
  rate_u32 = u.rate_u32;
  six = e;
  octets = a;
  appid_u16 = u.appid_u16;
})

set_appid-Gives :
    (value : List ℕ) (o : Option ℕ) (mu : MergingUnit)
    → Below (2 ^ 16) o
    → IsUnit mu
    → Gives IsUnit (set_appid value o mu)
unfolding set_appid
set_appid-Gives value _ mu no_number u = fails _
set_appid-Gives value _ mu (number v p) u = gives _ (record {
  published = u.published;
  rate = u.rate;
  rate_u32 = u.rate_u32;
  six = u.six;
  octets = u.octets;
  appid_u16 = p;
})

apply_p-Gives :
    (o : Option String) (value : List ℕ) (mu : MergingUnit)
    → IsUnit mu
    → Gives IsUnit (apply_p o value mu)
unfolding apply_p
apply_p-Gives none value mu u = gives mu u
apply_p-Gives (some p_type) value mu u =
    let same : Gives {E = ScdError} IsUnit (ok mu) = gives mu u in
    search (
      if-keeps (Gives {E = ScdError} IsUnit),
      same,
      set_mac-Gives value (parse_mac value) mu (parse_mac-Mac value) u,
      set_appid-Gives value _ mu (from_str_radix-Below 16 (2 ^ 16) value (omega arith)) u,
    )

apply_all-Gives : (ps : List Node) (mu : MergingUnit) → IsUnit mu → Gives IsUnit (apply_all ps mu)
unfolding apply_all
apply_all-Gives [] mu u = gives mu u
apply_all-Gives (p ∷ ps) mu u =
    >>=-Gives (apply_p-Gives (attribute "type" p) (trim (codes (unwrap_or (text_of p) ""))) mu u)
      (λ mu' u'. apply_all-Gives ps mu' u')

apply_to-Gives :
    (name : String) (ps : List Node) (mus : List MergingUnit)
    → AreUnits mus
    → Gives AreUnits (apply_to name ps mus)
unfolding apply_to
apply_to-Gives name ps [] us = gives [] tt
apply_to-Gives name ps (mu ∷ mus) us = elim (Bool-cases (str_eq mu.id name)) [
  | inl e ↦ rw e (>>=-Gives (apply_all-Gives ps mu (us.0)) λ mu' u'. gives (mu' ∷ mus) (u', us.1))
  | inr e ↦
      rw e (>>=-Gives (apply_to-Gives name ps mus (us.1)) λ mus' us'. gives (mu ∷ mus') (us.0, us'))
]

apply_access_points-Gives :
    (caps : List Node) (mus : List MergingUnit)
    → AreUnits mus
    → Gives AreUnits (apply_access_points caps mus)
unfolding apply_access_points
apply_access_points-Gives [] mus us = gives mus us
apply_access_points-Gives (cap ∷ caps) mus us =
    >>=-Gives (one (attribute "iedName" cap)) (λ mus' us'. apply_access_points-Gives caps mus' us')
  where
    one : (o : Option String) → Gives {E = ScdError} AreUnits (apply_access_point o cap mus)
    one none = gives mus us
    one (some name) = apply_to-Gives name (named "P" (descendants cap)) mus us

-- `parse_scd` never panics, and every unit that it returns has a stream, with a rate of a positive
-- `u32`, an address of six bytes and an APPID of 16 bits.
pub parse_scd-Gives : (document : Option Node) → Gives AreUnits (parse_scd document)
unfolding parse_scd
parse_scd-Gives none = fails xml
parse_scd-Gives (some root) = elim (Bool-cases (eq_local_name root "SCL")) [
  | inl e ↦ rw e (
      apply_access_points-Gives (named "ConnectedAP" (descendants root)) _
        (gather-AreUnits (named "IED" (children root))))
  | inr e ↦ rw e (fails _)
]
