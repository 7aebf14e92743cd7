-- ===== src/Vendor/Reported.antt =====
-- What the audit trail of crates/ssiec-sv-publisher/src/vendor_loader.rs tells about a loaded profile.
use Prim.Native.String.{String}
use text.Mathlib.Text.{◌==◌ as str_eq}
use text.Mathlib.TextPositions.{eq_refl}
use svdc.Base.{
  ℕ, ◌≡◌, ◌⊎◌, inl, inr, refl, true, ◌||◌, Bool-cases, Option, none, some, List, [], ◌∷◌, ok, Gives,
  gives, fails, >>=-Gives, if-keeps,
}
use svdc.Base.Texts.{codes}
use svdc.Scd.Xml.{Node, attribute, unwrap_or, text_of, descendants, first, children}
use svdc.Scd.Numbers.{trim}
use svdc.Wire.Frame.{VlanTag}
use svdc.Vendor.{VendorProfile}
use svdc.Vendor.Valid.{parse_u32-Gives, parse_u16_hex-Gives, parse_u8-Gives, parse_mac-Gives}
use svdc.Vendor.Icd.{
  LoadError, Merge, LoadedProfile, in_set, insert, tagged, set_svid, set_conf_rev, set_rate,
  Address, set_appid, set_mac, set_vlan_id, set_vlan_pri, set_parameter, set_parameters, set_tag,
  set_vlan, is_given, with_address, with_smv, merged, load_from_icd_str,
}

-- the field is named, or its value is the old one
abbrev Told {ℓ} : {A : Type ℓ} → String → List String → A → A → Type ℓ
Told field fields now before = (in_set field fields ≡ true) ⊎ (now ≡ before)

in_set-insert : (g : String) (fields : List String) → in_set g (insert g fields) ≡ true
unfolding in_set insert
in_set-insert g fields = elim (Bool-cases (in_set g fields)) [
  | inl e ↦ rw (e, e) refl
  | inr e ↦ rw (e, eq_refl g) refl
]

in_set-insert-other :
    (f g : String) (fields : List String)
    → in_set f fields ≡ true
    → in_set f (insert g fields) ≡ true
unfolding in_set insert
in_set-insert-other f g fields h = elim (Bool-cases (in_set g fields)) [
  | inl e ↦ rw (e, h) refl
  | inr e ↦ elim (Bool-cases (str_eq g f)) [ inl s ↦ rw (e, s) refl | inr s ↦ rw (e, s, h) refl ]
]

Told-insert {ℓ} :
    {A : Type ℓ} (g f : String) (fields : List String) {now before : A}
    → Told f fields now before
    → Told f (insert g fields) now before
Told-insert g f fields (inl h) = inl (in_set-insert-other f g fields h)
Told-insert g f fields (inr e) = inr e

-- what a profile holds is what the base held, or its field is in the audit trail
pub record Reported (base p : VendorProfile) (fields : List String) : Type 0 where
  pub name : p.name ≡ base.name
  pub mac_oui : p.mac_oui ≡ base.mac_oui
  pub notes : p.notes ≡ base.notes
  pub svid : Told "svid_template" fields p.svid_template base.svid_template
  pub conf_rev : Told "default_conf_rev" fields p.default_conf_rev base.default_conf_rev
  pub rate : Told "default_smp_rate_hz" fields p.default_smp_rate_hz base.default_smp_rate_hz
  pub appid : Told "default_appid" fields p.default_appid base.default_appid
  pub mac : Told "multicast_mac" fields p.multicast_mac base.multicast_mac
  pub vlan : Told "vlan" fields p.vlan base.vlan

Reported-insert :
    (g : String) {base p : VendorProfile} {fields : List String}
    → Reported base p fields
    → Reported base p (insert g fields)
Reported-insert g {fields = fields} r = record {
  name = r.name;
  mac_oui = r.mac_oui;
  notes = r.notes;
  svid = Told-insert g "svid_template" fields r.svid;
  conf_rev = Told-insert g "default_conf_rev" fields r.conf_rev;
  rate = Told-insert g "default_smp_rate_hz" fields r.rate;
  appid = Told-insert g "default_appid" fields r.appid;
  mac = Told-insert g "multicast_mac" fields r.mac;
  vlan = Told-insert g "vlan" fields r.vlan;
}

module _ (base : VendorProfile) where
  abbrev Tracked : Merge → Type 0
  Tracked m = Reported base m.profile m.overridden

  abbrev TrackedAddress : Address → Type 0
  TrackedAddress a = Tracked a.merge

  set_svid-Tracked : (o : Option String) (m : Merge) → Tracked m → Tracked (set_svid o m)
  unfolding set_svid
  set_svid-Tracked none m r = r
  set_svid-Tracked (some s) m r =
      let k = Reported-insert "svid_template" r in
      record {
        name = k.name;
        mac_oui = k.mac_oui;
        notes = k.notes;
        svid = inl (in_set-insert "svid_template" m.overridden);
        conf_rev = k.conf_rev;
        rate = k.rate;
        appid = k.appid;
        mac = k.mac;
        vlan = k.vlan;
      }

  set_conf_rev-Tracked :
      (o : Option String) (m : Merge) → Tracked m → Gives Tracked (set_conf_rev o m)
  unfolding set_conf_rev
  set_conf_rev-Tracked none m r = gives m r
  set_conf_rev-Tracked (some s) m r =
      let k = Reported-insert "default_conf_rev" r in
      >>=-Gives (parse_u32-Gives (codes s) "confRev") (λ v p. gives _ (record {
        name = k.name;
        mac_oui = k.mac_oui;
        notes = k.notes;
        svid = k.svid;
        conf_rev = inl (in_set-insert "default_conf_rev" m.overridden);
        rate = k.rate;
        appid = k.appid;
        mac = k.mac;
        vlan = k.vlan;
      }))

  set_rate-Tracked : (o : Option String) (m : Merge) → Tracked m → Gives Tracked (set_rate o m)
  unfolding set_rate
  set_rate-Tracked none m r = gives m r
  set_rate-Tracked (some s) m r =
      let k = Reported-insert "default_smp_rate_hz" r in
      >>=-Gives (parse_u32-Gives (codes s) "smpRate") (λ v p. gives _ (record {
        name = k.name;
        mac_oui = k.mac_oui;
        notes = k.notes;
        svid = k.svid;
        conf_rev = k.conf_rev;
        rate = inl (in_set-insert "default_smp_rate_hz" m.overridden);
        appid = k.appid;
        mac = k.mac;
        vlan = k.vlan;
      }))

  set_appid-Tracked :
      (text : List ℕ) (a : Address) → TrackedAddress a → Gives TrackedAddress (set_appid text a)
  unfolding set_appid
  set_appid-Tracked text a r =
      let k = Reported-insert "default_appid" r in
      >>=-Gives (parse_u16_hex-Gives text "APPID") (λ v p. gives _ (record {
        name = k.name;
        mac_oui = k.mac_oui;
        notes = k.notes;
        svid = k.svid;
        conf_rev = k.conf_rev;
        rate = k.rate;
        appid = inl (in_set-insert "default_appid" a.merge.overridden);
        mac = k.mac;
        vlan = k.vlan;
      }))

  set_mac-Tracked :
      (text : List ℕ) (a : Address) → TrackedAddress a → Gives TrackedAddress (set_mac text a)
  unfolding set_mac
  set_mac-Tracked text a r =
      let k = Reported-insert "multicast_mac" r in
      >>=-Gives (parse_mac-Gives text) (λ v p. gives _ (record {
        name = k.name;
        mac_oui = k.mac_oui;
        notes = k.notes;
        svid = k.svid;
        conf_rev = k.conf_rev;
        rate = k.rate;
        appid = k.appid;
        mac = inl (in_set-insert "multicast_mac" a.merge.overridden);
        vlan = k.vlan;
      }))

  set_vlan_id-Tracked :
      (text : List ℕ) (a : Address) → TrackedAddress a → Gives TrackedAddress (set_vlan_id text a)
  unfolding set_vlan_id
  set_vlan_id-Tracked text a r = >>=-Gives (parse_u16_hex-Gives text "VLAN-ID") (λ v p. gives _ r)

  set_vlan_pri-Tracked :
      (text : List ℕ) (a : Address) → TrackedAddress a → Gives TrackedAddress (set_vlan_pri text a)
  unfolding set_vlan_pri
  set_vlan_pri-Tracked text a r = >>=-Gives (parse_u8-Gives text "VLAN-PRIORITY") (λ v p. gives _ r)

  set_parameter-Tracked :
      (kind : String) (text : List ℕ) (a : Address)
      → TrackedAddress a
      → Gives TrackedAddress (set_parameter kind text a)
  unfolding set_parameter
  set_parameter-Tracked kind text a r =
      let same : Gives {E = LoadError} TrackedAddress (ok a) = gives a r in
      search
        (
          if-keeps (Gives {E = LoadError} TrackedAddress),
          same,
          set_appid-Tracked text a r,
          set_mac-Tracked text a r,
          set_vlan_id-Tracked text a r,
          set_vlan_pri-Tracked text a r,
        )
        depth 10

  set_parameters-Tracked :
      (ps : List Node) (a : Address) → TrackedAddress a → Gives TrackedAddress (set_parameters ps a)
  unfolding set_parameters
  set_parameters-Tracked [] a r = gives a r
  set_parameters-Tracked (p ∷ ps) a r =
      >>=-Gives
        (set_parameter-Tracked (unwrap_or (attribute "type" p) "")
          (trim (codes (unwrap_or (text_of p) ""))) a r)
        (λ a' r'. set_parameters-Tracked ps a' r')

  set_tag-Tracked : (t : VlanTag) (m : Merge) → Tracked m → Tracked (set_tag t m)
  unfolding set_tag
  set_tag-Tracked t m r =
      let k = Reported-insert "vlan" r in
      record {
        name = k.name;
        mac_oui = k.mac_oui;
        notes = k.notes;
        svid = k.svid;
        conf_rev = k.conf_rev;
        rate = k.rate;
        appid = k.appid;
        mac = k.mac;
        vlan = inl (in_set-insert "vlan" m.overridden);
      }

  set_vlan-Tracked : (a : Address) → TrackedAddress a → Tracked (set_vlan a)
  unfolding set_vlan
  set_vlan-Tracked a r =
      if-keeps Tracked (is_given a.vlan_id || is_given a.vlan_pri) (set_tag-Tracked _ a.merge r) r

  with_address-Tracked :
      (o : Option Node) (m : Merge) → Tracked m → Gives Tracked (with_address o m)
  unfolding with_address
  with_address-Tracked none m r = gives m r
  with_address-Tracked (some address) m r =
      >>=-Gives
        (set_parameters-Tracked (tagged "P" (children address))
          (record { merge = m; vlan_id = none; vlan_pri = none }) r)
        (λ a w. gives (set_vlan a) (set_vlan-Tracked a w))

  with_smv-Tracked : (o : Option Node) (m : Merge) → Tracked m → Gives Tracked (with_smv o m)
  unfolding with_smv
  with_smv-Tracked none m r = gives m r
  with_smv-Tracked (some smv) m r =
      with_address-Tracked (first (tagged "Address" (children smv))) m r

  base-Reported : Reported base base []
  base-Reported = record {
    name = refl;
    mac_oui = refl;
    notes = refl;
    svid = inr refl;
    conf_rev = inr refl;
    rate = inr refl;
    appid = inr refl;
    mac = inr refl;
    vlan = inr refl;
  }

  merged-Tracked : (o : Option Node) (root : Node) → Gives Tracked (merged o root base)
  unfolding merged
  merged-Tracked none root = fails _
  merged-Tracked (some control) root =
      >>=-Gives
        (set_conf_rev-Tracked (attribute "confRev" control) _ (
          set_svid-Tracked (attribute "smvID" control) (record { profile = base; overridden = [] })
            base-Reported))
        (λ m r.
          >>=-Gives (set_rate-Tracked (attribute "smpRate" control) m r)
            (λ m' r'. with_smv-Tracked (first (tagged "SMV" (descendants root))) m' r'))

abbrev pub TracksBase : VendorProfile → LoadedProfile → Type 0
TracksBase base l = Reported base l.profile l.overridden

-- Whatever the document holds, the loader fails or returns a profile that keeps the name, the OUI and the
-- notes of the base, and of which each other field has the base's value or is named in `overridden`.
pub load_from_icd_str-Reported :
    (document : Option Node) (base : VendorProfile)
    → Gives (TracksBase base) (load_from_icd_str document base)
unfolding load_from_icd_str
load_from_icd_str-Reported none base = fails _
load_from_icd_str-Reported (some root) base =
    >>=-Gives (merged-Tracked base (first (tagged "SampledValueControl" (descendants root))) root)
      (λ m r. gives _ r)
