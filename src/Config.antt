-- ===== src/Config.antt =====
-- The routes of crates/svdc-console/src/routes/config.rs that change the registry of merging units, with
-- the audit event of each. The clock is an argument, and so is what axum's multipart reader returns, field
-- by field; the XML library is a function from a text to a tree, and the built-in sample a text. The
-- message of a response, which is formatted text, is left out.
pub mod Manual
pub mod Held
pub mod Race
mod Tests
use Prim.Native.String.{String}
use text.Mathlib.Text.{◌==◌ as str_eq}
use svdc.Base.{
  ℕ, ◌^◌, min, ◌==◌, if◌then◌else◌, Bool, true, false, ◌&&◌, Option, none, some, List, [], ◌∷◌,
  ◌++◌, map, take, length, Outcome, ok, err, panic, ◌⊎◌, inl, inr,
}
use svdc.Base.Texts.{codes}
use svdc.Audit.{AuditLog, record_event}
use svdc.Audit.Event.{AuditEvent, scd_upload, scd_load_sample, mu_manual_register, registry_cleared}
use svdc.Scd.{
  ChannelUnit, voltage, current, Channel, MergingUnit, ChannelRegistry, replace, snapshot, len,
}
use svdc.Scd.Xml.{Node, unwrap_or}
use svdc.Scd.Numbers.{parse_mac, from_str_radix}
use svdc.Scd.Parse.{ScdError, parse_scd}

-- the characters of a text are scalar values; the defaults of the counts, which are 4, are in place
pub record ManualMuRequest : Type 0 where
  pub id : String
  pub mac : List ℕ
  pub appid : List ℕ
  pub sv_id : String
  pub smp_rate : ℕ
  pub v_count : ℕ
  pub i_count : ℕ

pub data StatusCode : Type 0 where
  status_ok bad_request conflict unprocessable_entity internal_server_error : StatusCode

pub record ScdUploadResponse : Type 0 where
  pub ok : Bool
  pub mu_count : ℕ

pub record ConfigState : Type 0 where
  pub registry : ChannelRegistry
  pub audit : AuditLog AuditEvent

-- a response and the state after it
abbrev pub Reply : Type 0
Reply = (StatusCode × ScdUploadResponse) × ConfigState

abbrev pub parse_mac_string : List ℕ → Option (List ℕ)
parse_mac_string s = parse_mac s

-- `trim_start_matches("0x")`, which takes every such prefix off
unfoldable pub trim_start_matches : List ℕ → List ℕ
trim_start_matches [] = []
trim_start_matches (c ∷ []) = c ∷ []
trim_start_matches (c ∷ d ∷ cs) =
    let rest = trim_start_matches cs in if (c == b'0') && (d == b'x') then rest else c ∷ d ∷ cs

abbrev phase_labels : List (List ℕ)
phase_labels = codes "phsA" ∷ codes "phsB" ∷ codes "phsC" ∷ codes "neut" ∷ []

abbrev voltage_channel : List ℕ → Channel
voltage_channel label = record {
  name = codes "VPhMMXU1.PhV." ++ (label ++ codes ".MX");
  unit = voltage;
}

abbrev current_channel : List ℕ → Channel
current_channel label = record {
  name = codes "IPhMMXU1.A." ++ (label ++ codes ".MX");
  unit = current;
}

-- the channels by the two counts, which are cut to 4
abbrev pub manual_channels : ℕ → ℕ → List Channel
manual_channels v_count i_count =
    map voltage_channel (take (min v_count 4) phase_labels)
    ++ map current_channel (take (min i_count 4) phase_labels)

pub data BuildError : Type 0 where
  invalid_mac invalid_appid zero_smp_rate : BuildError

unfoldable pub with_appid : ManualMuRequest → List ℕ → Option ℕ → BuildError ⊎ MergingUnit
with_appid req mac none = inl invalid_appid
with_appid req mac (some appid) =
    if req.smp_rate == 0
    then inl zero_smp_rate
    else inr (record {
      id = req.id;
      mac = mac;
      appid = appid;
      sv_id = req.sv_id;
      smp_rate = req.smp_rate;
      channels = manual_channels req.v_count req.i_count;
    })

unfoldable pub with_mac : ManualMuRequest → Option (List ℕ) → BuildError ⊎ MergingUnit
unfolding with_appid trim_start_matches
with_mac req none = inl invalid_mac
with_mac req (some mac) =
    with_appid req mac (from_str_radix 16 (2 ^ 16) (trim_start_matches req.appid))

unfoldable pub build_mu : ManualMuRequest → BuildError ⊎ MergingUnit
unfolding with_mac
build_mu req = with_mac req (parse_mac_string req.mac)

-- a refusal: the state stays
abbrev pub refused : StatusCode → ℕ → ConfigState → Reply
refused code n c = ((code, record { ok = false; mu_count = n }), c)

-- the registry replaced, with the event for the number of units that `replace` returns
unfoldable pub install : ℕ → (ℕ → AuditEvent) → List MergingUnit → ConfigState → Reply
unfolding replace record_event
install now event mus c =
    let (n, registry) = replace mus c.registry in
    (
      (status_ok, record { ok = true; mu_count = n }),
      record { registry = registry; audit = record_event now (event n) c.audit },
    )

unfoldable pub api_clear_registry : ℕ → ConfigState → Reply
unfolding replace record_event
api_clear_registry now c =
    let prev = len c.registry in
    (
      (status_ok, record { ok = true; mu_count = 0 }),
      record {
        registry = (replace [] c.registry).1;
        audit = record_event now (registry_cleared prev) c.audit;
      },
    )

-- `snap.iter().any(|m| m.id == mu.id)`
unfoldable pub any_id : String → List MergingUnit → Bool
any_id id [] = false
any_id id (m ∷ mus) = let rest = any_id id mus in if str_eq m.id id then true else rest

-- the copy of the registry with the unit appended, or the size of it on a conflict
unfoldable pub prepare : MergingUnit → ConfigState → ℕ ⊎ List MergingUnit
unfolding any_id
prepare mu c =
    let snap = snapshot c.registry in
    if any_id mu.id snap then inl (length snap) else inr (snap ++ (mu ∷ []))

-- what is done with that copy, in the state at that time
unfoldable pub commit : ℕ → MergingUnit → (ℕ ⊎ List MergingUnit) → ConfigState → Reply
unfolding install
commit now mu (inl n) c = refused conflict n c
commit now mu (inr snap) c = install now (mu_manual_register mu.id) snap c

unfoldable pub register_built : ℕ → (BuildError ⊎ MergingUnit) → ConfigState → Reply
unfolding prepare commit
register_built now (inl e) c = refused bad_request 0 c
register_built now (inr mu) c = commit now mu (prepare mu c) c

-- the route when no other request comes between the copy and the replacement
unfoldable pub api_register_mu : ℕ → ManualMuRequest → ConfigState → Reply
unfolding build_mu register_built
api_register_mu now req c = register_built now (build_mu req) c

-- the bytes of a field: the reader fails, they are no UTF-8, or a text
pub data FieldBytes : Type 0 where
  unreadable not_utf8 : FieldBytes
  utf8 : (text : List ℕ) → FieldBytes

-- what the multipart reader returns before its end
pub data NextField : Type 0 where
  malformed_body : NextField
  field : (name : Option String) (content : FieldBytes) → NextField

pub data UploadError : Type 0 where
  malformed unread no_text : UploadError

abbrev text_of : FieldBytes → UploadError ⊎ Option (List ℕ)
text_of unreadable = inl unread
text_of not_utf8 = inl no_text
text_of (utf8 text) = inr (some text)

-- an error ends the loop, before the fields that follow
abbrev and_next :
    (UploadError ⊎ Option (List ℕ))
    → (Option (List ℕ) → UploadError ⊎ Option (List ℕ))
    → UploadError ⊎ Option (List ℕ)
and_next (inl e) next = inl e
and_next (inr kept) next = next kept

-- the loop over the fields: the last one named `scd` is kept
unfoldable pub read_fields : Option (List ℕ) → List NextField → UploadError ⊎ Option (List ℕ)
read_fields xml_text [] = inr xml_text
read_fields xml_text (malformed_body ∷ fields) = inl malformed
read_fields xml_text (field name content ∷ fields) =
    and_next (if str_eq (unwrap_or name "") "scd" then text_of content else inr xml_text)
      (λ kept. read_fields kept fields)

-- a document is installed, and an error is answered with `code`
unfoldable pub install_parsed :
    ℕ
    → (ℕ → AuditEvent)
    → StatusCode
    → Outcome ScdError (List MergingUnit)
    → ConfigState
    → Outcome ⊥ Reply
unfolding install
install_parsed now event code (ok mus) c = ok (install now event mus c)
install_parsed now event code (err e) c = ok (refused code 0 c)
install_parsed now event code panic c = panic

module _ (document : List ℕ → Option Node) where
  unfoldable pub upload_read : ℕ → (UploadError ⊎ Option (List ℕ)) → ConfigState → Outcome ⊥ Reply
  unfolding install_parsed parse_scd
  upload_read now (inl e) c = ok (refused bad_request 0 c)
  upload_read now (inr none) c = ok (refused bad_request 0 c)
  upload_read now (inr (some xml)) c =
      install_parsed now scd_upload unprocessable_entity (parse_scd (document xml)) c

  unfoldable pub api_upload_scd : ℕ → List NextField → ConfigState → Outcome ⊥ Reply
  unfolding read_fields upload_read
  api_upload_scd now fields c = upload_read now (read_fields none fields) c

  unfoldable pub api_load_sample_scd : ℕ → List ℕ → ConfigState → Outcome ⊥ Reply
  unfolding install_parsed parse_scd
  api_load_sample_scd now sample_scd_xml c =
      install_parsed now scd_load_sample internal_server_error (parse_scd (document sample_scd_xml))
        c
