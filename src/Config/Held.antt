-- ===== src/Config/Held.antt =====
-- What the requests to crates/svdc-console/src/routes/config.rs leave in the registry and in the audit log.
use svdc.Base.{
  ℕ, ◌^◌, ◌<◌, ◌≡◌, true, Bool-cases, ◌⊎◌, inl, inr, Option, none, some, List, [], ◌∷◌, ◌++◌,
  length, All-append, Outcome, ok, err, Gives, gives, fails, refl,
}
use svdc.Audit.{record_event}
use svdc.Audit.Event.{AuditEvent, scd_upload, scd_load_sample, mu_manual_register, registry_cleared}
use svdc.Scd.{MergingUnit, snapshot, replace}
use svdc.Scd.Xml.{Node}
use svdc.Scd.Numbers.{parse_mac, from_str_radix}
use svdc.Scd.Parse.{ScdError, parse_scd}
use svdc.Scd.Valid.{AreUnits, parse_mac-Mac, parse_scd-Gives}
use svdc.Config.{
  ManualMuRequest, StatusCode, status_ok, bad_request, conflict, unprocessable_entity,
  internal_server_error, ConfigState, Reply, BuildError, build_mu, refused, install, any_id,
  prepare, commit, register_built, NextField, UploadError, upload_read, read_fields, install_parsed,
  api_upload_scd, api_load_sample_scd, api_clear_registry, api_register_mu, trim_start_matches,
}
use svdc.Config.Manual.{
  IsHeld, AreHeld, IsManual, HasId, IsBuilt, built, no_mac_built, no_appid_built, no_rate_built,
  with_mac-IsBuilt, HasId-any_id, HasId-any_id_not,
}

AreUnits-AreHeld : (mus : List MergingUnit) → AreUnits mus → AreHeld mus
AreUnits-AreHeld [] us = tt
AreUnits-AreHeld (mu ∷ mus) (u, us) = (
  record {
    rate = u.rate;
    rate_u32 = u.rate_u32;
    six = u.six;
    octets = u.octets;
    appid_u16 = u.appid_u16;
  },
  AreUnits-AreHeld mus us,
)

-- a request to one of the routes, the built-in sample's text with it
pub data Request : Type 0 where
  upload_scd : List NextField → Request
  load_sample_scd : List ℕ → Request
  clear_registry : Request
  register_mu : ManualMuRequest → Request

-- the rate of a registration is a `u32`
abbrev pub IsRequest : Request → Type 0
IsRequest (upload_scd fields) = Unit
IsRequest (load_sample_scd sample) = Unit
IsRequest clear_registry = Unit
IsRequest (register_mu req) = req.smp_rate < 2 ^ 32

abbrev pub serve : (List ℕ → Option Node) → ℕ → Request → ConfigState → Outcome ⊥ Reply
serve document now (upload_scd fields) c = api_upload_scd document now fields c
serve document now (load_sample_scd sample) c = api_load_sample_scd document now sample c
serve document now clear_registry c = ok (api_clear_registry now c)
serve document now (register_mu req) c = ok (api_register_mu now req c)

module _ (document : List ℕ → Option Node) where
  -- why a request over the units `old` is refused, with the status and the number of units reported
  pub data Refuses (old : List MergingUnit) : Request → StatusCode → ℕ → Type 0 where
    no_text_field :
        (fields : List NextField) (e : UploadError)
        → read_fields none fields ≡ inl e
        → Refuses old (upload_scd fields) bad_request 0
    no_scd_field :
        (fields : List NextField)
        → read_fields none fields ≡ inr none
        → Refuses old (upload_scd fields) bad_request 0
    upload_unparsed :
        (fields : List NextField) (xml : List ℕ) (e : ScdError)
        → read_fields none fields ≡ inr (some xml)
        → parse_scd (document xml) ≡ err e
        → Refuses old (upload_scd fields) unprocessable_entity 0
    sample_unparsed :
        (sample : List ℕ) (e : ScdError)
        → parse_scd (document sample) ≡ err e
        → Refuses old (load_sample_scd sample) internal_server_error 0
    bad_mac :
        (req : ManualMuRequest)
        → parse_mac req.mac ≡ none
        → Refuses old (register_mu req) bad_request 0
    bad_appid :
        (req : ManualMuRequest)
        → from_str_radix 16 (2 ^ 16) (trim_start_matches req.appid) ≡ none
        → Refuses old (register_mu req) bad_request 0
    no_rate :
        (req : ManualMuRequest) → req.smp_rate ≡ 0 → Refuses old (register_mu req) bad_request 0
    id_in_use :
        (req : ManualMuRequest) (mu : MergingUnit)
        → IsManual req mu
        → HasId req.id old
        → Refuses old (register_mu req) conflict (length old)

  -- the units that an accepted request leaves in the place of `old`, with the event for it
  pub data Accepts (old : List MergingUnit) : Request → List MergingUnit → AuditEvent → Type 0 where
    uploaded :
        (fields : List NextField) (xml : List ℕ) (mus : List MergingUnit)
        → read_fields none fields ≡ inr (some xml)
        → parse_scd (document xml) ≡ ok mus
        → Accepts old (upload_scd fields) mus (scd_upload (length mus))
    sample_loaded :
        (sample : List ℕ) (mus : List MergingUnit)
        → parse_scd (document sample) ≡ ok mus
        → Accepts old (load_sample_scd sample) mus (scd_load_sample (length mus))
    cleared : Accepts old clear_registry [] (registry_cleared (length old))
    registered :
        (req : ManualMuRequest) (mu : MergingUnit)
        → IsManual req mu
        → ¬ HasId req.id old
        → Accepts old
            (register_mu req)
            (old ++ (mu ∷ []))
            (mu_manual_register mu.id (length (old ++ (mu ∷ []))))

  -- a request answered: refused with nothing changed, or the units it asks for installed, their number
  -- reported, and its event recorded
  pub data IsServed (now : ℕ) (c : ConfigState) (request : Request) : Outcome ⊥ Reply → Type 0 where
    kept :
        (code : StatusCode) (n : ℕ)
        → Refuses (snapshot c.registry) request code n
        → IsServed now c request (ok (refused code n c))
    installed :
        (mus : List MergingUnit) (event : AuditEvent)
        → AreHeld mus
        → Accepts (snapshot c.registry) request mus event
        → IsServed now c request (
            ok (
              (status_ok, record { ok = true; mu_count = length mus }),
              record { registry = record { inner = mus }; audit = record_event now event c.audit },
            ))

  install_parsed-IsServed :
      (now : ℕ) (request : Request) (event : ℕ → AuditEvent) (code : StatusCode)
      (r : Outcome ScdError (List MergingUnit)) (c : ConfigState)
      → ((mus : List MergingUnit)
          → r ≡ ok mus
          → Accepts (snapshot c.registry) request mus (event (length mus)))
      → ((e : ScdError) → r ≡ err e → Refuses (snapshot c.registry) request code 0)
      → Gives AreUnits r
      → IsServed now c request (install_parsed now event code r c)
  unfolding install_parsed install replace
  install_parsed-IsServed now request event code _ c accepts refuses (gives mus us) =
      installed mus (event (length mus)) (AreUnits-AreHeld mus us) (accepts mus refl)
  install_parsed-IsServed now request event code _ c accepts refuses (fails e) =
      kept code 0 (refuses e refl)

  upload_read-IsServed :
      (now : ℕ) (fields : List NextField) (r : UploadError ⊎ Option (List ℕ)) (c : ConfigState)
      → read_fields none fields ≡ r
      → IsServed now c (upload_scd fields) (upload_read document now r c)
  unfolding upload_read
  upload_read-IsServed now fields (inl e) c read = kept bad_request 0 (no_text_field fields e read)
  upload_read-IsServed now fields (inr none) c read = kept bad_request 0 (no_scd_field fields read)
  upload_read-IsServed now fields (inr (some xml)) c read =
      install_parsed-IsServed now (upload_scd fields) scd_upload unprocessable_entity
        (parse_scd (document xml)) c (λ mus. λ e. uploaded fields xml mus read e)
        (λ why. λ e. upload_unparsed fields xml why read e) (parse_scd-Gives (document xml))

module _ (document : List ℕ → Option Node) where
  register_built-IsServed :
      (now : ℕ) (req : ManualMuRequest) (r : BuildError ⊎ MergingUnit) (c : ConfigState)
      → AreHeld (snapshot c.registry)
      → IsBuilt req r
      → IsServed document now c (register_mu req) (ok (register_built now r c))
  unfolding register_built prepare commit install replace
  register_built-IsServed now req _ c held (no_mac_built e why) =
      kept bad_request 0 (bad_mac req why)
  register_built-IsServed now req _ c held (no_appid_built e why) =
      kept bad_request 0 (bad_appid req why)
  register_built-IsServed now req _ c held (no_rate_built e why) =
      kept bad_request 0 (no_rate req why)
  register_built-IsServed now req _ c held (built mu h) =
      let old = snapshot c.registry in
      elim (Bool-cases (any_id mu.id old)) [
        | inl e ↦ rw e (
            kept conflict (length old)
              (id_in_use req mu h (HasId-any_id req.id old (rw h.id at e))))
        | inr e ↦ rw e (
            installed (old ++ (mu ∷ [])) _ (All-append IsHeld old (mu ∷ []) held (h.held, tt))
              (registered req mu h (HasId-any_id_not req.id old (rw h.id at e))))
      ]

-- Over a registry of valid units, no request panics, and each is answered by its contents. It is
-- refused with the status of its reason, and then neither the registry nor the audit log has changed: an
-- upload whose fields fail or leave no document, a document that does not parse, a registration whose MAC,
-- APPID or rate is invalid, or, with the number of units, one whose id a unit has. Otherwise it is accepted:
-- the registry holds valid units alone, their number is reported, and one event is recorded. The units are
-- those of the document, with their number in the event, none after a clear, with the number removed, or
-- those there were followed by the unit that the registration describes, whose id none of them had.
pub serve-IsServed :
    (document : List ℕ → Option Node) (now : ℕ) (request : Request) (c : ConfigState)
    → IsRequest request
    → AreHeld (snapshot c.registry)
    → IsServed document now c request (serve document now request c)
unfolding api_upload_scd api_load_sample_scd api_clear_registry api_register_mu build_mu replace
serve-IsServed document now (upload_scd fields) c r held =
    upload_read-IsServed document now fields (read_fields none fields) c refl
serve-IsServed document now (load_sample_scd sample) c r held =
    install_parsed-IsServed document now (load_sample_scd sample) scd_load_sample
      internal_server_error (parse_scd (document sample)) c (λ mus. λ e. sample_loaded sample mus e)
      (λ why. λ e. sample_unparsed sample why e) (parse_scd-Gives (document sample))
serve-IsServed document now clear_registry c r held = installed [] _ tt cleared
serve-IsServed document now (register_mu req) c r held =
    register_built-IsServed document now req (build_mu req) c held
      (with_mac-IsBuilt req (parse_mac req.mac) r refl (parse_mac-Mac req.mac))
