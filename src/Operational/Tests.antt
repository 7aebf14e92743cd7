-- ===== src/Operational/Tests.antt =====
-- The operational state on a concrete disk, where a text is the document itself.
use Prim.Native.String.{String}
use svdc.Base.{◌≡◌, refl, ℕ, Option, some, List, [], ◌∷◌, true, false, ok, err}
use svdc.Base.Assoc.{lookup, string_eq}
use svdc.Operational.{
  Calibration, ChannelKey, OperationalState, new, calibration, default_calibration, is_identity,
  one,
}
use svdc.Operational.Persist.{PersistedDocument, unsupported_version, Disk, configure_persistence}
use svdc.Operational.Saved.{IsReady}
use svdc.Operational.Durable.{Op, set, reset, run, configure_persistence-restart}
use svdc.Operational.Refused.{Cause, configure_persistence-error}

abbrev write_doc : PersistedDocument → Option PersistedDocument
write_doc d = some d

abbrev tmp : String → String
tmp path = "operational.toml.tmp"

abbrev file : String
file = "operational.toml"

abbrev channel_0 : ChannelKey
channel_0 = record { mu_id = "MU-A"; channel_idx = 0 }

abbrev channel_4 : ChannelKey
channel_4 = record { mu_id = "MU-A"; channel_idx = 4 }

-- gain 2.0, offset 0.0 and unit scale 1.0
abbrev doubled : Calibration
doubled = record { gain = 0x4000_0000; offset = 0; unit_scale = one }

abbrev empty_disk : Disk PersistedDocument
empty_disk = record { files = []; readable = true; writable = true; renamable = true }

abbrev empty_disk_ready : IsReady empty_disk
empty_disk_ready = record { readable = refl; writable = refl; renamable = refl }

abbrev started : OperationalState
started = record { calibrations = []; persistence_path = some file }

abbrev changes : List Op
changes = set channel_4 doubled ∷ set channel_0 doubled ∷ reset channel_4 ∷ []

default_is_identity : is_identity default_calibration ≡ true
unfolding is_identity
default_is_identity = refl

doubled_is_not : is_identity doubled ≡ false
unfolding is_identity
doubled_is_not = refl

first_start : configure_persistence write_doc write_doc tmp file empty_disk new ≡ (ok 0, started)
unfolding configure_persistence lookup
first_start = refl

configure_persistence-restart_example :
    (n : ℕ) × (s : OperationalState) × (configure_persistence write_doc write_doc tmp file
        (run write_doc write_doc tmp changes (started, empty_disk)).1
        new
      ≡ (ok n, s))
    × (calibration channel_0 s
        ≡ calibration channel_0 (run write_doc write_doc tmp changes (started, empty_disk)).0)
configure_persistence-restart_example =
    configure_persistence-restart write_doc write_doc tmp (λ d f. (d, refl, refl)) file empty_disk 0
      started changes channel_0 empty_disk_ready first_start tt
      ((refl, refl, refl), ((refl, refl, refl), (tt, tt)))

abbrev from_the_future : Disk PersistedDocument
from_the_future = record empty_disk {
  files = (file, record { version = 999; calibration = [] }) ∷ [];
}

future_refused :
    configure_persistence write_doc write_doc tmp file from_the_future new
    ≡ (err (unsupported_version 999), new)
unfolding configure_persistence lookup
future_refused = refl

configure_persistence-error_example :
    (new ≡ new)
    × ((text : PersistedDocument) × (lookup file from_the_future.files ≡ some text)
        × Cause write_doc write_doc tmp true text (unsupported_version 999))
configure_persistence-error_example =
    configure_persistence-error write_doc write_doc tmp file from_the_future new new
      (unsupported_version 999) future_refused
