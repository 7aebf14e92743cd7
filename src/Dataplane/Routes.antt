-- ===== src/Dataplane/Routes.antt =====
-- The routes of crates/svdc-console/src/routes/dataplane.rs: each does one step on the data plane and
-- answers with the snapshot after it. The path of the historian's file and whether it exists are arguments;
-- the panel around the snapshot is left out.
use svdc.Base.{ℕ, Bool, Option, none, some, List, ◌||◌, if◌then◌else◌}
use svdc.Base.Texts.{codes, same_text}
use svdc.Dataplane
use svdc.Dataplane.{DataPipeline, inject_tamper}
use svdc.Dataplane.Snapshot.{DataPipelineSnapshot, snapshot}

-- the response and the state after it
abbrev pub Page : Type 0
Page = DataPipelineSnapshot × DataPipeline

module _ (path : List ℕ) (exists : Bool) where
  abbrev pub status_json : DataPipeline → Page
  status_json pipe = snapshot path exists pipe

  -- an error is dropped
  abbrev pub start : DataPipeline → Page
  start pipe = snapshot path exists (Dataplane.start pipe).1

  abbrev pub stop : DataPipeline → Page
  stop pipe = snapshot path exists (Dataplane.stop pipe).1

  abbrev pub tamper : ℕ → DataPipeline → Page
  tamper now pipe = snapshot path exists (inject_tamper now pipe)

  abbrev pub reset : DataPipeline → Page
  reset pipe = snapshot path exists (Dataplane.reset pipe)

  abbrev preset_of : List ℕ → Option (List ℕ)
  preset_of vendor =
      if same_text vendor (codes "") || same_text vendor (codes "none") then none else some vendor

  abbrev pub set_vendor : List ℕ → DataPipeline → Page
  set_vendor vendor pipe = snapshot path exists (Dataplane.set_vendor (preset_of vendor) pipe).1

pub data Download : Type 0 where
  csv : (bytes : List ℕ) → Download
  not_found : Download

-- the file, or nothing when it cannot be read
abbrev pub historian_csv : Option (List ℕ) → Download
historian_csv none = not_found
historian_csv (some bytes) = csv bytes
