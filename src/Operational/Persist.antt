-- ===== src/Operational/Persist.antt =====
-- The file of `OperationalState` in crates/svdc-console/src/operational/mod.rs: what is written, what is
-- read back, and the operations that save on their own.
use Prim.Native.Nat.{Ordering}
use Prim.Native.String.{String, compare as str_compare}
use svdc.Base.{
  ℕ, leb, ◌==◌, if◌then◌else◌, Bool, true, false, Option, none, some, List, [], ◌∷◌, map, length,
  Outcome, ok, err, panic,
}
use svdc.Base.Assoc.{lookup, insert, remove, insert_all, string_eq}
use svdc.Operational.{Calibration, ChannelKey, OperationalState, or_default, channel_key_eq}

pub record PersistedEntry : Type 0 where
  pub mu_id : String
  pub channel_idx : ℕ
  pub gain : ℕ
  pub offset : ℕ
  pub unit_scale : ℕ

pub record PersistedDocument : Type 0 where
  pub version : ℕ
  pub calibration : List PersistedEntry

abbrev pub persist_version : ℕ
persist_version = 1

pub data PersistError : Type 0 where
  io serialize deserialize : PersistError
  unsupported_version : ℕ → PersistError

abbrev pub persisted : ChannelKey × Calibration → PersistedEntry
persisted (k, v) = record {
  mu_id = k.mu_id;
  channel_idx = k.channel_idx;
  gain = v.gain;
  offset = v.offset;
  unit_scale = v.unit_scale;
}

abbrev pub restored : PersistedEntry → ChannelKey × Calibration
restored e = (
  record { mu_id = e.mu_id; channel_idx = e.channel_idx },
  record { gain = e.gain; offset = e.offset; unit_scale = e.unit_scale },
)

-- `a.mu_id.cmp(&b.mu_id).then_with(|| a.channel_idx.cmp(&b.channel_idx))` is not greater
abbrev pub entry_le : PersistedEntry → PersistedEntry → Bool
entry_le a b = elim (str_compare a.mu_id b.mu_id) [
  | Ordering.lt ↦ true
  | Ordering.eq ↦ leb a.channel_idx b.channel_idx
  | Ordering.gt ↦ false
]

unfoldable pub insert_entry : PersistedEntry → List PersistedEntry → List PersistedEntry
insert_entry e [] = e ∷ []
insert_entry e (x ∷ entries) = if entry_le e x then e ∷ x ∷ entries else x ∷ insert_entry e entries

unfoldable pub sort_entries : List PersistedEntry → List PersistedEntry
unfolding insert_entry
sort_entries [] = []
sort_entries (e ∷ entries) = insert_entry e (sort_entries entries)

unfoldable pub document : OperationalState → PersistedDocument
unfolding sort_entries
document s = record {
  version = persist_version;
  calibration = sort_entries (map persisted s.calibrations);
}

-- the files, and whether one can be read, written and renamed
pub record Disk (Text : Type 0) : Type 0 where
  pub files : List (String × Text)
  pub readable : Bool
  pub writable : Bool
  pub renamable : Bool

-- the TOML library, and `Path::with_extension`
module _ {Text : Type 0} (to_string_pretty : PersistedDocument → Option Text)
    (from_str : Text → Option PersistedDocument) (with_extension : String → String) where
  unfoldable pub to_toml : OperationalState → Outcome PersistError Text
  unfolding document
  to_toml s = elim (to_string_pretty (document s)) [ none ↦ err serialize | some text ↦ ok text ]

  abbrev pub replace_with :
      Option PersistedDocument → OperationalState → Outcome PersistError ℕ × OperationalState
  replace_with none s = (err deserialize, s)
  replace_with (some doc) s =
      let g = insert_all (map restored doc.calibration) [] in
      if doc.version == persist_version
      then (ok (length g), record s { calibrations = g })
      else (err (unsupported_version doc.version), s)

  unfoldable pub replace_from_toml :
      Text → OperationalState → Outcome PersistError ℕ × OperationalState
  replace_from_toml text s = replace_with (from_str text) s

  abbrev pub set_path :
      String → Outcome PersistError ℕ × OperationalState → Outcome PersistError ℕ × OperationalState
  set_path path (ok n, s) = (ok n, record s { persistence_path = some path })
  set_path path (err x, s) = (err x, s)
  set_path path (panic, s) = (panic, s)

  unfoldable pub load :
      Bool → Option Text → OperationalState → Outcome PersistError ℕ × OperationalState
  unfolding replace_from_toml
  load readable none s = (ok 0, s)
  load readable (some text) s = if readable then replace_from_toml text s else (err io, s)

  unfoldable pub configure_persistence :
      String → Disk Text → OperationalState → Outcome PersistError ℕ × OperationalState
  unfolding load
  configure_persistence path disk s = set_path path (load disk.readable (lookup path disk.files) s)

  -- `std::fs::rename` of the file beside it
  abbrev pub rename_over : Text → String → Disk Text → Outcome PersistError (Unit {0}) × Disk Text
  rename_over body path disk =
      if disk.renamable
      then (
        ok tt,
        record disk { files = insert path body (remove (with_extension path) disk.files) },
      )
      else (err io, disk)

  -- the body is written beside the file and renamed over it
  unfoldable pub write_body :
      Outcome PersistError Text → String → Disk Text → Outcome PersistError (Unit {0}) × Disk Text
  write_body (ok body) path disk =
      if disk.writable
      then rename_over body path
          (record disk { files = insert (with_extension path) body disk.files })
      else (err io, disk)
  write_body (err x) path disk = (err x, disk)
  write_body panic path disk = (panic, disk)

  unfoldable pub save_to_path :
      String → OperationalState → Disk Text → Outcome PersistError (Unit {0}) × Disk Text
  unfolding to_toml write_body
  save_to_path path s disk = write_body (to_toml s) path disk

  unfoldable pub save_at :
      Option String → OperationalState → Disk Text → Outcome PersistError (Unit {0}) × Disk Text
  unfolding save_to_path
  save_at none s disk = (ok tt, disk)
  save_at (some path) s disk = save_to_path path s disk

  unfoldable pub save_now :
      OperationalState → Disk Text → Outcome PersistError (Unit {0}) × Disk Text
  unfolding save_at
  save_now s disk = save_at s.persistence_path s disk

  -- the error is logged, and dropped
  unfoldable pub auto_save : OperationalState → Disk Text → Disk Text
  unfolding save_at
  auto_save s disk = (save_at s.persistence_path s disk).1

  unfoldable pub set_calibration :
      ChannelKey
      → Calibration
      → OperationalState
      → Disk Text
      → Calibration × OperationalState × Disk Text
  unfolding auto_save
  set_calibration key value s disk =
      let prev = or_default (lookup key s.calibrations) in
      let s' = record s { calibrations = insert key value s.calibrations } in
      (prev, s', auto_save s' disk)

  unfoldable pub save_if : Option Calibration → OperationalState → Disk Text → Disk Text
  unfolding auto_save
  save_if none s disk = disk
  save_if (some c) s disk = auto_save s disk

  unfoldable pub reset_calibration :
      ChannelKey → OperationalState → Disk Text → Option Calibration × OperationalState × Disk Text
  unfolding save_if
  reset_calibration key s disk =
      let removed = lookup key s.calibrations in
      let s' = record s { calibrations = remove key s.calibrations } in
      (removed, s', save_if removed s' disk)
