-- ===== src/Operational/Saved.antt =====
-- One save of the `OperationalState` of crates/svdc-console/src/operational/mod.rs, and what a process
-- that starts reads from the file.
use Prim.Native.String.{String}
use svdc.Base.{
  ℕ, ◌≡◌, refl, sym, ap, ◌∙◌, err-ne-ok, panic-ne-ok, ◌==◌, Bool, true, false, Bool-cases, Option,
  none, some, [], map, length, Outcome, ok, err, panic, inl, inr,
}
use svdc.Base.Assoc
use svdc.Base.Assoc.{lookup, insert, remove, insert_all, Unique, string_eq}
use svdc.Operational.{channel_key_eq, OperationalState, new}
use svdc.Operational.Persist.{
  PersistedDocument, PersistError, persisted, restored, sort_entries, document, Disk,
  persist_version, to_toml, replace_with, replace_from_toml, set_path, load, configure_persistence,
  save_to_path, write_body, save_at, auto_save,
}
use svdc.Operational.Order.{pairs}

-- a disk on which every operation succeeds
pub record IsReady {Text : Type 0} (disk : Disk Text) : Type 0 where
  pub readable : disk.readable ≡ true
  pub writable : disk.writable ≡ true
  pub renamable : disk.renamable ≡ true

module _ {Text : Type 0} (to_string_pretty : PersistedDocument → Option Text)
    (from_str : Text → Option PersistedDocument) (with_extension : String → String) where
  -- the disk after a save
  abbrev pub saved : String → Text → Disk Text → Disk Text
  saved path t disk = record disk {
    files =
        insert path t (remove (with_extension path) (insert (with_extension path) t disk.files));
  }

  to_toml-ok :
      (s : OperationalState) (t : Text)
      → to_string_pretty (document s) ≡ some t
      → to_toml to_string_pretty from_str with_extension s ≡ ok t
  unfolding to_toml
  to_toml-ok s t ts = rw (to_toml, ts) refl

  write_body-saved :
      (path : String) (t : Text) (disk : Disk Text)
      → IsReady disk
      → (write_body to_string_pretty from_str with_extension (ok t) path disk).1 ≡ saved path t disk
  unfolding write_body
  write_body-saved path t disk r = rw (r.writable, r.renamable) refl

  pub auto_save-saved :
      (path : String) (s : OperationalState) (t : Text) (disk : Disk Text)
      → IsReady disk
      → s.persistence_path ≡ some path
      → to_string_pretty (document s) ≡ some t
      → auto_save to_string_pretty from_str with_extension s disk ≡ saved path t disk
  unfolding auto_save save_to_path
  auto_save-saved path s t disk r p ts =
      ap (λ o. (save_at to_string_pretty from_str with_extension o s disk).1) p
      ∙ ap (λ b. (write_body to_string_pretty from_str with_extension b path disk).1)
          (to_toml-ok s t ts)
      ∙ write_body-saved path t disk r

  -- what a fresh process reads from that disk
  pub configure_persistence-saved :
      (path : String) (s : OperationalState) (t : Text) (disk : Disk Text)
      → IsReady disk
      → from_str t ≡ some (document s)
      → configure_persistence to_string_pretty from_str with_extension path (saved path t disk) new
        ≡ (
          ok (length (insert_all (pairs (sort_entries (map persisted s.calibrations))) [])),
          record {
            calibrations = insert_all (pairs (sort_entries (map persisted s.calibrations))) [];
            persistence_path = some path;
          },
        )
  unfolding configure_persistence document
  configure_persistence-saved path s t disk r fs =
      let k : lookup path (saved path t disk).files ≡ some t = Assoc.lookup-insert_self path t _ in
      rw (k, load, replace_from_toml, r.readable, fs) refl

  pub set_path-ok :
      (path : String) (n : ℕ) (s : OperationalState) (r : Outcome PersistError ℕ × OperationalState)
      → set_path to_string_pretty from_str with_extension path r ≡ (ok n, s)
      → (s.persistence_path ≡ some path) × (s.calibrations ≡ r.1.calibrations)
  set_path-ok path n s (ok m, q) e = (
    sym (ap (λ (x : Outcome PersistError ℕ × OperationalState). x.1.persistence_path) e),
    sym (ap (λ (x : Outcome PersistError ℕ × OperationalState). x.1.calibrations) e),
  )
  set_path-ok path n s (err x, q) e = absurd (err-ne-ok x n (ap (λ x. x.0) e))
  set_path-ok path n s (panic, q) e = absurd (panic-ne-ok n (ap (λ x. x.0) e))

  replace_with-Unique :
      (o : Option PersistedDocument)
      → Unique (replace_with to_string_pretty from_str with_extension o new).1.calibrations
  replace_with-Unique none = tt
  replace_with-Unique (some doc) = elim (Bool-cases (doc.version == persist_version)) [
    | inl q ↦ rw q (Assoc.insert_all-Unique (map restored doc.calibration) [] tt)
    | inr q ↦ rw q tt
  ]

  pub load-Unique :
      (readable : Bool) (o : Option Text)
      → Unique (load to_string_pretty from_str with_extension readable o new).1.calibrations
  unfolding load replace_from_toml
  load-Unique readable none = tt
  load-Unique true (some text) = replace_with-Unique (from_str text)
  load-Unique false (some text) = tt
