-- ===== src/Operational/Refused.antt =====
-- The files that `configure_persistence` of crates/svdc-console/src/operational/mod.rs refuses.
use Prim.Native.String.{String}
use mathlib.Core.Path.{subst}
use svdc.Base.{
  ℕ, ◌≡◌, refl, sym, ap, err-ne-ok, err-injective, ◌==◌, Bool, true, false, Bool-cases, Option,
  none, some, Option-cases, Outcome, ok, err, inl, inr,
}
use svdc.Base.Assoc.{lookup, string_eq}
use svdc.Operational.{channel_key_eq, OperationalState}
use svdc.Operational.Persist.{
  PersistedDocument, PersistError, io, deserialize, unsupported_version, Disk, persist_version,
  replace_with, replace_from_toml, set_path, load, configure_persistence,
}

module _ {Text : Type 0} (to_string_pretty : PersistedDocument → Option Text)
    (from_str : Text → Option PersistedDocument) (with_extension : String → String) where
  -- why a file is refused
  pub data Cause (readable : Bool) (text : Text) : PersistError → Type 0 where
    unreadable : readable ≡ false → Cause readable text io
    garbled : from_str text ≡ none → Cause readable text deserialize
    other_version :
        (doc : PersistedDocument)
        → from_str text ≡ some doc
        → (doc.version == persist_version) ≡ false
        → Cause readable text (unsupported_version doc.version)

  -- what an attempt to load came to
  data Loads (readable : Bool) (text : Text) (s : OperationalState)
      : Outcome PersistError ℕ × OperationalState → Type 0 where
    replaced : (n : ℕ) (s' : OperationalState) → Loads readable text s (ok n, s')
    refused : (x : PersistError) → Cause readable text x → Loads readable text s (err x, s)

  replace_with-Loads :
      (readable : Bool) (text : Text) (o : Option PersistedDocument) (s : OperationalState)
      → from_str text ≡ o
      → Loads readable text s (replace_with to_string_pretty from_str with_extension o s)
  replace_with-Loads readable text none s e = refused deserialize (garbled e)
  replace_with-Loads readable text (some doc) s e =
      elim (Bool-cases (doc.version == persist_version)) [
        | inl v ↦ rw v (replaced _ _)
        | inr v ↦ rw v (refused _ (other_version doc e v))
      ]

  load-Loads :
      (readable : Bool) (text : Text) (s : OperationalState)
      → Loads readable text s (load to_string_pretty from_str with_extension readable (some text) s)
  unfolding load replace_from_toml
  load-Loads true text s = replace_with-Loads true text (from_str text) s refl
  load-Loads false text s = refused io (unreadable refl)

  Loads-err :
      (path : String) (readable : Bool) (text : Text) (s s' : OperationalState) (x : PersistError)
      (r : Outcome PersistError ℕ × OperationalState)
      → Loads readable text s r
      → set_path to_string_pretty from_str with_extension path r ≡ (err x, s')
      → (s' ≡ s) × Cause readable text x
  Loads-err path readable text s s' x r (replaced n q) e =
      absurd (err-ne-ok x n (sym (ap (λ p. p.0) e)))
  Loads-err path readable text s s' x r (refused y c) e =
      let w : y ≡ x = err-injective y x (ap (λ p. p.0) e) in
      (sym (ap (λ p. p.1) e), subst (λ z. Cause readable text z) w c)

  -- `configure_persistence` fails only on a file that is there, with the error that tells why: it
  -- cannot be read, it does not parse, or its version is not the one that is written. The state is then
  -- as it was, its path included.
  pub configure_persistence-error :
      (path : String) (disk : Disk Text) (s s' : OperationalState) (x : PersistError)
      → configure_persistence to_string_pretty from_str with_extension path disk s ≡ (err x, s')
      → (s' ≡ s)
        × ((text : Text) × (lookup path disk.files ≡ some text) × Cause disk.readable text x)
  unfolding configure_persistence load
  configure_persistence-error path disk s s' x e = elim (Option-cases (lookup path disk.files)) [
    | inl q ↦ absurd (err-ne-ok x 0 (sym (ap (λ p. p.0) (rw q at e))))
    | inr (text, q) ↦
        let (same, c) =
          Loads-err path disk.readable text s s' x _ (load-Loads disk.readable text s)
            (rw q at e) in
        (same, (text, q, c))
  ]
