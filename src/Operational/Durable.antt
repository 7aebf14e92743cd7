-- ===== src/Operational/Durable.antt =====
-- A restart of the process that owns the `OperationalState` of crates/svdc-console/src/operational/mod.rs:
-- what the file holds after any sequence of changes.
use Prim.Native.String.{String}
use mathlib.Core.Path.{subst⁻¹}
use svdc.Base.{
  ℕ, ◌≡◌, refl, sym, ap, ◌∙◌, Option, some, Option-cases, List, [], ◌∷◌, map, All, ok, inl, inr,
}
use svdc.Base.Assoc
use svdc.Base.Assoc.{lookup, insert, remove, insert_all, Unique, string_eq}
use svdc.Operational.{
  Calibration, ChannelKey, channel_key_eq, OperationalState, new, calibration, or_default,
}
use svdc.Operational.Persist.{
  PersistedDocument, persisted, document, Disk, load, configure_persistence, auto_save,
  set_calibration, save_if, reset_calibration,
}
use svdc.Operational.Order.{pairs-persisted, lookup-sort_entries}
use svdc.Operational.Finite.{IsFinite, IsFinitePair, IsFiniteEntry, sort_entries-All}
use svdc.Operational.Saved.{
  IsReady, auto_save-saved, configure_persistence-saved, set_path-ok, load-Unique,
}

pub data Op : Type 0 where
  set : ChannelKey → Calibration → Op
  reset : ChannelKey → Op

abbrev pub IsFiniteOp : Op → Type 0
IsFiniteOp (set key value) = IsFinite value
IsFiniteOp (reset key) = Unit

module _ {Text : Type 0} (to_string_pretty : PersistedDocument → Option Text)
    (from_str : Text → Option PersistedDocument) (with_extension : String → String) where
  unfoldable pub apply : Op → OperationalState × Disk Text → OperationalState × Disk Text
  unfolding set_calibration reset_calibration
  apply (set key value) (s, disk) =
      let (prev, s', disk') =
        set_calibration to_string_pretty from_str with_extension key value s disk in
      (s', disk')
  apply (reset key) (s, disk) =
      let (removed, s', disk') =
        reset_calibration to_string_pretty from_str with_extension key s disk in
      (s', disk')

  unfoldable pub run : List Op → OperationalState × Disk Text → OperationalState × Disk Text
  unfolding apply
  run [] p = p
  run (op ∷ ops) p = run ops (apply op p)

  -- what a fresh process loads maps every key as the state does
  record Synced (path : String) (s : OperationalState) (disk : Disk Text) : Type 0 where
    ready : IsReady disk
    at : s.persistence_path ≡ some path
    unique : Unique s.calibrations
    finite : All IsFinitePair s.calibrations
    n : ℕ
    loaded : OperationalState
    loads :
        configure_persistence to_string_pretty from_str with_extension path disk new
        ≡ (ok n, loaded)
    same : (k : ChannelKey) → lookup k loaded.calibrations ≡ lookup k s.calibrations

  module _
      (reads_back : (d : PersistedDocument)
        → All IsFiniteEntry d.calibration
        → (t : Text) × (to_string_pretty d ≡ some t) × (from_str t ≡ some d)) where
    auto_save-Synced :
        (path : String) (s : OperationalState) (disk : Disk Text)
        → IsReady disk
        → s.persistence_path ≡ some path
        → Unique s.calibrations
        → All IsFinitePair s.calibrations
        → Synced path s (auto_save to_string_pretty from_str with_extension s disk)
    unfolding document
    auto_save-Synced path s disk r p u f =
        let (t, ts, fs) = reads_back (document s) (sort_entries-All s.calibrations f) in
        let (us, ls) =
          lookup-sort_entries (map persisted s.calibrations)
            (rw (pairs-persisted s.calibrations) u) in
        rw (auto_save-saved to_string_pretty from_str with_extension path s t disk r p ts) (record {
          ready = record { readable = r.readable; writable = r.writable; renamable = r.renamable };
          at = p;
          unique = u;
          finite = f;
          n = _;
          loaded = _;
          loads =
              configure_persistence-saved to_string_pretty from_str with_extension path s t disk r
                fs;
          same = λ k.
              Assoc.lookup-insert_all_new k _ us
              ∙ ls k
              ∙ ap (λ m. lookup k m) (pairs-persisted s.calibrations);
        })

    apply-Synced :
        (path : String) (op : Op) (s : OperationalState) (disk : Disk Text)
        → IsFiniteOp op
        → Synced path s disk
        → Synced path (apply op (s, disk)).0 (apply op (s, disk)).1
    unfolding apply set_calibration reset_calibration save_if
    apply-Synced path (set key value) s disk f y =
        auto_save-Synced path _ disk y.ready y.at
          (Assoc.insert-Unique key value s.calibrations y.unique)
          (Assoc.All-insert IsFinitePair key value s.calibrations f y.finite)
    apply-Synced path (reset key) s disk f y = elim (Option-cases (lookup key s.calibrations)) [
      | inl e ↦ rw e (record {
        ready = y.ready;
        at = y.at;
        unique = Assoc.remove-Unique key s.calibrations y.unique;
        finite = Assoc.All-remove IsFinitePair key s.calibrations y.finite;
        n = y.n;
        loaded = y.loaded;
        loads = y.loads;
        same = λ k. y.same k ∙ sym (Assoc.lookup-remove-none key k s.calibrations e);
      })
      | inr (c, e) ↦ rw e (
          auto_save-Synced path _ disk y.ready y.at
            (Assoc.remove-Unique key s.calibrations y.unique)
            (Assoc.All-remove IsFinitePair key s.calibrations y.finite))
    ]

    run-Synced :
        (path : String) (ops : List Op) (s : OperationalState) (disk : Disk Text)
        → All IsFiniteOp ops
        → Synced path s disk
        → Synced path (run ops (s, disk)).0 (run ops (s, disk)).1
    unfolding run
    run-Synced path [] s disk f y = y
    run-Synced path (op ∷ ops) s disk f y =
        run-Synced path ops _ _ (f.1) (apply-Synced path op s disk (f.0) y)

    configure_persistence-Synced :
        (path : String) (n : ℕ) (s : OperationalState) (disk : Disk Text)
        → IsReady disk
        → All IsFinitePair s.calibrations
        → configure_persistence to_string_pretty from_str with_extension path disk new ≡ (ok n, s)
        → Synced path s disk
    unfolding configure_persistence
    configure_persistence-Synced path n s disk r f e =
        let a =
          set_path-ok to_string_pretty from_str with_extension path n s
            (load to_string_pretty from_str with_extension disk.readable (lookup path disk.files)
              new)
            e in
        record {
          ready = r;
          at = a.0;
          unique = subst⁻¹ Unique (a.1) (
              load-Unique to_string_pretty from_str with_extension disk.readable
                (lookup path disk.files));
          finite = f;
          n = n;
          loaded = s;
          loads = e;
          same = λ k. refl;
        }

    -- Where a process loads the calibrations from a file and changes them by any sequence of sets and
    -- resets, on a disk that does not fail and with finite values, a second process that loads the
    -- file afterwards has the calibration of the first for every channel.
    pub configure_persistence-restart :
        (path : String) (disk : Disk Text) (n : ℕ) (s : OperationalState) (ops : List Op)
        (key : ChannelKey)
        → IsReady disk
        → configure_persistence to_string_pretty from_str with_extension path disk new ≡ (ok n, s)
        → All IsFinitePair s.calibrations
        → All IsFiniteOp ops
        → (n' : ℕ) × (s' : OperationalState) × (configure_persistence to_string_pretty from_str
              with_extension path
              (run ops (s, disk)).1
              new
            ≡ (ok n', s'))
          × (calibration key s' ≡ calibration key (run ops (s, disk)).0)
    unfolding calibration
    configure_persistence-restart path disk n s ops key r e f fs =
        let y = run-Synced path ops s disk fs (configure_persistence-Synced path n s disk r f e) in
        (y.n, y.loaded, y.loads, ap or_default (y.same key))
