-- ===== src/Operational/Finite.antt =====
-- The calibrations with finite values, which the TOML library can write and read back, in the entries of
-- crates/svdc-console/src/operational/mod.rs.
use svdc.Base.{ℕ, ◌≡◌, ◌/◌, ◌%◌, ◌^◌, ltb, Bool, true, List, [], ◌∷◌, map, All, if-keeps}
use svdc.Base.Assoc.{string_eq}
use svdc.Operational.{Calibration, ChannelKey, channel_key_eq}
use svdc.Operational.Persist.{
  PersistedEntry, persisted, restored, insert_entry, sort_entries, entry_le,
}

-- the exponent of an `f32` is not all ones
abbrev pub is_finite : ℕ → Bool
is_finite bits = ltb (bits / 2 ^ 23 % 256) 255

abbrev pub IsFinite : Calibration → Type 0
IsFinite c =
    (is_finite c.gain ≡ true) × (is_finite c.offset ≡ true) × (is_finite c.unit_scale ≡ true)

abbrev pub IsFiniteEntry : PersistedEntry → Type 0
IsFiniteEntry e = IsFinite (restored e).1

abbrev pub IsFinitePair : ChannelKey × Calibration → Type 0
IsFinitePair p = IsFinite p.1

insert_entry-All :
    (e : PersistedEntry) (entries : List PersistedEntry)
    → IsFiniteEntry e
    → All IsFiniteEntry entries
    → All IsFiniteEntry (insert_entry e entries)
unfolding insert_entry
insert_entry-All e [] f a = (f, tt)
insert_entry-All e (x ∷ entries) f a =
    if-keeps (All IsFiniteEntry) (entry_le e x) (f, a) (a.0, insert_entry-All e entries f (a.1))

pub sort_entries-All :
    (m : List (ChannelKey × Calibration))
    → All IsFinitePair m
    → All IsFiniteEntry (sort_entries (map persisted m))
unfolding sort_entries
sort_entries-All [] a = tt
sort_entries-All (p ∷ m) a = insert_entry-All (persisted p) _ (a.0) (sort_entries-All m (a.1))
