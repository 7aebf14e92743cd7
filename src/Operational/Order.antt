-- ===== src/Operational/Order.antt =====
-- The order of the entries in the file of crates/svdc-console/src/operational/mod.rs: the sort keeps what
-- each key is mapped to.
use svdc.Base.{
  ◌≡◌, refl, ap, ◌∙◌, Bool, Bool-cases, if◌then◌else◌, none, some, List, [], ◌∷◌, map, inl, inr,
}
use svdc.Base.Assoc
use svdc.Base.Assoc.{Eq, lookup, Unique}
use svdc.Operational.{Calibration, ChannelKey, channel_key_eq}
use svdc.Operational.Persist.{
  PersistedEntry, persisted, restored, entry_le, insert_entry, sort_entries,
}

abbrev pub pairs : List PersistedEntry → List (ChannelKey × Calibration)
pairs entries = map restored entries

pub pairs-persisted : (m : List (ChannelKey × Calibration)) → pairs (map persisted m) ≡ m
pairs-persisted [] = refl
pairs-persisted (x ∷ m) = ap (λ rest. x ∷ rest) (pairs-persisted m)

abbrev same : ChannelKey → ChannelKey → Bool
same a b = channel_key_eq.beq a b

lookup-insert_entry :
    (j : ChannelKey) (e : PersistedEntry) (entries : List PersistedEntry)
    → lookup (restored e).0 (pairs entries) ≡ none
    → lookup j (pairs (insert_entry e entries))
      ≡ (if same (restored e).0 j then some (restored e).1 else lookup j (pairs entries))
unfolding lookup insert_entry
lookup-insert_entry j e [] h = refl
lookup-insert_entry j e (x ∷ entries) h = elim (Bool-cases (entry_le e x)) [
  | inl q ↦ rw q refl
  | inr q ↦ rw q (
      Assoc.lookup-behind _ _ j _ _ (pairs entries) (pairs (insert_entry e entries)) h
        (lookup-insert_entry j e entries))
]

insert_entry-Unique :
    (e : PersistedEntry) (entries : List PersistedEntry)
    → lookup (restored e).0 (pairs entries) ≡ none
    → Unique (pairs entries)
    → Unique (pairs (insert_entry e entries))
unfolding lookup insert_entry
insert_entry-Unique e [] h u = (refl, tt)
insert_entry-Unique e (x ∷ entries) h u = elim (Bool-cases (entry_le e x)) [
  | inl q ↦ rw q (h, u)
  | inr q ↦ rw q (
      Assoc.Unique-behind _ _ _ _ (pairs entries) (pairs (insert_entry e entries)) h u
        (lookup-insert_entry _ e entries) (λ f. insert_entry-Unique e entries f (u.1)))
]

-- The sorted entries map every key as the entries did, and no key occurs twice.
pub lookup-sort_entries :
    (entries : List PersistedEntry)
    → Unique (pairs entries)
    → Unique (pairs (sort_entries entries))
      × ((j : ChannelKey) → lookup j (pairs (sort_entries entries)) ≡ lookup j (pairs entries))
unfolding lookup sort_entries
lookup-sort_entries [] u = (tt, λ j. refl)
lookup-sort_entries (e ∷ entries) u =
    let (us, ls) = lookup-sort_entries entries (u.1) in
    let f : lookup (restored e).0 (pairs (sort_entries entries)) ≡ none = ls _ ∙ u.0 in
    (
      insert_entry-Unique e (sort_entries entries) f us,
      λ j.
          lookup-insert_entry j e (sort_entries entries) f
          ∙ ap (λ o. if same (restored e).0 j then some (restored e).1 else o) (ls j),
    )
