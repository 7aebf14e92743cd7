-- ===== src/Observe.antt =====
-- The merging units that crates/svdc-console/src/dataplane/mod.rs has seen: `MuObservation`,
-- `note_mu_observed` and the readers of `seen_mus`. The `BTreeMap` is the list of its values, in the
-- order of their keys; the clock is an argument.
pub mod Table
pub mod Run
mod Tests
use Prim.Native.Nat.{compare, Ordering}
use svdc.Base.{ℕ, ◌+◌, ◌-◌, ◌^◌, min, List, [], ◌∷◌, length}

pub record MuObservation : Type 0 where
  pub sv_id : List ℕ
  pub first_seen_ms : ℕ
  pub last_seen_ms : ℕ
  pub frame_count : ℕ

-- the order of strings, byte by byte
abbrev pub compare_bytes : List ℕ → List ℕ → Ordering
compare_bytes [] [] = Ordering.eq
compare_bytes [] (y ∷ ys) = Ordering.lt
compare_bytes (x ∷ xs) [] = Ordering.gt
compare_bytes (x ∷ xs) (y ∷ ys) =
    let rest = compare_bytes xs ys in
    elim (compare x y) [
      | Ordering.lt ↦ Ordering.lt
      | Ordering.eq ↦ rest
      | Ordering.gt ↦ Ordering.gt
    ]

abbrev pub first_seen : ℕ → List ℕ → MuObservation
first_seen now sv_id = record {
  sv_id = sv_id;
  first_seen_ms = now;
  last_seen_ms = now;
  frame_count = 0;
}

-- the two assignments on the entry; `saturating_add` on `u64`
abbrev pub count_frame : ℕ → MuObservation → MuObservation
count_frame now m = record m {
  last_seen_ms = now;
  frame_count = min (m.frame_count + 1) (2 ^ 64 - 1);
}

unfoldable pub at_entry :
    Ordering → ℕ → List ℕ → MuObservation → (seen later : List MuObservation) → List MuObservation
at_entry Ordering.lt now sv_id m seen later = count_frame now (first_seen now sv_id) ∷ m ∷ seen
at_entry Ordering.eq now sv_id m seen later = count_frame now m ∷ seen
at_entry Ordering.gt now sv_id m seen later = m ∷ later

unfoldable pub note_mu_observed : ℕ → List ℕ → List MuObservation → List MuObservation
unfolding at_entry
note_mu_observed now sv_id [] = count_frame now (first_seen now sv_id) ∷ []
note_mu_observed now sv_id (m ∷ seen) =
    let later = note_mu_observed now sv_id seen in
    at_entry (compare_bytes sv_id m.sv_id) now sv_id m seen later

abbrev pub distinct_mu_count : List MuObservation → ℕ
distinct_mu_count seen = length seen
