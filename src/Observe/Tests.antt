-- ===== src/Observe/Tests.antt =====
-- The table of merging units on three frames of two units.
use svdc.Base.{ℕ, ◌≡◌, refl, List, [], ◌∷◌, none, min, ◌^◌, ◌-◌}
use svdc.Observe.Table.{IsSorted, find}
use svdc.Observe.Run.{note_all, observed, frames_of, count_of, note_all-observed}

abbrev mu_b : List ℕ
mu_b = b'B' ∷ []

abbrev mu_a : List ℕ
mu_a = b'A' ∷ []

abbrev frames : List (ℕ × List ℕ)
frames = (10, mu_b) ∷ (20, mu_a) ∷ (30, mu_b) ∷ []

two_units : note_all frames [] ≡ (
    record { sv_id = mu_a; first_seen_ms = 20; last_seen_ms = 20; frame_count = 1 }
    ∷ record { sv_id = mu_b; first_seen_ms = 10; last_seen_ms = 30; frame_count = 2 }
    ∷ [])
unfolding note_all
two_units = refl

note_all-observed_example :
    IsSorted (note_all frames [])
    × (find mu_b (note_all frames []) ≡ observed mu_b frames none)
    × (count_of (find mu_b (note_all frames [])) ≡ min (frames_of mu_b frames) (2 ^ 64 - 1))
note_all-observed_example = note_all-observed mu_b frames
