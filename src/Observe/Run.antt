-- ===== src/Observe/Run.antt =====
-- Any sequence of frames into the table of crates/svdc-console/src/dataplane/mod.rs.
use svdc.Base.{
  ℕ, ◌+◌, ◌-◌, ◌^◌, min, ◌≡◌, refl, ap, ◌∙◌, List, [], ◌∷◌, Option, none, some, arith, inl, inr,
  if◌then◌else◌, Bool-cases, ◌≤◌,
}
use svdc.Observe.{MuObservation, count_frame, first_seen, note_mu_observed}
use svdc.Observe.Table.{
  same, same-eq, find, IsSorted, or_first, note_mu_observed-IsSorted, find-note_mu_observed,
}

-- the frames, each with its time and its unit
unfoldable pub note_all : List (ℕ × List ℕ) → List MuObservation → List MuObservation
unfolding note_mu_observed
note_all [] seen = seen
note_all ((now, k) ∷ frames) seen = note_all frames (note_mu_observed now k seen)

-- the same for one unit alone
abbrev pub observed : List ℕ → List (ℕ × List ℕ) → Option MuObservation → Option MuObservation
observed j [] o = o
observed j ((now, k) ∷ frames) o =
    observed j frames (if same j k then some (count_frame now (or_first now k o)) else o)

abbrev pub frames_of : List ℕ → List (ℕ × List ℕ) → ℕ
frames_of j [] = 0
frames_of j ((now, k) ∷ frames) =
    let rest = frames_of j frames in if same j k then rest + 1 else rest

abbrev pub count_of : Option MuObservation → ℕ
count_of none = 0
count_of (some m) = m.frame_count

note_all_lem :
    (j : List ℕ) (frames : List (ℕ × List ℕ)) (seen : List MuObservation)
    → IsSorted seen
    → IsSorted (note_all frames seen)
      × (find j (note_all frames seen) ≡ observed j frames (find j seen))
unfolding note_all
note_all_lem j [] seen s = (s, refl)
note_all_lem j ((now, k) ∷ frames) seen s =
    let (sorted, found) =
      note_all_lem j frames (note_mu_observed now k seen)
        (note_mu_observed-IsSorted now k seen s) in
    (sorted, found ∙ ap (observed j frames) (find-note_mu_observed now j k seen s ∙ this))
  where
    this :
        (if same j k then some (count_frame now (or_first now k (find k seen))) else find j seen)
        ≡ (if same j k then some (count_frame now (or_first now k (find j seen))) else find j seen)
    this = elim (Bool-cases (same j k)) [
      | inl e ↦ let p : j ≡ k = same-eq j k e in rw p refl
      | inr e ↦ rw e refl
    ]

count_of-observed :
    (j : List ℕ) (frames : List (ℕ × List ℕ)) (o : Option MuObservation)
    → count_of o ≤ 2 ^ 64 - 1
    → count_of (observed j frames o) ≡ min (count_of o + frames_of j frames) (2 ^ 64 - 1)
count_of-observed j [] o h = omega arith
count_of-observed j ((now, k) ∷ frames) none h = elim (Bool-cases (same j k)) [
  | inl e ↦ rw e (
      count_of-observed j frames (some (count_frame now (first_seen now k))) (omega arith)
      ∙ omega arith)
  | inr e ↦ rw e (count_of-observed j frames none h)
]
count_of-observed j ((now, k) ∷ frames) (some m) h = elim (Bool-cases (same j k)) [
  | inl e ↦ rw e (count_of-observed j frames (some (count_frame now m)) (omega arith) ∙ omega arith)
  | inr e ↦ rw e (count_of-observed j frames (some m) h)
]

-- After any sequence of frames the table is in strict order of the units, the entry of a unit is what
-- the frames of that unit alone make of it, and its count is the number of these frames, held at
-- the largest `u64`.
pub note_all-observed :
    (j : List ℕ) (frames : List (ℕ × List ℕ))
    → IsSorted (note_all frames [])
      × (find j (note_all frames []) ≡ observed j frames none)
      × (count_of (find j (note_all frames [])) ≡ min (frames_of j frames) (2 ^ 64 - 1))
note_all-observed j frames =
    let (sorted, found) = note_all_lem j frames [] tt in
    (sorted, found, ap count_of found ∙ count_of-observed j frames none (omega arith) ∙ omega arith)
