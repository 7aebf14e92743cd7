-- ===== src/Observe/Table.antt =====
-- The table of merging units of crates/svdc-console/src/dataplane/mod.rs as a map from identifiers, in
-- their order.
use Prim.Native.Nat.{Ordering}
use svdc.Base.{
  ℕ, ◌≡◌, refl, List, [], ◌∷◌, Option, none, some, All, arith, inl, inr, ◌⊎◌, Bool, true, false,
  if◌then◌else◌,
}
use svdc.Observe.{MuObservation, compare_bytes, first_seen, count_frame, note_mu_observed}

compare_bytes_self : (xs : List ℕ) → compare_bytes xs xs ≡ Ordering.eq
compare_bytes_self [] = refl
compare_bytes_self (x ∷ xs) = ground (arith, compare_bytes_self xs)

compare_bytes-eq : (xs ys : List ℕ) → compare_bytes xs ys ≡ Ordering.eq → xs ≡ ys
compare_bytes-eq [] [] e = refl
compare_bytes-eq [] (y ∷ ys) e = ground arith
compare_bytes-eq (x ∷ xs) [] e = ground arith
compare_bytes-eq (x ∷ xs) (y ∷ ys) e = ground (arith, compare_bytes-eq xs ys)

compare_bytes_trans :
    (xs ys zs : List ℕ)
    → compare_bytes xs ys ≡ Ordering.lt
    → compare_bytes ys zs ≡ Ordering.lt
    → compare_bytes xs zs ≡ Ordering.lt
compare_bytes_trans [] ys [] d e = ground arith
compare_bytes_trans [] ys (z ∷ zs) d e = refl
compare_bytes_trans (x ∷ xs) [] zs d e = ground arith
compare_bytes_trans (x ∷ xs) (y ∷ ys) [] d e = ground arith
compare_bytes_trans (x ∷ xs) (y ∷ ys) (z ∷ zs) d e = ground (arith, compare_bytes_trans xs ys zs)

compare_bytes-flip :
    (xs ys : List ℕ) → compare_bytes xs ys ≡ Ordering.gt → compare_bytes ys xs ≡ Ordering.lt
compare_bytes-flip [] [] e = ground arith
compare_bytes-flip [] (y ∷ ys) e = ground arith
compare_bytes-flip (x ∷ xs) [] e = refl
compare_bytes-flip (x ∷ xs) (y ∷ ys) e = ground (arith, compare_bytes-flip xs ys)

Ordering-cases : (o : Ordering) → (o ≡ Ordering.lt) ⊎ ((o ≡ Ordering.eq) ⊎ (o ≡ Ordering.gt))
Ordering-cases Ordering.lt = inl refl
Ordering-cases Ordering.eq = inr (inl refl)
Ordering-cases Ordering.gt = inr (inr refl)

abbrev pub same : List ℕ → List ℕ → Bool
same a b = elim (compare_bytes a b) [ Ordering.eq ↦ true | _ ↦ false ]

-- the observation of one unit
abbrev pub find : List ℕ → List MuObservation → Option MuObservation
find j [] = none
find j (m ∷ seen) = if same j m.sv_id then some m else find j seen

abbrev pub IsSorted : List MuObservation → Type 0
IsSorted [] = Unit
IsSorted (m ∷ seen) =
    All (λ (n : MuObservation). compare_bytes m.sv_id n.sv_id ≡ Ordering.lt) seen × IsSorted seen

abbrev pub or_first : ℕ → List ℕ → Option MuObservation → MuObservation
or_first now k none = first_seen now k
or_first now k (some m) = m

abbrev Above : List ℕ → List MuObservation → Type 0
Above k seen = All (λ (n : MuObservation). compare_bytes k n.sv_id ≡ Ordering.lt) seen

find-Above : (k : List ℕ) (seen : List MuObservation) → Above k seen → find k seen ≡ none
find-Above k [] a = refl
find-Above k (m ∷ seen) a = ground (arith, find-Above k seen)

Above-trans :
    (k l : List ℕ) (seen : List MuObservation)
    → compare_bytes k l ≡ Ordering.lt
    → Above l seen
    → Above k seen
Above-trans k l [] e a = tt
Above-trans k l (m ∷ seen) e a =
    (compare_bytes_trans k l m.sv_id e (a.0), Above-trans k l seen e (a.1))

note_mu_observed-Above :
    (now : ℕ) (k l : List ℕ) (seen : List MuObservation)
    → compare_bytes l k ≡ Ordering.lt
    → Above l seen
    → Above l (note_mu_observed now k seen)
unfolding note_mu_observed
note_mu_observed-Above now k l [] e a = (e, tt)
note_mu_observed-Above now k l (m ∷ seen) e a = elim (Ordering-cases (compare_bytes k m.sv_id)) [
  | inl o ↦ rw o (e, a)
  | inr (inl o) ↦ rw o a
  | inr (inr o) ↦ rw o (a.0, note_mu_observed-Above now k l seen e (a.1))
]

pub note_mu_observed-IsSorted :
    (now : ℕ) (k : List ℕ) (seen : List MuObservation)
    → IsSorted seen
    → IsSorted (note_mu_observed now k seen)
unfolding note_mu_observed
note_mu_observed-IsSorted now k [] s = (tt, tt)
note_mu_observed-IsSorted now k (m ∷ seen) s = elim (Ordering-cases (compare_bytes k m.sv_id)) [
  | inl o ↦ rw o ((o, Above-trans k m.sv_id seen o (s.0)), s)
  | inr (inl o) ↦ rw o s
  | inr (inr o) ↦ rw o (
    note_mu_observed-Above now k m.sv_id seen (compare_bytes-flip k m.sv_id o) (s.0),
    note_mu_observed-IsSorted now k seen (s.1),
  )
]

same_refl : (k : List ℕ) → same k k ≡ true
same_refl k = rw (same, compare_bytes_self k) refl

pub same-eq : (j k : List ℕ) → same j k ≡ true → j ≡ k
same-eq j k e = ground (arith, compare_bytes-eq j k)

not_same : (j k : List ℕ) → compare_bytes j k ≡ Ordering.lt → same j k ≡ false
not_same j k e = rw (same, e) refl

not_same_gt : (j k : List ℕ) → compare_bytes j k ≡ Ordering.gt → same j k ≡ false
not_same_gt j k e = rw (same, e) refl

-- the two ways to look past an entry of another unit
past :
    (a b : Bool) (n : Option MuObservation) (m x : MuObservation) (o : Option MuObservation)
    → n ≡ (if b then some x else o)
    → (a ≡ true → b ≡ false)
    → (if a then some m else n) ≡ (if b then some x else (if a then some m else o))
past true b n m x o e h = rw (h refl) refl
past false b n m x o e h = e

pub find-note_mu_observed :
    (now : ℕ) (j k : List ℕ) (seen : List MuObservation)
    → IsSorted seen
    → find j (note_mu_observed now k seen)
      ≡ (if same j k then some (count_frame now (or_first now k (find k seen))) else find j seen)
unfolding note_mu_observed
find-note_mu_observed now j k [] s = refl
find-note_mu_observed now j k (m ∷ seen) s = elim (Ordering-cases (compare_bytes k m.sv_id)) [
  | inl o ↦
      let f : find k (m ∷ seen) ≡ none =
        find-Above k (m ∷ seen) (o, Above-trans k m.sv_id seen o (s.0)) in
      rw (f, o) refl
  | inr (inl o) ↦
      let p : k ≡ m.sv_id = compare_bytes-eq k m.sv_id o in
      rw (o, p, same_refl m.sv_id) (ground arith)
  | inr (inr o) ↦
      rw (o, not_same_gt k m.sv_id o)
        (past (same j m.sv_id) (same j k) _ m _ (find j seen)
          (find-note_mu_observed now j k seen (s.1))
          λ e. rw (same-eq j m.sv_id e) (not_same m.sv_id k (compare_bytes-flip k m.sv_id o)))
]
