-- ===== src/Config/Race.antt =====
-- Two registrations at the same time, by `api_register_mu` of crates/svdc-console/src/routes/config.rs: the
-- lock is taken for the copy and again for the replacement, and another request can come between.
use Prim.Native.String.{String}
use text.Mathlib.Text.{◌==◌ as str_eq}
use svdc.Base.{ℕ, ◌≡◌, refl, false, Bool-cases, arith, inl, inr, List, [], ◌∷◌, ◌++◌}
use svdc.Scd.{MergingUnit, snapshot, replace}
use svdc.Config.{ConfigState, Reply, status_ok, any_id, prepare, commit, install}

-- two registrations that both take their copy before either replaces
abbrev pub interleaved : (now now' : ℕ) → MergingUnit → MergingUnit → ConfigState → Reply × Reply
interleaved now now' a b c =
    let first = commit now a (prepare a c) c in (first, commit now' b (prepare b c) first.1)

-- one after the other
abbrev pub in_turn : (now now' : ℕ) → MergingUnit → MergingUnit → ConfigState → Reply × Reply
in_turn now now' a b c =
    let first = commit now a (prepare a c) c in (first, commit now' b (prepare b first.1) first.1)

any_id-append :
    (id : String) (mus : List MergingUnit) (a : MergingUnit)
    → any_id id mus ≡ false
    → str_eq a.id id ≡ false
    → any_id id (mus ++ (a ∷ [])) ≡ false
unfolding any_id
any_id-append id [] a f g = rw g refl
any_id-append id (m ∷ mus) a f g = elim (Bool-cases (str_eq m.id id)) [
  | inl e ↦ ground arith
  | inr e ↦ let h : any_id id mus ≡ false = ground arith in rw e (any_id-append id mus a h g)
]

-- Of two units with different ids that the registry does not hold: two registrations one after the other
-- are accepted and leave the old registry with both. Two that copy the registry before either
-- replaces it are both accepted too, but the registry is then the old one with the second unit alone.
pub interleaved-lost :
    (now now' : ℕ) (a b : MergingUnit) (c : ConfigState)
    → any_id a.id (snapshot c.registry) ≡ false
    → any_id b.id (snapshot c.registry) ≡ false
    → str_eq a.id b.id ≡ false
    → let (first, second) = in_turn now now' a b c in
      let (first', second') = interleaved now now' a b c in
      (first.0.0 ≡ status_ok)
      × (second.0.0 ≡ status_ok)
      × (snapshot second.1.registry ≡ (snapshot c.registry ++ (a ∷ [])) ++ (b ∷ []))
      × (first'.0.0 ≡ status_ok)
      × (second'.0.0 ≡ status_ok)
      × (snapshot second'.1.registry ≡ snapshot c.registry ++ (b ∷ []))
unfolding prepare commit install replace
interleaved-lost now now' a b c fa fb d =
    let both = any_id-append b.id (snapshot c.registry) a fb d in
    rw (fa, fb, both) (refl, refl, refl, refl, refl, refl)
