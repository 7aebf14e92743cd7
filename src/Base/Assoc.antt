-- ===== src/Base/Assoc.antt =====
-- Maps as association lists, over any type of keys with a Boolean equality.
use Prim.Native.String.{String}
use text.Mathlib.Text.{◌==◌ as str_eq}
use text.Mathlib.TextEquality.{eq_iff}
use mathlib.Core.Path.{◌≡◌, refl, sym, ap, ◌∙◌}
use mathlib.Core.Bool.{Bool, true}
use mathlib.Core.Logic.{◌↔◌, inl, inr}
use mathlib.Core.Option.{Option, none, some}
use mathlib.Core.List.{List, [], ◌∷◌}
use native.Mathlib.Omega.{arith}
use svdc.Base.Tests.{if◌then◌else◌, Bool-cases}
use svdc.Base.Lists.{All}

pub record Eq {ℓ} (K : Type ℓ) : Type ℓ where
  pub beq : K → K → Bool
  pub beq_iff : (a b : K) → (beq a b ≡ true) ↔ (a ≡ b)

instance abbrev pub string_eq : Eq String
string_eq = record { beq = str_eq; beq_iff = eq_iff }

-- what two optional values leave: the first that is there
abbrev pub or_else {ℓ} : {A : Type ℓ} → Option A → Option A → Option A
or_else none b = b
or_else (some a) b = some a

or_else-none {ℓ} : {A : Type ℓ} (o : Option A) → or_else o none ≡ o
or_else-none none = refl
or_else-none (some v) = refl

module _ {ℓ κ} {K : Type ℓ} ⦃e : Eq K⦄ {V : Type κ} where
  unfoldable pub lookup : K → List (K × V) → Option V
  lookup k [] = none
  lookup k ((j, v) ∷ m) = if e.beq j k then some v else lookup k m

  -- the value of a key that is there is replaced
  unfoldable pub insert : K → V → List (K × V) → List (K × V)
  insert k v [] = (k, v) ∷ []
  insert k v ((j, w) ∷ m) = if e.beq j k then (k, v) ∷ m else (j, w) ∷ insert k v m

  unfoldable pub remove : K → List (K × V) → List (K × V)
  remove k [] = []
  remove k ((j, w) ∷ m) = let rest = remove k m in if e.beq j k then rest else (j, w) ∷ rest

  -- a loop that inserts entries in their order
  unfoldable pub insert_all : List (K × V) → List (K × V) → List (K × V)
  unfolding insert
  insert_all [] m = m
  insert_all ((k, v) ∷ entries) m = insert_all entries (insert k v m)

  -- no key occurs twice
  abbrev pub Unique : List (K × V) → Type κ
  Unique [] = Unit
  Unique ((k, v) ∷ m) = (lookup k m ≡ none) × Unique m

  pub lookup-insert :
      (k j : K) (v : V) (m : List (K × V))
      → lookup j (insert k v m) ≡ (if e.beq k j then some v else lookup j m)
  unfolding lookup insert
  lookup-insert k j v [] = refl
  lookup-insert k j v ((i, w) ∷ m) =
      ground (arith, e.beq_iff k j, e.beq_iff i k, e.beq_iff i j, lookup-insert k j v m)

  pub lookup-remove :
      (k j : K) (m : List (K × V))
      → lookup j (remove k m) ≡ (if e.beq k j then none else lookup j m)
  unfolding lookup remove
  lookup-remove k j [] = ground arith
  lookup-remove k j ((i, w) ∷ m) =
      ground (arith, e.beq_iff k j, e.beq_iff i k, e.beq_iff i j, lookup-remove k j m)

  pub insert-Unique : (k : K) (v : V) (m : List (K × V)) → Unique m → Unique (insert k v m)
  unfolding lookup insert
  insert-Unique k v [] u = (refl, tt)
  insert-Unique k v ((j, w) ∷ m) u =
      ground (arith, e.beq_iff j k, e.beq_iff k j, lookup-insert k j v m, insert-Unique k v m)

  pub remove-Unique : (k : K) (m : List (K × V)) → Unique m → Unique (remove k m)
  unfolding lookup remove
  remove-Unique k [] u = tt
  remove-Unique k ((j, w) ∷ m) u =
      ground (arith, e.beq_iff j k, lookup-remove k j m, remove-Unique k m)

  -- Entries with different keys, inserted one after the other, are found again.
  pub lookup-insert_all :
      (j : K) (entries m : List (K × V))
      → Unique entries
      → lookup j (insert_all entries m) ≡ or_else (lookup j entries) (lookup j m)
  unfolding lookup insert_all
  lookup-insert_all j [] m u = refl
  lookup-insert_all j ((k, v) ∷ entries) m u =
      ground
        (arith, e.beq_iff k j, lookup-insert_all j entries (insert k v m), lookup-insert k j v m)

  pub insert_all-Unique : (entries m : List (K × V)) → Unique m → Unique (insert_all entries m)
  unfolding insert_all
  insert_all-Unique [] m u = u
  insert_all-Unique ((k, v) ∷ entries) m u =
      insert_all-Unique entries (insert k v m) (insert-Unique k v m u)

  -- An entry added behind another one of a different key is found as one added in front.
  pub lookup-behind :
      (k i j : K) (v w : V) (m n : List (K × V))
      → lookup k ((i, w) ∷ m) ≡ none
      → (lookup k m ≡ none → lookup j n ≡ (if e.beq k j then some v else lookup j m))
      → lookup j ((i, w) ∷ n) ≡ (if e.beq k j then some v else lookup j ((i, w) ∷ m))
  unfolding lookup
  lookup-behind k i j v w m n h ih = ground (arith, e.beq_iff k j, e.beq_iff i j, e.beq_iff i k)

  pub Unique-behind :
      (k i : K) (v w : V) (m n : List (K × V))
      → lookup k ((i, w) ∷ m) ≡ none
      → Unique ((i, w) ∷ m)
      → (lookup k m ≡ none → lookup i n ≡ (if e.beq k i then some v else lookup i m))
      → (lookup k m ≡ none → Unique n)
      → Unique ((i, w) ∷ n)
  unfolding lookup
  Unique-behind k i v w m n h u ih un = ground (arith, e.beq_iff k i, e.beq_iff i k)

  pub All-insert {ι} :
      (P : K × V → Type ι) (k : K) (v : V) (m : List (K × V))
      → P (k, v)
      → All P m
      → All P (insert k v m)
  unfolding insert
  All-insert P k v [] p a = (p, tt)
  All-insert P k v ((j, w) ∷ m) p a = elim (Bool-cases (e.beq j k)) [
    | inl q ↦ rw q (p, a.1)
    | inr q ↦ rw q (a.0, All-insert P k v m p (a.1))
  ]

  pub All-remove {ι} :
      (P : K × V → Type ι) (k : K) (m : List (K × V)) → All P m → All P (remove k m)
  unfolding remove
  All-remove P k [] a = tt
  All-remove P k ((j, w) ∷ m) a = elim (Bool-cases (e.beq j k)) [
    | inl q ↦ rw q (All-remove P k m (a.1))
    | inr q ↦ rw q (a.0, All-remove P k m (a.1))
  ]

  pub lookup-insert_self : (k : K) (v : V) (m : List (K × V)) → lookup k (insert k v m) ≡ some v
  lookup-insert_self k v m =
      lookup-insert k k v m ∙ ap (λ b. if b then some v else lookup k m) ((e.beq_iff k k).1 refl)

  pub lookup-insert_all_new :
      (j : K) (entries : List (K × V))
      → Unique entries
      → lookup j (insert_all entries []) ≡ lookup j entries
  unfolding lookup
  lookup-insert_all_new j entries u =
      lookup-insert_all j entries [] u ∙ or_else-none (lookup j entries)

  pub lookup-remove-none :
      (k j : K) (m : List (K × V)) → lookup k m ≡ none → lookup j (remove k m) ≡ lookup j m
  lookup-remove-none k j m h = elim (Bool-cases (e.beq k j)) [
    | inl q ↦
        lookup-remove k j m
        ∙ ap (λ b. if b then none else lookup j m) q
        ∙ sym h
        ∙ ap (λ i. lookup i m) ((e.beq_iff k j).0 q)
    | inr q ↦ lookup-remove k j m ∙ ap (λ b. if b then none else lookup j m) q
  ]
