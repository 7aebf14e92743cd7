-- ===== src/Base/Results.antt =====
-- What a Rust function comes back with: a value, an error value, or a panic (an index out of
-- range, an arithmetic underflow).
use mathlib.Core.Path.{◌≡◌, refl, ap, subst⁻¹}
use mathlib.Core.Bool.{Bool, true, false}
use mathlib.Core.Logic.{◌⊎◌, inl, inr}

pub data Outcome {ℓ κ} (E : Type ℓ) (A : Type κ) : Type (ℓ ⊔ κ) where
  ok : A → Outcome E A
  err : E → Outcome E A
  panic : Outcome E A

infixl 5 ◌>>=◌
-- `?`: an error and a panic are passed on
abbrev pub ◌>>=◌ {ℓ κ ι} :
    {E : Type ℓ} {A : Type κ} {B : Type ι} → Outcome E A → (A → Outcome E B) → Outcome E B
ok a >>= f = f a
err e >>= f = err e
panic >>= f = panic

-- the cases of an outcome that is no panic
pub Outcome-cases {ℓ κ} :
    {E : Type ℓ} {A : Type κ} (r : Outcome E A)
    → ((a : A) × (r ≡ ok a)) ⊎ (((e : E) × (r ≡ err e)) ⊎ (r ≡ panic))
Outcome-cases (ok a) = inl (a, refl)
Outcome-cases (err e) = inr (inl (e, refl))
Outcome-cases panic = inr (inr refl)

abbrev ok_or {ℓ κ} : {E : Type ℓ} {A : Type κ} → A → Outcome E A → A
ok_or d (ok a) = a
ok_or d (err e) = d
ok_or d panic = d

pub ok-injective {ℓ κ} :
    {E : Type ℓ} {A : Type κ} (a b : A) → Path (Outcome E A) (ok a) (ok b) → a ≡ b
ok-injective a b p = ap (ok_or a) p

abbrev err_or {ℓ κ} : {E : Type ℓ} {A : Type κ} → E → Outcome E A → E
err_or d (ok a) = d
err_or d (err e) = e
err_or d panic = d

pub err-injective {ℓ κ} :
    {E : Type ℓ} {A : Type κ} (a b : E) → Path (Outcome E A) (err a) (err b) → a ≡ b
err-injective a b p = ap (err_or a) p

abbrev IsOk {ℓ κ} : {E : Type ℓ} {A : Type κ} → Outcome E A → Type 0
IsOk (ok a) = Unit
IsOk (err e) = ⊥
IsOk panic = ⊥

pub panic-ne-ok {ℓ κ} : {E : Type ℓ} {A : Type κ} (a : A) → ¬ Path (Outcome E A) panic (ok a)
panic-ne-ok a p = subst⁻¹ IsOk p tt

pub err-ne-ok {ℓ κ} :
    {E : Type ℓ} {A : Type κ} (e : E) (a : A) → ¬ Path (Outcome E A) (err e) (ok a)
err-ne-ok e a p = subst⁻¹ IsOk p tt

-- `assert!(b)` before a value
abbrev pub assert {ℓ} : {A : Type ℓ} → Bool → A → Outcome ⊥ A
assert true a = ok a
assert false a = panic

-- A value that an assertion let through.
pub assert-ok {ℓ} : {A : Type ℓ} (b : Bool) (a x : A) → assert b a ≡ ok x → (a ≡ x) × (b ≡ true)
assert-ok true a x p = (ok-injective a x p, refl)
assert-ok false a x p = absurd (panic-ne-ok x p)

-- an outcome that is no panic
pub data NoPanic {ℓ κ} {E : Type ℓ} {A : Type κ} : Outcome E A → Type (ℓ ⊔ κ) where
  fine : (a : A) → NoPanic (ok a)
  failed : (e : E) → NoPanic (err e)

abbrev IsPanic {ℓ κ} : {E : Type ℓ} {A : Type κ} → Outcome E A → Type 0
IsPanic (ok a) = ⊥
IsPanic (err e) = ⊥
IsPanic panic = Unit

pub NoPanic-ne {ℓ κ} :
    {E : Type ℓ} {A : Type κ} {r : Outcome E A} → NoPanic r → ¬ Path (Outcome E A) r panic
NoPanic-ne (fine a) p = subst⁻¹ IsPanic p tt
NoPanic-ne (failed e) p = subst⁻¹ IsPanic p tt

pub >>=-NoPanic {ℓ κ ι} :
    {E : Type ℓ} {A : Type κ} {B : Type ι} {m : Outcome E A} {f : A → Outcome E B}
    → NoPanic m
    → ((a : A) → NoPanic (f a))
    → NoPanic (m >>= f)
>>=-NoPanic (fine a) k = k a
>>=-NoPanic (failed e) k = failed e

-- an error, or a value of which `P` holds
pub data Gives {ℓ κ ι} {E : Type ℓ} {A : Type κ} (P : A → Type ι)
    : Outcome E A → Type (ℓ ⊔ κ ⊔ ι) where
  gives : (a : A) → P a → Gives P (ok a)
  fails : (e : E) → Gives P (err e)

pub >>=-Gives {ℓ κ ι μ ν} :
    {E : Type ℓ} {A : Type κ} {B : Type ι} {P : A → Type μ} {Q : B → Type ν} {m : Outcome E A}
    {f : A → Outcome E B}
    → Gives P m
    → ((a : A) → P a → Gives Q (f a))
    → Gives Q (m >>= f)
>>=-Gives (gives a p) k = k a p
>>=-Gives (fails e) k = fails e

pub Gives-weaken {ℓ κ μ ν} :
    {E : Type ℓ} {A : Type κ} {P : A → Type μ} {Q : A → Type ν} {r : Outcome E A}
    → Gives P r
    → ((a : A) → P a → Q a)
    → Gives Q r
Gives-weaken (gives a p) k = gives a (k a p)
Gives-weaken (fails e) k = fails e
