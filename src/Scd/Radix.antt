-- ===== src/Scd/Radix.antt =====
-- The numbers that `from_str_radix` of std returns are below the bound of their type.
use svdc.Base.{
  ℕ, ◌+◌, ◌*◌, ◌<◌, ltb, ◌==◌, ◌&&◌, Bool-cases, Option, none, some, List, [], ◌∷◌, arith, inl, inr,
}
use svdc.Scd.Numbers.{digit, push_digit, digits_from, from_str_radix}

-- a number below the bound, or none
pub data Below (b : ℕ) : Option ℕ → Type 0 where
  number : (v : ℕ) → v < b → Below b (some v)
  no_number : Below b none

push_digit-Below : (radix b value : ℕ) (d : Option ℕ) → Below b (push_digit radix b value d)
unfolding push_digit
push_digit-Below radix b value none = no_number
push_digit-Below radix b value (some d) =
    elim (Bool-cases (ltb d radix && ltb (value * radix + d) b)) [
      | inl e ↦ rw e (number _ (ground arith))
      | inr e ↦ rw e no_number
    ]

digits_from-Below :
    (radix b value : ℕ) (cs : List ℕ) → value < b → Below b (digits_from radix b value cs)
unfolding digits_from
digits_from-Below radix b value [] h = number value h
digits_from-Below radix b value (c ∷ cs) h =
    after (push_digit radix b value (digit c)) (push_digit-Below radix b value (digit c))
      (λ v p. digits_from-Below radix b v cs p)
  where
    after :
        (o : Option ℕ)
        → Below b o
        → ((v : ℕ) → v < b → Below b (digits_from radix b v cs))
        → Below b (elim o [ none ↦ none | some v ↦ digits_from radix b v cs ])
    after _ (number v p) rest = rest v p
    after _ no_number rest = no_number

pub from_str_radix-Below : (radix b : ℕ) (s : List ℕ) → 0 < b → Below b (from_str_radix radix b s)
unfolding from_str_radix
from_str_radix-Below radix b [] h = no_number
from_str_radix-Below radix b (c ∷ []) h = elim (Bool-cases (c == b'+')) [
  | inl e ↦ rw e no_number
  | inr e ↦ rw e (digits_from-Below radix b 0 (c ∷ []) h)
]
from_str_radix-Below radix b (c ∷ d ∷ cs) h = elim (Bool-cases (c == b'+')) [
  | inl e ↦ rw e (digits_from-Below radix b 0 (d ∷ cs) h)
  | inr e ↦ rw e (digits_from-Below radix b 0 (c ∷ d ∷ cs) h)
]
