-- ===== src/Base/Sublists.antt =====
-- Prefixes, suffixes and reversals, measured by native numbers.
use Prim.Native.Nat.{ℕ, zero, suc, ◌+◌, ◌-◌, ◌≤◌, min}
use mathlib.Core.Path.{◌≡◌, refl, sym, ap, ◌∙◌}
use mathlib.Core.List.{List, [], ◌∷◌, ◌++◌, reverse, reverse-append}
use native.Mathlib.Omega.{arith}
use svdc.Base.Lists.{
  length, take, drop, All, All-append, length-append, length-drop, drop-drop, take_all,
}

module _ {ℓ} {A : Type ℓ} where
  pub drop-append : (k : ℕ) (xs ys : List A) → k ≤ length xs → drop k (xs ++ ys) ≡ drop k xs ++ ys
  drop-append zero xs ys h = refl
  drop-append (suc k) [] ys h = absurd (omega arith)
  drop-append (suc k) (x ∷ xs) ys h = drop-append k xs ys (omega arith)

  pub take-append : (k : ℕ) (xs ys : List A) → k ≤ length xs → take k (xs ++ ys) ≡ take k xs
  take-append zero xs ys h = refl
  take-append (suc k) [] ys h = absurd (omega arith)
  take-append (suc k) (x ∷ xs) ys h = ap (◌∷◌ x) (take-append k xs ys (omega arith))

  pub take-take : (m n : ℕ) (xs : List A) → take m (take n xs) ≡ take (min m n) xs
  take-take zero n xs = let e : min 0 n ≡ 0 = omega arith in rw e
  take-take (suc m) zero xs = let e : min (suc m) 0 ≡ 0 = omega arith in rw e
  take-take (suc m) (suc n) [] = let e : min (suc m) (suc n) ≡ suc (min m n) = omega arith in rw e
  take-take (suc m) (suc n) (x ∷ xs) =
      let e : min (suc m) (suc n) ≡ suc (min m n) = omega arith in
      rw e (ap (◌∷◌ x) (take-take m n xs))

  pub take-min-length : (n : ℕ) (xs : List A) → take n xs ≡ take (min n (length xs)) xs
  take-min-length zero xs = let e : min 0 (length xs) ≡ 0 = omega arith in rw e
  take-min-length (suc n) [] = let e : min (suc n) 0 ≡ 0 = omega arith in rw e
  take-min-length (suc n) (x ∷ xs) =
      let e : min (suc n) (suc (length xs)) ≡ suc (min n (length xs)) = omega arith in
      rw e (ap (◌∷◌ x) (take-min-length n xs))

  pub reverse-cons : (x : A) (xs : List A) → reverse (x ∷ xs) ≡ reverse xs ++ (x ∷ [])
  reverse-cons x xs = reverse-append (x ∷ []) xs

  pub length-reverse : (xs : List A) → length (reverse xs) ≡ length xs
  length-reverse [] = refl
  length-reverse (x ∷ xs) =
      rw (reverse-cons x xs) (omega (arith, length-append (reverse xs) (x ∷ []), length-reverse xs))

  pub All-reverse {κ} : (P : A → Type κ) (xs : List A) → All P xs → All P (reverse xs)
  All-reverse P [] v = tt
  All-reverse P (x ∷ xs) (v, vs) =
      rw (reverse-cons x xs) (All-append P (reverse xs) (x ∷ []) (All-reverse P xs vs) (v, tt))

  pub reverse-drop : (k : ℕ) (xs : List A) → reverse (drop k xs) ≡ take (length xs - k) (reverse xs)
  reverse-drop zero xs =
      let e : length xs - 0 ≡ length xs = omega arith in
      rw e (sym (take_all (length xs) (reverse xs) (omega (arith, length-reverse xs))))
  reverse-drop (suc k) [] = let e : 0 - suc k ≡ 0 = omega arith in rw e
  reverse-drop (suc k) (x ∷ xs) =
      let e : suc (length xs) - suc k ≡ length xs - k = omega arith in
      rw
        (
          e,
          reverse-cons x xs,
          take-append (length xs - k) (reverse xs) (x ∷ []) (omega (arith, length-reverse xs)),
        )
        (reverse-drop k xs)

  -- the last `n` elements
  abbrev pub newest : ℕ → List A → List A
  newest n xs = drop (length xs - n) xs

  pub newest-append : (n : ℕ) (xs ys : List A) → newest n (newest n xs ++ ys) ≡ newest n (xs ++ ys)
  newest-append n xs ys =
      let k = length xs - n in
      let here : k + (length (drop k xs ++ ys) - n) ≡ length (xs ++ ys) - n =
        omega (arith, length-append (drop k xs) ys, length-append xs ys, length-drop k xs) in
      ap (drop (length (drop k xs ++ ys) - n)) (sym (drop-append k xs ys (omega arith)))
      ∙ drop-drop k (length (drop k xs ++ ys) - n) (xs ++ ys)
      ∙ ap (λ j. drop j (xs ++ ys)) here

  -- The newest elements, newest first, out of a window of `c`.
  pub take-newest :
      (n c : ℕ) (xs : List A) → take n (reverse (newest c xs)) ≡ take (min n c) (reverse xs)
  take-newest n c xs =
      let k = length xs - c in
      let both : min (min n (length xs - k)) (length (reverse xs))
          ≡ min (min n c) (length (reverse xs)) =
        omega (arith, length-reverse xs) in
      rw (
        reverse-drop k xs,
        take-take n (length xs - k) (reverse xs),
        take-min-length (min n (length xs - k)) (reverse xs),
        take-min-length (min n c) (reverse xs),
        both,
      )
