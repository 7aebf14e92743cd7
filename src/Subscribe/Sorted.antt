-- ===== src/Subscribe/Sorted.antt =====
-- The sort and the filter of `read_since` in crates/svdc-subscribe/src/lib.rs.
use svdc.Base.{
  ℕ, suc, ◌≤◌, ◌<◌, leb, ltb, Bool-cases, inl, inr, true, false, Option, none, some, List, [], ◌∷◌,
  ◌++◌, ◌≡◌, refl, ap, ◌∙◌, arith, All, All-reverse, reverse, reverse-cons, append-nil,
}
use svdc.Core.Tick.{TickRecord}
use svdc.Subscribe.{is_fresh, filter_fresh, insert_by_key, sort_by_key}

-- ids in strictly increasing order, from `lo` on
abbrev pub Ascends : ℕ → List TickRecord → Type 0
Ascends lo [] = Unit
Ascends lo (t ∷ ts) = (lo ≤ t.tick_id) × Ascends (suc t.tick_id) ts

-- every id is `lo` at least, or at most `c`
abbrev pub From : ℕ → TickRecord → Type 0
From lo t = lo ≤ t.tick_id

abbrev pub UpTo : ℕ → TickRecord → Type 0
UpTo c t = t.tick_id ≤ c

pub Ascends-From : (lo m : ℕ) (ts : List TickRecord) → lo ≤ m → Ascends m ts → All (From lo) ts
Ascends-From lo m [] h a = tt
Ascends-From lo m (t ∷ ts) h (a, rest) =
    (omega arith, Ascends-From lo (suc t.tick_id) ts (omega arith) rest)

insert-least :
    (x t : TickRecord) (ts : List TickRecord)
    → t.tick_id < x.tick_id
    → insert_by_key x (t ∷ ts) ≡ t ∷ insert_by_key x ts
unfolding insert_by_key
insert-least x t ts h = let e : leb x.tick_id t.tick_id ≡ false = ground arith in rw e

sort-least :
    (t : TickRecord) (ys : List TickRecord)
    → All (From (suc t.tick_id)) ys
    → sort_by_key (ys ++ (t ∷ [])) ≡ t ∷ sort_by_key ys
unfolding sort_by_key insert_by_key
sort-least t [] a = refl
sort-least t (y ∷ ys) (a, rest) =
    ap (insert_by_key y) (sort-least t ys rest) ∙ insert-least y t (sort_by_key ys) (omega arith)

-- Sorting what stands newest first puts it back in order.
pub sort-reverse : (lo : ℕ) (ts : List TickRecord) → Ascends lo ts → sort_by_key (reverse ts) ≡ ts
unfolding sort_by_key
sort-reverse lo [] a = refl
sort-reverse lo (t ∷ ts) (a, rest) =
    ap sort_by_key (reverse-cons t ts)
    ∙ sort-least t (reverse ts)
        (All-reverse (From (suc t.tick_id)) ts (Ascends-From _ _ ts (omega arith) rest))
    ∙ ap (◌∷◌ t) (sort-reverse (suc t.tick_id) ts rest)

pub filter_fresh-append :
    (c : Option ℕ) (xs ys : List TickRecord)
    → filter_fresh c (xs ++ ys) ≡ filter_fresh c xs ++ filter_fresh c ys
unfolding filter_fresh
filter_fresh-append c [] ys = refl
filter_fresh-append c (x ∷ xs) ys = elim (Bool-cases (is_fresh c x)) [
  | inl e ↦ rw (e, filter_fresh-append c xs ys)
  | inr e ↦ rw (e, filter_fresh-append c xs ys)
]

pub filter_fresh-reverse :
    (c : Option ℕ) (xs : List TickRecord)
    → filter_fresh c (reverse xs) ≡ reverse (filter_fresh c xs)
unfolding filter_fresh
filter_fresh-reverse c [] = refl
filter_fresh-reverse c (x ∷ xs) =
    ap (filter_fresh c) (reverse-cons x xs)
    ∙ filter_fresh-append c (reverse xs) (x ∷ [])
    ∙ elim (Bool-cases (is_fresh c x)) [
      | inl e ↦ rw (e, filter_fresh-reverse c xs, reverse-cons x (filter_fresh c xs))
      | inr e ↦ rw (e, filter_fresh-reverse c xs) (append-nil (reverse (filter_fresh c xs)))
    ]

-- What the cursor has passed is dropped, what lies beyond it is kept.
pub filter_fresh_stale :
    (c : ℕ) (xs : List TickRecord) → All (UpTo c) xs → filter_fresh (some c) xs ≡ []
unfolding filter_fresh is_fresh
filter_fresh_stale c [] a = refl
filter_fresh_stale c (x ∷ xs) (a, rest) =
    let e : ltb c x.tick_id ≡ false = ground arith in rw (e, filter_fresh_stale c xs rest)

pub filter_fresh_beyond :
    (c : ℕ) (xs : List TickRecord) → All (From (suc c)) xs → filter_fresh (some c) xs ≡ xs
unfolding filter_fresh is_fresh
filter_fresh_beyond c [] a = refl
filter_fresh_beyond c (x ∷ xs) (a, rest) =
    let e : ltb c x.tick_id ≡ true = ground arith in rw (e, filter_fresh_beyond c xs rest)

pub filter_fresh-none : (xs : List TickRecord) → filter_fresh none xs ≡ xs
unfolding filter_fresh is_fresh
filter_fresh-none [] = refl
filter_fresh-none (x ∷ xs) = ap (◌∷◌ x) (filter_fresh-none xs)
