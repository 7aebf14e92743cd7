-- ===== src/Subscribe/Reread.antt =====
-- One `read_since` of crates/svdc-subscribe/src/lib.rs on any buffer, whatever order its ids have.
use svdc.Base.{
  ℕ, ◌≤◌, leb, ltb, Bool-cases, inl, inr, Option, none, some, List, [], ◌∷◌, ◌++◌, ◌≡◌, sym, arith,
  All, length, take, reverse, reverse-cons, length-reverse, take_all, append-nil,
}
use svdc.Core.Tick.{TickRecord}
use svdc.Align.Buffer.{TickBuffer, recent}
use svdc.Subscribe.{
  Subscription, usize_max, is_fresh, filter_fresh, insert_by_key, sort_by_key, cursor_after,
  read_since,
}
use svdc.Subscribe.Sorted.{From}
use svdc.Subscribe.Delivery.{Passed, next_id, read_since_lem}

-- ids in order, from `lo` on; equal ids may stand together
abbrev pub Climbs : ℕ → List TickRecord → Type 0
Climbs lo [] = Unit
Climbs lo (t ∷ ts) = (lo ≤ t.tick_id) × Climbs t.tick_id ts

insert-Climbs :
    (lo : ℕ) (r : TickRecord) (xs : List TickRecord)
    → lo ≤ r.tick_id
    → Climbs lo xs
    → Climbs lo (insert_by_key r xs)
unfolding insert_by_key
insert-Climbs lo r [] h c = (h, tt)
insert-Climbs lo r (x ∷ xs) h (d, c) = elim (Bool-cases (leb r.tick_id x.tick_id)) [
  | inl e ↦ rw e (h, (ground arith, c))
  | inr e ↦ rw e (d, insert-Climbs x.tick_id r xs (ground arith) c)
]

pub sort-Climbs : (lo : ℕ) (xs : List TickRecord) → All (From lo) xs → Climbs lo (sort_by_key xs)
unfolding sort_by_key
sort-Climbs lo [] a = tt
sort-Climbs lo (x ∷ xs) (a, rest) = insert-Climbs lo x (sort_by_key xs) a (sort-Climbs lo xs rest)

-- What holds of all that was sorted or kept holds of each part.
module _ (P : TickRecord → Type 0) where
  All-insert : (r : TickRecord) (xs : List TickRecord) → All P (insert_by_key r xs) → P r × All P xs
  unfolding insert_by_key
  All-insert r [] (a, rest) = (a, rest)
  All-insert r (x ∷ xs) a = elim (Bool-cases (leb r.tick_id x.tick_id)) [
    | inl e ↦ rw e at a
    | inr e ↦
        let later : All P (x ∷ insert_by_key r xs) = rw e at a in
        let (b, rest) = All-insert r xs later.1 in (b, (later.0, rest))
  ]

  pub All-sort : (xs : List TickRecord) → All P (sort_by_key xs) → All P xs
  unfolding sort_by_key
  All-sort [] a = tt
  All-sort (x ∷ xs) a = let (b, rest) = All-insert x (sort_by_key xs) a in (b, All-sort xs rest)

  All-append_parts : (xs ys : List TickRecord) → All P (xs ++ ys) → All P xs × All P ys
  All-append_parts [] ys a = (tt, a)
  All-append_parts (x ∷ xs) ys (a, rest) = let (l, r) = All-append_parts xs ys rest in ((a, l), r)

  pub All-unreverse : (xs : List TickRecord) → All P (reverse xs) → All P xs
  All-unreverse [] a = tt
  All-unreverse (x ∷ xs) a =
      let (l, r) = All-append_parts (reverse xs) (x ∷ []) (rw (reverse-cons x xs) at a) in
      (r.0, All-unreverse xs l)

filter-From : (c : Option ℕ) (xs : List TickRecord) → All (From (next_id c)) (filter_fresh c xs)
unfolding filter_fresh is_fresh
filter-From none [] = tt
filter-From none (x ∷ xs) = (omega arith, filter-From none xs)
filter-From (some c) [] = tt
filter-From (some c) (x ∷ xs) = elim (Bool-cases (ltb c x.tick_id)) [
  | inl e ↦ rw e (ground arith, filter-From (some c) xs)
  | inr e ↦ rw e (filter-From (some c) xs)
]

-- A tick is either kept by the filter or passed already.
unfiltered :
    (c d : Option ℕ) (xs : List TickRecord)
    → ((x : TickRecord) → Passed c x → Passed d x)
    → All (Passed d) (filter_fresh c xs)
    → All (Passed d) xs
unfolding filter_fresh is_fresh
unfiltered none d [] f a = tt
unfiltered none d (x ∷ xs) f (a, rest) = (a, unfiltered none d xs f rest)
unfiltered (some c) d [] f a = tt
unfiltered (some c) d (x ∷ xs) f a = elim (Bool-cases (ltb c x.tick_id)) [
  | inl e ↦
      let kept : All (Passed d) (x ∷ filter_fresh (some c) xs) = rw e at a in
      (kept.0, unfiltered (some c) d xs f kept.1)
  | inr e ↦ (f x (ground arith), unfiltered (some c) d xs f (rw e at a))
]

-- The cursor moves to the last id, which is the greatest.
last-Passed :
    (c : ℕ) (ts : List TickRecord) (x : TickRecord)
    → x.tick_id ≤ c
    → Climbs c ts
    → Passed (cursor_after (some c) ts) x
unfolding cursor_after
last-Passed c [] x h a = h
last-Passed c (t ∷ ts) x h (a, rest) = last-Passed t.tick_id ts x (omega arith) rest

climbed-Passed :
    (c : Option ℕ) (lo : ℕ) (ts : List TickRecord)
    → Climbs lo ts
    → All (Passed (cursor_after c ts)) ts
unfolding cursor_after
climbed-Passed c lo [] a = tt
climbed-Passed c lo (t ∷ ts) (a, rest) = (
  last-Passed t.tick_id ts t (omega arith) rest,
  climbed-Passed (some t.tick_id) t.tick_id ts rest,
)

stays-Passed :
    (c : Option ℕ) (ts : List TickRecord) (x : TickRecord)
    → Climbs (next_id c) ts
    → Passed c x
    → Passed (cursor_after c ts) x
unfolding cursor_after
stays-Passed c [] x a p = p
stays-Passed none (t ∷ ts) x a p = elim p [ ]
stays-Passed (some c) (t ∷ ts) x (a, rest) p = last-Passed t.tick_id ts x (omega arith) rest

-- what one read returned and left: ticks beyond the old cursor, in order, and a cursor that has passed
-- all that the buffer holds
pub record IsRead (s : Subscription) (b : TickBuffer) (r : List TickRecord × Subscription)
    : Type 0 where
  pub ordered : Climbs (next_id s.cursor) r.0
  pub passed : All (Passed r.1.cursor) b.inner

pub read_since-IsRead :
    (s : Subscription) (b : TickBuffer) → length b.inner ≤ usize_max → IsRead s b (read_since s b)
unfolding read_since recent
read_since-IsRead s b small =
    let whole : take usize_max (reverse b.inner) ≡ reverse b.inner =
      take_all usize_max (reverse b.inner) (omega (arith, length-reverse b.inner)) in
    let kept : List TickRecord = filter_fresh s.cursor (reverse b.inner) in
    let climbs = sort-Climbs (next_id s.cursor) kept (filter-From s.cursor (reverse b.inner)) in
    let fresh : List TickRecord = sort_by_key kept in
    let cursor = cursor_after s.cursor fresh in
    rw whole (record {
      ordered = climbs;
      passed = All-unreverse (Passed cursor) b.inner (
          unfiltered s.cursor cursor (reverse b.inner)
            (λ x p. stays-Passed s.cursor fresh x climbs p)
            (All-sort (Passed cursor) kept
              (climbed-Passed s.cursor (next_id s.cursor) fresh climbs)));
    })

-- On any buffer of at most `usize::MAX` ticks, in whatever order its ids stand, a read returns ids
-- in order beyond the old cursor; a second read of the same buffer returns nothing and leaves the
-- cursor where it is.
pub read_since-again :
    (s : Subscription) (b : TickBuffer)
    → length b.inner ≤ usize_max
    → Climbs (next_id s.cursor) (read_since s b).0
      × (read_since (read_since s b).1 b ≡ ([], (read_since s b).1))
unfolding cursor_after
read_since-again s b small =
    let v = read_since-IsRead s b small in (v.ordered, again (read_since s b).1 v.passed)
  where
    again : (t : Subscription) → All (Passed t.cursor) b.inner → read_since t b ≡ ([], t)
    again t p = read_since_lem t b b.inner [] (sym (append-nil b.inner)) small p tt
