-- ===== src/Subscribe/Delivery.antt =====
-- `read_since` of crates/svdc-subscribe/src/lib.rs over a buffer that is still being filled.
use svdc.Base.{
  ℕ, suc, ◌-◌, ◌≤◌, ◌<◌, ltb, Option, none, some, List, [], ◌∷◌, ◌++◌, ◌≡◌, refl, ap, ◌∙◌, arith,
  length, take, drop, reverse, All, All-append, All-drop, length-append, length-drop,
  length-reverse, take_all, drop-append, newest, ok, assert-ok,
}
use svdc.Core.Tick.{TickRecord}
use svdc.Align.Buffer
use svdc.Align.Buffer.{TickBuffer, recent}
use svdc.Align.Buffer.Window.{push_all, push_all_lem}
use svdc.Subscribe.{
  Subscription, ChannelSet, subscribe, usize_max, filter_fresh, cursor_after, read_since,
}
use svdc.Subscribe.Sorted.{
  Ascends, Ascends-From, sort-reverse, filter_fresh-append, filter_fresh-reverse,
  filter_fresh_stale, filter_fresh_beyond, filter_fresh-none,
}

-- the least id that the cursor has not passed
abbrev pub next_id : Option ℕ → ℕ
next_id none = 0
next_id (some c) = suc c

-- the cursor has passed a tick
abbrev pub Passed : Option ℕ → TickRecord → Type 0
Passed none t = ⊥
Passed (some c) t = t.tick_id ≤ c

filter-Passed : (c : Option ℕ) (xs : List TickRecord) → All (Passed c) xs → filter_fresh c xs ≡ []
filter-Passed none [] a = unfold filter_fresh in refl
filter-Passed none (x ∷ xs) (a, rest) = elim a [ ]
filter-Passed (some c) xs a = filter_fresh_stale c xs a

filter-ascending :
    (c : Option ℕ) (ts : List TickRecord) → Ascends (next_id c) ts → filter_fresh c ts ≡ ts
filter-ascending none ts a = filter_fresh-none ts
filter-ascending (some c) ts a =
    filter_fresh_beyond c ts (Ascends-From (suc c) (suc c) ts (omega arith) a)

Passed-later :
    (c : Option ℕ) (t x : TickRecord)
    → next_id c ≤ t.tick_id
    → Passed c x
    → Passed (some t.tick_id) x
Passed-later none t x h p = elim p [ ]
Passed-later (some c) t x h p = omega arith

-- What was passed stays passed, and what is delivered is passed from then on.
Passed-cursor_after :
    (c : Option ℕ) (ts : List TickRecord) (x : TickRecord)
    → Ascends (next_id c) ts
    → Passed c x
    → Passed (cursor_after c ts) x
unfolding cursor_after
Passed-cursor_after c [] x a p = p
Passed-cursor_after c (t ∷ ts) x (a, rest) p =
    Passed-cursor_after (some t.tick_id) ts x rest (Passed-later c t x a p)

delivered-Passed :
    (c : Option ℕ) (ts : List TickRecord)
    → Ascends (next_id c) ts
    → All (Passed (cursor_after c ts)) ts
unfolding cursor_after
delivered-Passed c [] a = tt
delivered-Passed c (t ∷ ts) (a, rest) = (
  Passed-cursor_after (some t.tick_id) ts t rest (omega arith),
  delivered-Passed (some t.tick_id) ts rest,
)

All-map :
    (P Q : TickRecord → Type 0) (xs : List TickRecord)
    → ((x : TickRecord) → P x → Q x)
    → All P xs
    → All Q xs
All-map P Q [] f a = tt
All-map P Q (x ∷ xs) f (a, rest) = (f x a, All-map P Q xs f rest)

Ascends-append :
    (c : Option ℕ) (xs ys : List TickRecord)
    → Ascends (next_id c) (xs ++ ys)
    → Ascends (next_id c) xs × Ascends (next_id (cursor_after c xs)) ys
unfolding cursor_after
Ascends-append c [] ys a = (tt, a)
Ascends-append c (x ∷ xs) ys (a, rest) =
    let (l, r) = Ascends-append (some x.tick_id) xs ys rest in ((a, l), r)

-- One read of a buffer in which ticks that the cursor has passed precede newer ones in order.
pub read_since_lem :
    (s : Subscription) (b : TickBuffer) (old ts : List TickRecord)
    → b.inner ≡ old ++ ts
    → length b.inner ≤ usize_max
    → All (Passed s.cursor) old
    → Ascends (next_id s.cursor) ts
    → read_since s b ≡ (ts, record s { cursor = cursor_after s.cursor ts })
unfolding read_since recent
read_since_lem s b old ts e small passed a =
    let whole : take usize_max (reverse b.inner) ≡ reverse b.inner =
      take_all usize_max (reverse b.inner) (omega (arith, length-reverse b.inner)) in
    let kept : filter_fresh s.cursor b.inner ≡ ts =
      ap (filter_fresh s.cursor) e
      ∙ filter_fresh-append s.cursor old ts
      ∙ rw (filter-Passed s.cursor old passed) (filter-ascending s.cursor ts a) in
    rw (whole, filter_fresh-reverse s.cursor b.inner, kept, sort-reverse (next_id s.cursor) ts a)

-- batches of ticks pushed to the buffer, with a read after each
abbrev pub rounds : Subscription → TickBuffer → List (List TickRecord) → List (List TickRecord)
rounds s b [] = []
rounds s b (batch ∷ batches) =
    let filled = push_all b batch in
    let (fresh, next) = read_since s filled in fresh ∷ rounds next filled batches

abbrev pub concat : List (List TickRecord) → List TickRecord
concat [] = []
concat (xs ∷ xss) = xs ++ concat xss

-- a subscription that has read all that its buffer holds
pub record CaughtUp (s : Subscription) (b : TickBuffer) : Type 0 where
  pub some_room : 0 < b.capacity
  pub bounded : length b.inner ≤ b.capacity
  pub addressable : b.capacity ≤ usize_max
  pub passed : All (Passed s.cursor) b.inner

-- the subscription and the buffer after one batch and a read
abbrev after_read : Subscription → List TickRecord → Subscription
after_read s batch = record s { cursor = cursor_after s.cursor batch }

-- A batch that fits the buffer is read back whole.
pub read_since-push_all :
    (s : Subscription) (b : TickBuffer) (batch : List TickRecord)
    → CaughtUp s b
    → length batch ≤ b.capacity
    → Ascends (next_id s.cursor) batch
    → (read_since s (push_all b batch) ≡ (batch, after_read s batch))
      × (CaughtUp (after_read s batch) (push_all b batch)
          × ((push_all b batch).capacity ≡ b.capacity))
read_since-push_all s b batch v fits a =
    let pushed = push_all_lem batch b v.some_room v.bounded in
    let k : ℕ = length (b.inner ++ batch) - b.capacity in
    let old : List TickRecord = drop k b.inner in
    let both = length-append b.inner batch in
    let inner : newest b.capacity (b.inner ++ batch) ≡ old ++ batch =
      drop-append k b.inner batch (omega (arith, both, fits, v.bounded)) in
    let kept : All (Passed s.cursor) old = All-drop (Passed s.cursor) k b.inner v.passed in
    let size : length (old ++ batch) ≤ b.capacity =
      omega (arith, length-append old batch, length-drop k b.inner, both) in
    let filled : TickBuffer = record b { inner = old ++ batch } in
    let limit = v.addressable in
    rw (pushed, inner)
      (
        read_since_lem s filled old batch refl (omega arith) kept a,
        (
          record {
            some_room = v.some_room;
            bounded = size;
            addressable = v.addressable;
            passed =
                All-append (Passed (cursor_after s.cursor batch)) old batch
                  (All-map (Passed s.cursor) (Passed (cursor_after s.cursor batch)) old
                    (λ x p. Passed-cursor_after s.cursor batch x a p) kept)
                  (delivered-Passed s.cursor batch a);
          },
          refl,
        ),
      )

rounds-CaughtUp :
    (batches : List (List TickRecord)) (s : Subscription) (b : TickBuffer) (capacity : ℕ)
    → b.capacity ≡ capacity
    → CaughtUp s b
    → All (λ batch. length batch ≤ capacity) batches
    → Ascends (next_id s.cursor) (concat batches)
    → rounds s b batches ≡ batches
rounds-CaughtUp [] s b capacity e v fits a = refl
rounds-CaughtUp (batch ∷ batches) s b capacity e v (fit, fits) a =
    let (now, later) = Ascends-append s.cursor batch (concat batches) a in
    let (read, (next, same)) = read_since-push_all s b batch v (omega (arith, e)) now in
    rw read (
      ap (◌∷◌ batch) (
        rounds-CaughtUp batches (after_read s batch) (push_all b batch) capacity (same ∙ e) next
          fits later))

pub fresh-CaughtUp :
    (channels : ChannelSet) (capacity : ℕ) (b : TickBuffer)
    → capacity ≤ usize_max
    → Buffer.new capacity ≡ ok b
    → CaughtUp (subscribe channels) b × (b.capacity ≡ capacity)
unfolding Buffer.new
fresh-CaughtUp channels capacity b h made =
    let (e, pos) = assert-ok (ltb 0 capacity) (record { inner = []; capacity = capacity }) b made in
    rw (← e) (
      record { some_room = ground arith; bounded = omega arith; addressable = h; passed = tt },
      refl,
    )

-- On a new buffer of a capacity up to `usize::MAX`, ticks with strictly increasing ids are pushed
-- in batches that fit the buffer, and a new subscription reads after each batch: every read returns
-- exactly the batch, so that each tick is delivered once, in order and without a gap.
pub read_since-gap_free :
    (channels : ChannelSet) (capacity : ℕ) (b : TickBuffer) (batches : List (List TickRecord))
    → capacity ≤ usize_max
    → Buffer.new capacity ≡ ok b
    → All (λ batch. length batch ≤ capacity) batches
    → Ascends 0 (concat batches)
    → rounds (subscribe channels) b batches ≡ batches
read_since-gap_free channels capacity b batches h made fits a =
    let (v, e) = fresh-CaughtUp channels capacity b h made in
    rounds-CaughtUp batches (subscribe channels) b capacity e v fits a
