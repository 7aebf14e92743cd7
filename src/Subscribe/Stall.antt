-- ===== src/Subscribe/Stall.antt =====
-- `read_since` of crates/svdc-subscribe/src/lib.rs when ids fall back, as they do after
-- `inject_tamper` of crates/svdc-console/src/dataplane/mod.rs or a restart of the aligner.
use svdc.Base.{
  ℕ, ◌-◌, ◌≤◌, ◌<◌, Option, none, some, List, [], ◌∷◌, ◌++◌, ◌≡◌, refl, sym, ap, arith, length,
  drop, All, All-append, All-drop, length-drop, append-nil, get_elem?, All-get_elem?,
}
use svdc.Core.Tick.{TickRecord}
use svdc.Align.Buffer.{TickBuffer}
use svdc.Align.Buffer.Window.{push_all, push_all_lem}
use svdc.Subscribe.{Subscription, usize_max, cursor_after, read_since}
use svdc.Subscribe.Sorted.{UpTo}
use svdc.Subscribe.Reread.{read_since-IsRead}
use svdc.Subscribe.Delivery.{Passed, CaughtUp, rounds, read_since_lem}

-- Ticks that the cursor has passed already come back as nothing, however many they are.
read_since-stale :
    (s : Subscription) (b : TickBuffer) (batch : List TickRecord)
    → CaughtUp s b
    → All (Passed s.cursor) batch
    → (read_since s (push_all b batch) ≡ ([], s))
      × (CaughtUp s (push_all b batch) × ((push_all b batch).capacity ≡ b.capacity))
unfolding cursor_after
read_since-stale s b batch v stale =
    let all : List TickRecord = b.inner ++ batch in
    let k : ℕ = length all - b.capacity in
    let size : length (drop k all) ≤ b.capacity = omega (arith, length-drop k all) in
    let passed : All (Passed s.cursor) (drop k all) =
      All-drop (Passed s.cursor) k all
        (All-append (Passed s.cursor) b.inner batch v.passed stale) in
    let filled : TickBuffer = record b { inner = drop k all } in
    let limit = v.addressable in
    rw (push_all_lem batch b v.some_room v.bounded) (
      read_since_lem s filled (drop k all) [] (sym (append-nil (drop k all))) (omega arith) passed
          tt,
      (
        record {
          some_room = v.some_room;
          bounded = size;
          addressable = v.addressable;
          passed = passed;
        },
        refl,
      ),
    )

-- a read for each batch, with nothing in it
abbrev pub nothing_for : List (List TickRecord) → List (List TickRecord)
nothing_for [] = []
nothing_for (_ ∷ batches) = [] ∷ nothing_for batches

rounds-stale :
    (batches : List (List TickRecord)) (s : Subscription) (b : TickBuffer)
    → CaughtUp s b
    → All (All (Passed s.cursor)) batches
    → rounds s b batches ≡ nothing_for batches
rounds-stale [] s b v stale = refl
rounds-stale (batch ∷ batches) s b v (now, later) =
    let (read, (next, _)) = read_since-stale s b batch v now in
    rw read (ap (◌∷◌ []) (rounds-stale batches s (push_all b batch) next later))

below-Passed :
    (c : Option ℕ) (high : TickRecord) (batch : List TickRecord)
    → Passed c high
    → All (UpTo high.tick_id) batch
    → All (Passed c) batch
below-Passed none high batch p low = elim p [ ]
below-Passed (some c) high [] p low = tt
below-Passed (some c) high (x ∷ batch) p (low, rest) =
    (omega arith, below-Passed (some c) high batch p rest)

All-below-Passed :
    (c : Option ℕ) (high : TickRecord) (batches : List (List TickRecord))
    → Passed c high
    → All (All (UpTo high.tick_id)) batches
    → All (All (Passed c)) batches
All-below-Passed c high [] p low = tt
All-below-Passed c high (batch ∷ batches) p (low, rest) =
    (below-Passed c high batch p low, All-below-Passed c high batches p rest)

-- Once a subscription reads a buffer (within its capacity, which is positive and a `usize`) that
-- holds a tick `high`, it is never given a later tick whose id is not above that of `high`:
-- whatever batches of such ticks follow, each read returns nothing.
pub read_since-stall :
    (s : Subscription) (b : TickBuffer) (i : ℕ) (high : TickRecord)
    (batches : List (List TickRecord))
    → 0 < b.capacity
    → length b.inner ≤ b.capacity
    → b.capacity ≤ usize_max
    → get_elem? b.inner i ≡ some high
    → All (All (UpTo high.tick_id)) batches
    → rounds (read_since s b).1 b batches ≡ nothing_for batches
read_since-stall s b i high batches pos bounded h held low =
    let passed = (read_since-IsRead s b (omega arith)).passed in
    let next : Subscription = (read_since s b).1 in
    let seen : Passed next.cursor high =
      All-get_elem? (Passed next.cursor) b.inner i high passed held in
    rounds-stale batches next b
      (record { some_room = pos; bounded = bounded; addressable = h; passed = passed })
      (All-below-Passed next.cursor high batches seen low)
