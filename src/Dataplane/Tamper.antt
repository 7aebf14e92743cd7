-- ===== src/Dataplane/Tamper.antt =====
-- What `inject_tamper` of crates/svdc-console/src/dataplane/mod.rs does to the sweep and to
-- subscriptions.
use svdc.Base.{
  ℕ, ◌+◌, ◌-◌, ◌%◌, ◌^◌, ◌<◌, ◌≤◌, List, [], ◌∷◌, ◌++◌, ◌≡◌, refl, ap, ◌∙◌, arith, length, drop,
  drop-append, All, All-drop, length-append, length-drop, get_elem?-length, err,
}
use svdc.Core.Tick.{TickRecord, IntegrityViolation, verify_crc}
use svdc.Align.Buffer
use svdc.Align.Buffer.{TickBuffer, violations}
use svdc.Align.Buffer.Window.{push_all_lem}
use svdc.Align.Buffer.Sweep.{IsIntact, violations-append}
use svdc.Subscribe.{Subscription, usize_max, read_since}
use svdc.Subscribe.Sorted.{UpTo}
use svdc.Subscribe.Delivery.{rounds}
use svdc.Subscribe.Stall.{nothing_for, read_since-stall}
use svdc.Dataplane.{DataPipeline, tampered, inject_tamper, sweep}

abbrev pub tamper_id : DataPipeline → ℕ
tamper_id p = (p.ticks_emitted + 1_000_000_000) % 2 ^ 64

abbrev reported : ℕ → IntegrityViolation
reported id = record { tick_id = id; stored = 0xDEAD_BEEF; computed = 1_195_188_399 }

-- the CRC that it carries is not that of its payload
tampered-reported : (id now : ℕ) → verify_crc (tampered id now) ≡ err (reported id)
unfolding tampered verify_crc
tampered-reported id now = refl

-- what is left of the buffer in front of a new tick
abbrev before : TickBuffer → List TickRecord
before b = drop (length b.inner + 1 - b.capacity) b.inner

push-before :
    (b : TickBuffer) (t : TickRecord)
    → 0 < b.capacity
    → length b.inner ≤ b.capacity
    → (Buffer.push b t).1 ≡ record b { inner = before b ++ (t ∷ []) }
push-before b t pos bounded =
    let len = length-append b.inner (t ∷ []) in
    let k : length (b.inner ++ (t ∷ [])) - b.capacity ≡ length b.inner + 1 - b.capacity =
      omega (arith, len) in
    push_all_lem (t ∷ []) b pos bounded
    ∙ ap (λ (xs : List TickRecord). record b { inner = xs })
        (rw k (drop-append (length b.inner + 1 - b.capacity) b.inner (t ∷ []) (omega arith)))

-- On a data plane whose buffer is intact (and within its positive capacity), the sweep after
-- `inject_tamper` reports exactly the record injected.
sweep-inject_tamper :
    (now : ℕ) (p : DataPipeline)
    → 0 < p.buffer.capacity
    → length p.buffer.inner ≤ p.buffer.capacity
    → All IsIntact p.buffer.inner
    → ((sweep (inject_tamper now p)).0 ≡ tamper_id p ∷ [])
      × ((sweep (inject_tamper now p)).1.last_violations ≡ 1)
unfolding sweep inject_tamper Buffer.verify_all
sweep-inject_tamper now p pos bounded a =
    let b = p.buffer in
    let bad = tampered (tamper_id p) now in
    let kept : All IsIntact (before b) =
      All-drop IsIntact (length b.inner + 1 - b.capacity) b.inner a in
    let found : violations (before b ++ (bad ∷ [])) ≡ reported (tamper_id p) ∷ [] =
      violations-append (before b) bad (reported (tamper_id p)) kept
        (tampered-reported (tamper_id p) now) [] tt in
    rw (push-before b bad pos bounded, found) (refl, refl)

-- Once a subscription reads the buffer after `inject_tamper` (within its capacity, which is positive
-- and a `usize`), it is given no later tick whose id is at most that of the record injected, which is
-- 10 ^ 9 above the count of ticks (modulo 2 ^ 64): each read returns nothing.
pub inject_tamper-stall :
    (now : ℕ) (p : DataPipeline) (s : Subscription) (batches : List (List TickRecord))
    → 0 < p.buffer.capacity
    → length p.buffer.inner ≤ p.buffer.capacity
    → p.buffer.capacity ≤ usize_max
    → All (All (UpTo (tamper_id p))) batches
    → rounds (read_since s (inject_tamper now p).buffer).1 (inject_tamper now p).buffer batches
      ≡ nothing_for batches
unfolding inject_tamper tampered
inject_tamper-stall now p s batches pos bounded h low =
    let b = p.buffer in
    let bad = tampered (tamper_id p) now in
    let size : length (before b ++ (bad ∷ [])) ≤ b.capacity = omega (
      arith,
      length-append (before b) (bad ∷ []),
      length-drop (length b.inner + 1 - b.capacity) b.inner,
    ) in
    rw (push-before b bad pos bounded) (
      read_since-stall s (record b { inner = before b ++ (bad ∷ []) }) (length (before b)) bad
        batches pos size h (get_elem?-length (before b) bad []) low)
