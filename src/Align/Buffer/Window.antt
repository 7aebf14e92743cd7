-- ===== src/Align/Buffer/Window.antt =====
-- The buffer of crates/svdc-aligner/src/buffer.rs as a window on the newest ticks.
use svdc.Base.{
  ℕ, suc, ◌-◌, ◌≤◌, ◌<◌, min, leb, ltb, if◌then◌else◌, Bool-cases, true, List, [], ◌∷◌, ◌++◌, ◌≡◌,
  ap, arith, length, take, reverse, length-append, length-drop, append_assoc, append-nil, newest,
  newest-append, take-newest, inl, inr, ok, assert-ok,
}
use svdc.Core.Tick.{TickRecord}
use svdc.Align.Buffer.{TickBuffer, new, push, pop_front, recent}

-- the ticks pushed one after the other
abbrev pub push_all : TickBuffer → List TickRecord → TickBuffer
push_all buffer [] = buffer
push_all buffer (t ∷ ts) = push_all (push buffer t).1 ts

push-newest :
    (b : TickBuffer) (t : TickRecord)
    → 0 < b.capacity
    → length b.inner ≤ b.capacity
    → (push b t).1 ≡ record b { inner = newest b.capacity (b.inner ++ (t ∷ [])) }
unfolding push
push-newest b t pos bounded =
    ap (λ (xs : List TickRecord). record b { inner = xs }) (by_inner b.inner bounded)
  where
    full :
        (xs : List TickRecord)
        → length xs ≡ b.capacity
        → leb b.capacity (length xs) ≡ true
        → (if leb b.capacity (length xs) then (pop_front xs).1 else xs) ++ (t ∷ [])
          ≡ newest b.capacity (xs ++ (t ∷ []))
    full [] e d = absurd (omega (arith, e, pos))
    full (x ∷ xs) e d =
        let k : suc (length (xs ++ (t ∷ []))) - b.capacity ≡ 1 =
          omega (arith, e, length-append xs (t ∷ [])) in
        rw (d, k)

    by_inner :
        (xs : List TickRecord)
        → length xs ≤ b.capacity
        → (if leb b.capacity (length xs) then (pop_front xs).1 else xs) ++ (t ∷ [])
          ≡ newest b.capacity (xs ++ (t ∷ []))
    by_inner xs h = elim (Bool-cases (leb b.capacity (length xs))) [
      | inl e ↦ full xs (ground arith) e
      | inr e ↦
          let k : length (xs ++ (t ∷ [])) - b.capacity ≡ 0 =
            ground (arith, length-append xs (t ∷ [])) in
          rw (e, k)
    ]

pub push_all_lem :
    (ts : List TickRecord) (b : TickBuffer)
    → 0 < b.capacity
    → length b.inner ≤ b.capacity
    → push_all b ts ≡ record b { inner = newest b.capacity (b.inner ++ ts) }
push_all_lem [] b pos h =
    let e : length (b.inner ++ []) - b.capacity ≡ 0 = omega (arith, length-append b.inner []) in
    rw (e, append-nil b.inner)
push_all_lem (t ∷ ts) b pos h =
    let xs : List TickRecord = newest b.capacity (b.inner ++ (t ∷ [])) in
    let c : TickBuffer = record b { inner = xs } in
    let small : length xs ≤ b.capacity =
      omega
        (arith, length-drop (length (b.inner ++ (t ∷ [])) - b.capacity) (b.inner ++ (t ∷ []))) in
    rw (
      push-newest b t pos h,
      push_all_lem ts c pos small,
      newest-append b.capacity (b.inner ++ (t ∷ [])) ts,
      append_assoc b.inner (t ∷ []) ts,
    )

-- After any pushes on a new buffer, `recent n` returns the newest of all the ticks pushed, newest
-- first: as many as `n` and the capacity allow.
pub recent-push_all :
    (capacity n : ℕ) (b : TickBuffer) (ts : List TickRecord)
    → new capacity ≡ ok b
    → recent (push_all b ts) n ≡ take (min n capacity) (reverse ts)
unfolding new recent
recent-push_all capacity n b ts made =
    let (e, pos) = assert-ok (ltb 0 capacity) (record { inner = []; capacity = capacity }) b made in
    rw (
      ← e,
      push_all_lem ts (record { inner = []; capacity = capacity }) (ground arith) (omega arith),
      take-newest n capacity ts,
    )
