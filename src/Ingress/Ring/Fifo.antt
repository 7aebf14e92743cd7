-- ===== src/Ingress/Ring/Fifo.antt =====
-- The ring of crates/svdc-ingress/src/ring.rs against a bounded first-in first-out queue that is told by
-- its history alone.
use svdc.Base.{
  ℕ, ◌+◌, ◌≤◌, ◌<◌, leb, ltb, Bool-cases, if◌then◌else◌, true, false, Option, none, some, List, [],
  ◌∷◌, ◌++◌, ◌≡◌, refl, sym, ap, ◌∙◌, arith, length, take, drop, length-append, append_assoc,
  append-nil, Outcome, ok, err, panic, inl, inr, assert-ok,
}
use svdc.Ingress.{IngressFrame}
use svdc.Ingress.Ring
use svdc.Ingress.Ring.{IngressRing}

-- what the producer or the consumer does next
pub data Op : Type 0 where
  push : IngressFrame → Op
  pop : Op

-- the frames accepted, those handed back to the producer and those handed out, each oldest first
pub record History : Type 0 where
  pub accepted : List IngressFrame
  pub refused : List IngressFrame
  pub popped : List IngressFrame

abbrev pub no_history : History
no_history = record { accepted = []; refused = []; popped = [] }

-- A queue of `capacity` frames by its history: it accepts a frame while fewer than `capacity` are in it, hands
-- it back otherwise, and hands out the oldest accepted frame that it has not handed out, if there is one.
abbrev pub after : ℕ → Op → History → History
after capacity (push frame) h =
    if ltb (length h.accepted) (length h.popped + capacity)
    then record h { accepted = h.accepted ++ (frame ∷ []) }
    else record h { refused = h.refused ++ (frame ∷ []) }
after capacity pop h = record h { popped = h.popped ++ take 1 (drop (length h.popped) h.accepted) }

abbrev pub after_all : ℕ → List Op → History → History
after_all capacity [] h = h
after_all capacity (op ∷ ops) h = after_all capacity ops (after capacity op h)

-- a ring with the history that its results tell
pub record Trace : Type 0 where
  pub ring : IngressRing
  pub history : History

abbrev pub log_push : Outcome IngressFrame (Unit {0}) → IngressFrame → History → History
log_push (ok _) frame h = record h { accepted = h.accepted ++ (frame ∷ []) }
log_push (err back) frame h = record h { refused = h.refused ++ (back ∷ []) }
log_push panic frame h = h

abbrev pub log_pop : Option IngressFrame → History → History
log_pop none h = h
log_pop (some frame) h = record h { popped = h.popped ++ (frame ∷ []) }

abbrev pub step : Op → Trace → Trace
step (push frame) t =
    let (r, ring) = Ring.push t.ring frame in
    record { ring = ring; history = log_push r frame t.history }
step pop t =
    let (r, ring) = Ring.pop t.ring in record { ring = ring; history = log_pop r t.history }

abbrev pub run : List Op → Trace → Trace
run [] t = t
run (op ∷ ops) t = run ops (step op t)

-- the ring and its results are those of the queue
pub record IsValid (capacity : ℕ) (queue : History) (t : Trace) : Type 0 where
  pub fixed : t.ring.capacity ≡ capacity
  pub bounded : length t.ring.inner ≤ capacity
  pub results : t.history ≡ queue
  pub fifo : queue.accepted ≡ queue.popped ++ t.ring.inner

drop_popped : (xs ys : List IngressFrame) → drop (length xs) (xs ++ ys) ≡ ys
drop_popped [] ys = refl
drop_popped (x ∷ xs) ys = drop_popped xs ys

step-IsValid :
    (capacity : ℕ) (op : Op) (queue : History) (t : Trace)
    → IsValid capacity queue t
    → IsValid capacity (after capacity op queue) (step op t)
unfolding Ring.push Ring.pop Ring.pop_front
step-IsValid capacity (push frame) queue t v =
    let fixed = v.fixed in
    let n : length queue.accepted ≡ length queue.popped + length t.ring.inner =
      ap length v.fifo ∙ length-append queue.popped t.ring.inner in
    elim (Bool-cases (leb t.ring.capacity (length t.ring.inner))) [
      | inl e ↦
          let full : ltb (length queue.accepted) (length queue.popped + capacity) ≡ false =
            ground arith in
          rw (e, full)
            (record {
              fixed = v.fixed;
              bounded = v.bounded;
              results =
                  ap (λ (h : History). record h { refused = h.refused ++ (frame ∷ []) }) v.results;
              fifo = v.fifo;
            })
      | inr e ↦
          let free : length t.ring.inner < t.ring.capacity = ground arith in
          let room : ltb (length queue.accepted) (length queue.popped + capacity) ≡ true =
            ground arith in
          rw (e, room)
            (record {
              fixed = v.fixed;
              bounded = omega (arith, fixed, free, length-append t.ring.inner (frame ∷ []));
              results =
                  ap (λ (h : History). record h { accepted = h.accepted ++ (frame ∷ []) })
                    v.results;
              fifo =
                  ap (λ fs. fs ++ (frame ∷ [])) v.fifo
                  ∙ append_assoc queue.popped t.ring.inner (frame ∷ []);
            })
    ]
step-IsValid capacity pop queue t v = by_inner t.ring.inner v.bounded v.fifo
  where
    by_inner :
        (inner : List IngressFrame)
        → length inner ≤ capacity
        → queue.accepted ≡ queue.popped ++ inner
        → IsValid capacity (after capacity pop queue) (
            let (r, rest) = Ring.pop_front inner in
            record {
              ring = record { inner = rest; capacity = t.ring.capacity };
              history = log_pop r t.history;
            })
    by_inner [] b f =
        let next : drop (length queue.popped) queue.accepted ≡ [] =
          ap (drop (length queue.popped)) f ∙ drop_popped queue.popped [] in
        rw (next, append-nil queue.popped)
          (record { fixed = v.fixed; bounded = b; results = v.results; fifo = f })
    by_inner (x ∷ inner) b f =
        let next : drop (length queue.popped) queue.accepted ≡ x ∷ inner =
          ap (drop (length queue.popped)) f ∙ drop_popped queue.popped (x ∷ inner) in
        rw next (record {
          fixed = v.fixed;
          bounded = omega arith;
          results = ap (λ (h : History). record h { popped = h.popped ++ (x ∷ []) }) v.results;
          fifo = f ∙ sym (append_assoc queue.popped (x ∷ []) inner);
        })

run-IsValid :
    (capacity : ℕ) (ops : List Op) (queue : History) (t : Trace)
    → IsValid capacity queue t
    → IsValid capacity (after_all capacity ops queue) (run ops t)
run-IsValid capacity [] queue t v = v
run-IsValid capacity (op ∷ ops) queue t v =
    run-IsValid capacity ops (after capacity op queue) (step op t)
      (step-IsValid capacity op queue t v)

-- the trace that starts with a new ring
abbrev pub fresh : IngressRing → Trace
fresh ring = record { ring = ring; history = no_history }

-- Under any interleaving of pushes and pops on a new ring, the results are those of a bounded first-in
-- first-out queue that decides by its history: a push is accepted exactly while fewer frames than the
-- capacity are in the queue and hands its frame back otherwise, and a pop hands out the oldest
-- frame that is left, or none only when none is. The ring holds the accepted frames that were not handed
-- out, in order, and never more than its capacity.
pub run-fifo :
    (capacity : ℕ) (ring : IngressRing) (ops : List Op)
    → Ring.new capacity ≡ ok ring
    → IsValid capacity (after_all capacity ops no_history) (run ops (fresh ring))
unfolding Ring.new
run-fifo capacity ring ops e =
    let (made, _) =
      assert-ok (ltb 0 capacity) (record { inner = []; capacity = capacity }) ring e in
    run-IsValid capacity ops no_history (fresh ring)
      (rw (← made) (record { fixed = refl; bounded = omega arith; results = refl; fifo = refl }))
