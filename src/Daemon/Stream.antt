-- ===== src/Daemon/Stream.antt =====
-- Any interleaving of the producer and the consumer of crates/svdc-bin/src/main.rs.
use svdc.Base.{
  ℕ, suc, ◌+◌, ◌^◌, ◌≤◌, ◌<◌, leb, ltb, true, false, Bool-cases, inl, inr, List, [], ◌∷◌, ◌++◌, ◌≡◌,
  refl, sym, ap, ◌∙◌, arith, length, length-append, append_assoc, append-nil, Outcome, ok, err,
  panic,
}
use svdc.Core.Tick.{TickRecord}
use svdc.Ingress.{IngressTimestamp, IngressFrame, DecodedSample}
use svdc.Ingress.Decoder
use svdc.Ingress.Decoder.{DecodeFailure}
use svdc.Ingress.Ring
use svdc.Align.Buffer
use svdc.Align.Buffer.{TickBuffer}
use svdc.Align.Buffer.Window.{push_all}
use svdc.Align.Ticks.{IsStream, process_frame_lem}
use svdc.Daemon.{Daemon, enqueue, receive, push_ticks, align, consume}
use svdc.Daemon.Flow.{
  Step, datagram, round, step, run, frame_of, arrived, IsSubsequence, skip_last, keep_last,
  IsStream-last, push_all_last, Flow, no_flow, offer, take_oldest, flow, flow_all,
}

-- What a daemon that began with `start` has done after `k` steps in which `sent` arrived, of which `q`
-- waits and was taken: the frames taken became `ticks`.
pub record Progress (start : Daemon) (k : ℕ) (sent : List IngressFrame) (q : Flow) (d : Daemon)
    : Type 0 where
  pub ticks : List TickRecord
  pub stream : IsStream 0 q.taken ticks
  pub queued : d.ring.inner ≡ q.queue
  pub fixed : d.ring.capacity ≡ start.ring.capacity
  pub order : IsSubsequence (q.taken ++ q.queue) sent
  pub buffered : d.buffer ≡ push_all start.buffer ticks
  pub counted : d.ticks_emitted ≡ length q.taken
  pub next : d.aligner.next_tick_id ≡ length q.taken
  pub few : length q.taken ≤ k

enqueue-Progress :
    (start : Daemon) (k : ℕ) (sent : List IngressFrame) (q : Flow) (d : Daemon)
    (r : Outcome DecodeFailure (List DecodedSample)) (ts : IngressTimestamp)
    → Progress start k sent q d
    → Progress start
        (k + 1)
        (sent ++ frame_of r ts)
        (offer start.ring.capacity (frame_of r ts) q)
        (record d { ring = enqueue r ts d.ring })
unfolding enqueue Ring.push
enqueue-Progress start k sent q d r ts p = by_result r
  where
    moved :
        (ring : Ring.IngressRing) (more queue : List IngressFrame)
        → ring.inner ≡ queue
        → ring.capacity ≡ start.ring.capacity
        → IsSubsequence (q.taken ++ queue) (sent ++ more)
        → Progress start
            (k + 1)
            (sent ++ more)
            (record q { queue = queue })
            (record d { ring = ring })
    moved ring more queue queued fixed s = record {
      ticks = p.ticks;
      stream = p.stream;
      queued = queued;
      fixed = fixed;
      order = s;
      buffered = p.buffered;
      counted = p.counted;
      next = p.next;
      few = omega (arith, p.few);
    }

    by_result :
        (r : Outcome DecodeFailure (List DecodedSample))
        → Progress start
            (k + 1)
            (sent ++ frame_of r ts)
            (offer start.ring.capacity (frame_of r ts) q)
            (record d { ring = enqueue r ts d.ring })
    by_result (ok samples) =
        let f : IngressFrame = record { timestamp = ts; samples = samples } in
        let waiting : length d.ring.inner ≡ length q.queue = ap length p.queued in
        let fixed = p.fixed in
        elim (Bool-cases (leb d.ring.capacity (length d.ring.inner))) [
          | inl e ↦
              let full : ltb (length q.queue) start.ring.capacity ≡ false = ground arith in
              rw (enqueue, e, full)
                (moved d.ring (f ∷ []) q.queue p.queued fixed
                  (skip_last (q.taken ++ q.queue) sent f p.order))
          | inr e ↦
              let free : ltb (length q.queue) start.ring.capacity ≡ true = ground arith in
              rw (enqueue, e, free)
                (moved (record d.ring { inner = d.ring.inner ++ (f ∷ []) }) (f ∷ [])
                  (q.queue ++ (f ∷ [])) (ap (λ fs. fs ++ (f ∷ [])) p.queued) fixed
                  (rw (append_assoc q.taken q.queue (f ∷ [])) at
                    (keep_last (q.taken ++ q.queue) sent f p.order)))
        ]
    by_result (err e) = moved d.ring [] q.queue p.queued p.fixed (rw (append-nil sent) p.order)
    by_result panic = moved d.ring [] q.queue p.queued p.fixed (rw (append-nil sent) p.order)

align-Progress :
    (start : Daemon) (k : ℕ) (sent : List IngressFrame) (q : Flow) (d : Daemon)
    (queue : List IngressFrame) (clock : ℕ → ℕ)
    → k + 1 < 2 ^ 64
    → Progress start k sent q d
    → q.queue ≡ queue
    → Progress start (k + 1) sent (take_oldest queue q.taken) (
        let (frame, rest) = Ring.pop_front queue in
        align clock frame (record d { ring = record d.ring { inner = rest } }))
unfolding align push_ticks Ring.pop_front
align-Progress start k sent q d [] clock small p e = record {
  ticks = p.ticks;
  stream = p.stream;
  queued = refl;
  fixed = p.fixed;
  order = rw e at p.order;
  buffered = p.buffered;
  counted = p.counted;
  next = p.next;
  few = omega (arith, p.few);
}
align-Progress start k sent q d (f ∷ queue) clock small p e =
    let (t, (emitted, live)) = process_frame_lem d.aligner f in
    let n = p.next in
    let id : d.aligner.next_tick_id ≡ 0 + length q.taken = omega (arith, n) in
    let few = p.few in
    let counted = p.counted in
    let len : length (q.taken ++ (f ∷ [])) ≡ length q.taken + 1 =
      omega (arith, length-append q.taken (f ∷ [])) in
    rw emitted (record {
      ticks = p.ticks ++ (t ∷ []);
      stream = IsStream-last 0 q.taken p.ticks f t p.stream (rw (← id) live);
      queued = refl;
      fixed = p.fixed;
      order = rw (append_assoc q.taken (f ∷ []) queue) (rw e at p.order);
      buffered =
          ap (λ (b : TickBuffer). (Buffer.push b t).1) p.buffered
          ∙ sym (push_all_last start.buffer p.ticks t);
      counted = omega (arith, len, counted, few);
      next = omega (arith, len, n, few);
      few = omega (arith, len, few);
    })

step-Progress :
    (start : Daemon) (k : ℕ) (sent : List IngressFrame) (q : Flow) (d : Daemon) (s : Step)
    → k + 1 < 2 ^ 64
    → Progress start k sent q d
    → Progress start (k + 1) (sent ++ arrived (s ∷ [])) (flow start.ring.capacity s q) (step s d)
unfolding receive consume Ring.pop
step-Progress start k sent q d (datagram bytes ts) small p =
    rw (append-nil (frame_of (Decoder.decode_l2_stripped bytes) ts))
      (enqueue-Progress start k sent q d (Decoder.decode_l2_stripped bytes) ts p)
step-Progress start k sent q d (round clock) small p =
    rw (append-nil sent, p.queued) (align-Progress start k sent q d q.queue clock small p refl)

arrived-cons :
    (s : Step) (steps : List Step) → arrived (s ∷ steps) ≡ arrived (s ∷ []) ++ arrived steps
arrived-cons (datagram bytes ts) steps =
    rw (append-nil (frame_of (Decoder.decode_l2_stripped bytes) ts))
arrived-cons (round clock) steps = refl

run-Progress :
    (start : Daemon) (k : ℕ) (sent : List IngressFrame) (q : Flow) (d : Daemon) (steps : List Step)
    → k + length steps < 2 ^ 64
    → Progress start k sent q d
    → Progress start
        (k + length steps)
        (sent ++ arrived steps)
        (flow_all start.ring.capacity steps q)
        (run steps d)
run-Progress start k sent q d [] small p =
    let e : k + 0 ≡ k = omega arith in rw (append-nil sent, e) p
run-Progress start k sent q d (s ∷ steps) small p =
    let e : k + suc (length steps) ≡ k + 1 + length steps = omega arith in
    rw (e, arrived-cons s steps, ← append_assoc sent (arrived (s ∷ [])) (arrived steps))
      (run-Progress start (k + 1) (sent ++ arrived (s ∷ [])) (flow start.ring.capacity s q)
        (step s d) steps (omega arith) (step-Progress start k sent q d s (omega arith) p))

-- a daemon that has seen nothing yet
pub record IsFresh (d : Daemon) : Type 0 where
  pub no_frames : d.ring.inner ≡ []
  pub no_ticks : d.ticks_emitted ≡ 0
  pub first_id : d.aligner.next_tick_id ≡ 0

-- From a fresh daemon and under any interleaving of fewer than 2 ^ 64 steps, a datagram that decodes is
-- dropped exactly when the ring is full, and each round of the consumer takes the oldest frame that waits,
-- if one does: the ring holds just the frames that wait. The buffer has been pushed exactly one live tick
-- per frame taken, in order, under consecutive ids from 0 and with intact CRCs, and the ticks are counted.
-- The frames taken followed by those that wait are in their order of arrival.
pub run-stream :
    (start : Daemon) (steps : List Step)
    → IsFresh start
    → length steps < 2 ^ 64
    → Progress start
        (length steps)
        (arrived steps)
        (flow_all start.ring.capacity steps no_flow)
        (run steps start)
run-stream start steps v small =
    let e : 0 + length steps ≡ length steps = omega arith in
    rw e at (
      run-Progress start 0 [] no_flow start steps (omega arith) (record {
        ticks = [];
        stream = tt;
        queued = v.no_frames;
        fixed = refl;
        order = tt;
        buffered = refl;
        counted = v.no_ticks;
        next = v.first_id;
        few = omega arith;
      }))
