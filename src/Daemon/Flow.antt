-- ===== src/Daemon/Flow.antt =====
-- What the producer and the consumer of crates/svdc-bin/src/main.rs have to do with the frames: a bounded
-- queue and the frames taken from it, with the lemmas on lists of frames and ticks.
use svdc.Base.{
  ℕ, suc, ◌+◌, ltb, if◌then◌else◌, ◌⊎◌, inl, inr, List, [], ◌∷◌, ◌++◌, ◌≡◌, refl, arith, length,
  Outcome, ok, err, panic,
}
use svdc.Core.Tick.{TickRecord}
use svdc.Ingress.{IngressTimestamp, IngressFrame, DecodedSample}
use svdc.Ingress.Decoder
use svdc.Ingress.Decoder.{DecodeFailure}
use svdc.Align.Buffer
use svdc.Align.Buffer.{TickBuffer}
use svdc.Align.Buffer.Window.{push_all}
use svdc.Align.Ticks.{IsStream, IsLiveTick, channels_of}
use svdc.Daemon.{Daemon, receive, consume}

-- what either thread does next
pub data Step : Type 0 where
  datagram : List ℕ → IngressTimestamp → Step
  round : (ℕ → ℕ) → Step

abbrev pub step : Step → Daemon → Daemon
step (datagram bytes ts) d = receive bytes ts d
step (round clock) d = consume clock d

abbrev pub run : List Step → Daemon → Daemon
run [] d = d
run (s ∷ steps) d = run steps (step s d)

-- the frame in a payload that decodes
abbrev pub frame_of :
    Outcome DecodeFailure (List DecodedSample) → IngressTimestamp → List IngressFrame
frame_of (ok samples) ts = record { timestamp = ts; samples = samples } ∷ []
frame_of (err e) ts = []
frame_of panic ts = []

-- the frames that arrive
abbrev pub arrived : List Step → List IngressFrame
arrived [] = []
arrived (datagram bytes ts ∷ steps) =
    frame_of (Decoder.decode_l2_stripped bytes) ts ++ arrived steps
arrived (round clock ∷ steps) = arrived steps

-- `xs` is `ys` with some elements left out
abbrev pub IsSubsequence : List IngressFrame → List IngressFrame → Type 0
IsSubsequence [] ys = Unit
IsSubsequence (x ∷ xs) [] = ⊥
IsSubsequence (x ∷ xs) (y ∷ ys) = ((x ≡ y) × IsSubsequence xs ys) ⊎ IsSubsequence (x ∷ xs) ys

pub skip_last :
    (xs ys : List IngressFrame) (z : IngressFrame)
    → IsSubsequence xs ys
    → IsSubsequence xs (ys ++ (z ∷ []))
skip_last [] ys z s = tt
skip_last (x ∷ xs) [] z s = elim s [ ]
skip_last (x ∷ xs) (y ∷ ys) z (inl (e, s)) = inl (e, skip_last xs ys z s)
skip_last (x ∷ xs) (y ∷ ys) z (inr s) = inr (skip_last (x ∷ xs) ys z s)

pub keep_last :
    (xs ys : List IngressFrame) (z : IngressFrame)
    → IsSubsequence xs ys
    → IsSubsequence (xs ++ (z ∷ [])) (ys ++ (z ∷ []))
keep_last [] [] z s = inl (refl, tt)
keep_last [] (y ∷ ys) z s = inr (keep_last [] ys z tt)
keep_last (x ∷ xs) [] z s = elim s [ ]
keep_last (x ∷ xs) (y ∷ ys) z (inl (e, s)) = inl (e, keep_last xs ys z s)
keep_last (x ∷ xs) (y ∷ ys) z (inr s) = inr (keep_last (x ∷ xs) ys z s)

pub IsStream-last :
    (id : ℕ) (frames : List IngressFrame) (ticks : List TickRecord) (f : IngressFrame)
    (t : TickRecord)
    → IsStream id frames ticks
    → IsLiveTick (id + length frames) f.timestamp.unix_ns (channels_of f.samples) t
    → IsStream id (frames ++ (f ∷ [])) (ticks ++ (t ∷ []))
IsStream-last id [] [] f t s live = let e : id + 0 ≡ id = omega arith in (rw e at live, tt)
IsStream-last id [] (x ∷ ticks) f t s live = elim s [ ]
IsStream-last id (g ∷ frames) [] f t s live = elim s [ ]
IsStream-last id (g ∷ frames) (x ∷ ticks) f t (now, s) live =
    let e : id + suc (length frames) ≡ id + 1 + length frames = omega arith in
    (now, IsStream-last (id + 1) frames ticks f t s (rw e at live))

pub push_all_last :
    (b : TickBuffer) (ts : List TickRecord) (t : TickRecord)
    → push_all b (ts ++ (t ∷ [])) ≡ (Buffer.push (push_all b ts) t).1
push_all_last b [] t = refl
push_all_last b (x ∷ ts) t = push_all_last (Buffer.push b x).1 ts t

-- the frames that wait and those that were taken, each oldest first
pub record Flow : Type 0 where
  pub queue : List IngressFrame
  pub taken : List IngressFrame

abbrev pub no_flow : Flow
no_flow = record { queue = []; taken = [] }

-- a frame is dropped only when `capacity` frames wait
abbrev pub offer : ℕ → List IngressFrame → Flow → Flow
offer capacity [] q = q
offer capacity (f ∷ fs) q =
    if ltb (length q.queue) capacity then record q { queue = q.queue ++ (f ∷ []) } else q

-- the oldest frame that waits is taken
abbrev pub take_oldest : List IngressFrame → List IngressFrame → Flow
take_oldest [] taken = record { queue = []; taken = taken }
take_oldest (f ∷ queue) taken = record { queue = queue; taken = taken ++ (f ∷ []) }

-- What has to become of the frames: each that decodes waits, unless `capacity` frames do, and each round takes
-- the oldest.
abbrev pub flow : ℕ → Step → Flow → Flow
flow capacity (datagram bytes ts) q =
    offer capacity (frame_of (Decoder.decode_l2_stripped bytes) ts) q
flow capacity (round clock) q = take_oldest q.queue q.taken

abbrev pub flow_all : ℕ → List Step → Flow → Flow
flow_all capacity [] q = q
flow_all capacity (s ∷ steps) q = flow_all capacity steps (flow capacity s q)
