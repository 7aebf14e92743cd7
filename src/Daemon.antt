-- ===== src/Daemon.antt =====
-- The two threads of the UDP ingress (`spawn_udp_ingress` of crates/svdc-bin/src/main.rs) over the
-- shared ring and tick buffer, and the data-plane state of crates/svdc-console that they touch.
-- Every method takes one lock, so a run is a sequence of the steps below in any order.
pub mod Flow
pub mod Stream
mod Tests
use svdc.Base.{
  ℕ, ◌+◌, ◌%◌, ◌^◌, min, Option, none, some, List, [], ◌∷◌, ◌++◌, Outcome, ok, err, panic,
}
use svdc.Wire.Frame.{DecodeError}
use svdc.Core.Tick.{TickRecord}
use svdc.Ingress.{IngressTimestamp, IngressFrame, DecodedSample}
use svdc.Ingress.Decoder
use svdc.Ingress.Decoder.{DecodeFailure}
use svdc.Ingress.Ring
use svdc.Ingress.Ring.{IngressRing}
use svdc.Align
use svdc.Align.{Aligner}
use svdc.Observe.{MuObservation, note_mu_observed}
use svdc.Align.Buffer
use svdc.Align.Buffer.{TickBuffer}

-- what the two threads share, and what each keeps: the consumer its aligner
pub record Daemon : Type 0 where
  pub ring : IngressRing
  pub aligner : Aligner
  pub buffer : TickBuffer
  pub ticks_emitted : ℕ
  pub seen_mus : List MuObservation

-- the producer's match on the decoder's result: a frame that the full ring rejects, and a payload
-- that does not decode, are dropped
unfoldable pub enqueue :
    Outcome DecodeFailure (List DecodedSample) → IngressTimestamp → IngressRing → IngressRing
unfolding Ring.push
enqueue (ok samples) ts ring = (Ring.push ring (record { timestamp = ts; samples = samples })).1
enqueue (err e) ts ring = ring
enqueue panic ts ring = ring

-- one datagram at the producer
unfoldable pub receive : List ℕ → IngressTimestamp → Daemon → Daemon
unfolding enqueue Decoder.decode_l2_stripped
receive bytes ts d = record d { ring = enqueue (Decoder.decode_l2_stripped bytes) ts d.ring }

-- `for tick in aligner.process_frame(frame)`
unfoldable pub push_ticks : List TickRecord → Daemon → Daemon
unfolding Buffer.push
push_ticks [] d = d
push_ticks (tick ∷ ticks) d = push_ticks ticks (record d {
  buffer = (Buffer.push d.buffer tick).1;
  ticks_emitted = (d.ticks_emitted + 1) % 2 ^ 64;
})

-- `for asdu in &frame.samples`, each with its reading of the clock
unfoldable pub note_samples : (ℕ → ℕ) → List DecodedSample → List MuObservation → List MuObservation
unfolding note_mu_observed
note_samples clock [] seen = seen
note_samples clock (asdu ∷ samples) seen =
    note_samples (λ i. clock (i + 1)) samples (note_mu_observed (clock 0) asdu.sv_id seen)

-- the consumer's match on what it popped; on an empty ring it sleeps
unfoldable pub align : (ℕ → ℕ) → Option IngressFrame → Daemon → Daemon
unfolding note_samples push_ticks
align clock none d = d
align clock (some frame) d =
    let seen = note_samples clock frame.samples d.seen_mus in
    let (ticks, aligner) = Align.process_frame d.aligner frame in
    push_ticks ticks (record d { aligner = aligner; seen_mus = seen })

-- one round of the consumer's loop
unfoldable pub consume : (ℕ → ℕ) → Daemon → Daemon
unfolding align Ring.pop
consume clock d =
    let (frame, ring) = Ring.pop d.ring in align clock frame (record d { ring = ring })
