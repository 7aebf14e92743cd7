-- ===== src/Ingress/Loopback.antt =====
-- `LoopbackSubscriber` of crates/svdc-ingress/src/subscriber.rs.
use svdc.Base.{ℕ, List, [], ◌∷◌, ◌++◌, length, Outcome, ok, err}
use svdc.Ingress.{IngressTimestamp}

pub data SubscriberError : Type 0 where
  closed : SubscriberError

pub record LoopbackSubscriber : Type 0 where
  pub queue : List (List ℕ × IngressTimestamp)

abbrev pub new : LoopbackSubscriber
new = record { queue = [] }

unfoldable pub push_frame : LoopbackSubscriber → List ℕ → IngressTimestamp → LoopbackSubscriber
push_frame s frame ts = record { queue = s.queue ++ ((frame, ts) ∷ []) }

abbrev pub pending : LoopbackSubscriber → ℕ
pending s = length s.queue

-- `pop_front().ok_or(SubscriberError::Closed)`, by the queue
unfoldable pub next_of :
    List (List ℕ × IngressTimestamp)
    → Outcome SubscriberError (List ℕ × IngressTimestamp) × LoopbackSubscriber
next_of [] = (err closed, record { queue = [] })
next_of (x ∷ rest) = (ok x, record { queue = rest })

unfoldable pub next_frame :
    LoopbackSubscriber → Outcome SubscriberError (List ℕ × IngressTimestamp) × LoopbackSubscriber
unfolding next_of
next_frame s = next_of s.queue
