-- ===== src/Ingress/Ring.antt =====
-- crates/svdc-ingress/src/ring.rs: the bounded queue between ingress and aligner. A method that takes
-- the lock is one atomic step, which returns its value and the new ring.
pub mod Fifo
use svdc.Base.{
  ℕ, leb, ltb, ◌==◌, if◌then◌else◌, Bool, Option, none, some, List, [], ◌∷◌, ◌++◌, length, Outcome,
  ok, err, assert,
}
use svdc.Ingress.{IngressFrame}

pub record IngressRing : Type 0 where
  pub inner : List IngressFrame
  pub capacity : ℕ

unfoldable pub new : ℕ → Outcome ⊥ IngressRing
new capacity = assert (ltb 0 capacity) (record { inner = []; capacity = capacity })

unfoldable pub push : IngressRing → IngressFrame → Outcome IngressFrame (Unit {0}) × IngressRing
push ring frame =
    if leb ring.capacity (length ring.inner)
    then (err frame, ring)
    else (ok tt, record ring { inner = ring.inner ++ (frame ∷ []) })

-- `pop_front`
unfoldable pub pop_front : List IngressFrame → Option IngressFrame × List IngressFrame
pop_front [] = (none, [])
pop_front (frame ∷ rest) = (some frame, rest)

unfoldable pub pop : IngressRing → Option IngressFrame × IngressRing
unfolding pop_front
pop ring = let (frame, rest) = pop_front ring.inner in (frame, record ring { inner = rest })

abbrev pub len : IngressRing → ℕ
len ring = length ring.inner

abbrev pub is_empty : IngressRing → Bool
is_empty ring = len ring == 0
