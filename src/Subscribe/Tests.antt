-- ===== src/Subscribe/Tests.antt =====
-- Subscriptions of crates/svdc-subscribe on short runs.
use svdc.Base.{ℕ, List, [], ◌∷◌, ◌≡◌, refl, arith, ok}
use svdc.Core.Tick
use svdc.Core.Tick.{TickRecord}
use svdc.Align.Buffer
use svdc.Align.Buffer.{TickBuffer}
use svdc.Subscribe.{all, subscribe, read_since}
use svdc.Subscribe.Delivery.{rounds, read_since-gap_free}
use svdc.Subscribe.Stall.{read_since-stall}

abbrev tick : ℕ → TickRecord
tick id = Tick.empty id 0

abbrev pair : TickBuffer
pair = record { inner = []; capacity = 2 }

new-pair : Buffer.new 2 ≡ ok pair
unfolding Buffer.new
new-pair = refl

abbrev batches : List (List TickRecord)
batches = (tick 0 ∷ tick 1 ∷ []) ∷ [] ∷ (tick 5 ∷ []) ∷ []

read_since-gap_free_example : rounds (subscribe all) pair batches ≡ batches
read_since-gap_free_example =
    read_since-gap_free all 2 pair batches (omega arith) new-pair (omega arith) (omega arith)

-- ids out of order, as after a restart
abbrev restarted : TickBuffer
restarted = record { inner = tick 7 ∷ tick 0 ∷ []; capacity = 2 }

read_since-stall_example :
    rounds
      (read_since (subscribe all) restarted).1
      restarted
      ((tick 1 ∷ tick 2 ∷ []) ∷ (tick 3 ∷ []) ∷ [])
    ≡ [] ∷ [] ∷ []
read_since-stall_example =
    read_since-stall (subscribe all) restarted 0 (tick 7)
      ((tick 1 ∷ tick 2 ∷ []) ∷ (tick 3 ∷ []) ∷ []) (omega arith) (omega arith) (omega arith) refl
      (omega arith)
