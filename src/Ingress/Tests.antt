-- ===== src/Ingress/Tests.antt =====
-- The ring of crates/svdc-ingress/src/ring.rs on a short run.
use svdc.Base.{ℕ, List, [], ◌∷◌, ◌≡◌, refl, ok}
use svdc.Ingress.{IngressFrame}
use svdc.Ingress.Ring
use svdc.Ingress.Ring.{IngressRing}
use svdc.Ingress.Ring.Fifo.{Op, push, pop, no_history, after_all, run, fresh, IsValid, run-fifo}

abbrev frame : ℕ → IngressFrame
frame ns = record { timestamp = record { unix_ns = ns }; samples = [] }

abbrev small : IngressRing
small = record { inner = []; capacity = 1 }

abbrev ops : List Op
ops = push (frame 1) ∷ push (frame 2) ∷ pop ∷ push (frame 3) ∷ []

new-small : Ring.new 1 ≡ ok small
unfolding Ring.new
new-small = refl

ops_popped : (run ops (fresh small)).history.popped ≡ frame 1 ∷ []
unfolding Ring.push Ring.pop
ops_popped = refl

-- the second push found the queue full
ops_refused : (run ops (fresh small)).history.refused ≡ frame 2 ∷ []
unfolding Ring.push Ring.pop
ops_refused = refl

run-fifo_example : IsValid 1 (after_all 1 ops no_history) (run ops (fresh small))
run-fifo_example = run-fifo 1 small ops new-small
