-- ===== src/Align/Buffer.antt =====
-- crates/svdc-aligner/src/buffer.rs: the bounded buffer of ticks, which drops the oldest. A method
-- that takes the lock is one atomic step, which returns its value and the new buffer.
pub mod Window
pub mod Sweep
use svdc.Base.{
  ℕ, leb, ltb, ◌==◌, if◌then◌else◌, Bool, true, false, Option, none, some, List, [], ◌∷◌, ◌++◌,
  length, take, reverse, Outcome, ok, err, panic, assert,
}
use svdc.Core.Tick
use svdc.Core.Tick.{TickRecord, IntegrityViolation}

pub record TickBuffer : Type 0 where
  pub inner : List TickRecord
  pub capacity : ℕ

pub data PushOutcome : Type 0 where
  appended dropped_oldest : PushOutcome

unfoldable pub new : ℕ → Outcome ⊥ TickBuffer
new capacity = assert (ltb 0 capacity) (record { inner = []; capacity = capacity })

unfoldable pub pop_front : List TickRecord → Option TickRecord × List TickRecord
pop_front [] = (none, [])
pop_front (tick ∷ rest) = (some tick, rest)

-- the drop, then the append
unfoldable pub push : TickBuffer → TickRecord → PushOutcome × TickBuffer
unfolding pop_front
push buffer tick =
    let dropped = leb buffer.capacity (length buffer.inner) in
    let inner = if dropped then (pop_front buffer.inner).1 else buffer.inner in
    (if dropped then dropped_oldest else appended, record buffer { inner = inner ++ (tick ∷ []) })

unfoldable pub pop : TickBuffer → Option TickRecord × TickBuffer
unfolding pop_front
pop buffer = let (tick, rest) = pop_front buffer.inner in (tick, record buffer { inner = rest })

unfoldable pub recent : TickBuffer → ℕ → List TickRecord
recent buffer n = take n (reverse buffer.inner)

abbrev pub len : TickBuffer → ℕ
len buffer = length buffer.inner

abbrev pub is_empty : TickBuffer → Bool
is_empty buffer = len buffer == 0

-- `filter_map(|r| r.verify_crc().err())`
unfoldable pub keep_err :
    Outcome IntegrityViolation (Unit {0}) → List IntegrityViolation → List IntegrityViolation
keep_err (ok _) rest = rest
keep_err (err v) rest = v ∷ rest
keep_err panic rest = rest

unfoldable pub violations : List TickRecord → List IntegrityViolation
unfolding keep_err Tick.verify_crc
violations [] = []
violations (r ∷ rest) = keep_err (Tick.verify_crc r) (violations rest)

unfoldable pub verify_all : TickBuffer → List IntegrityViolation
unfolding violations
verify_all buffer = violations buffer.inner
