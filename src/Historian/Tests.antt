-- ===== src/Historian/Tests.antt =====
-- The historian on three ticks.
use svdc.Base.{
  zero, suc, ◌<◌, Option, some, take, ℕ, ◌%◌, ◌^◌, ◌++◌, List, [], ◌∷◌, ◌≡◌, refl, none, ok, err,
  arith, length,
}
use svdc.Base.Texts.{codes}
use svdc.Core.Tick
use svdc.Core.Tick.{TickRecord}
use svdc.Align.Buffer
use svdc.Align.Buffer.{TickBuffer}
use svdc.Subscribe.{all, subscribe, read_since}
use svdc.Subscribe.Delivery.{concat}
use svdc.Historian.{io, Historian, new, csv_header, csv_row, working, tick, hex16, signed}
use svdc.Historian.Rows.{rows, record_all, record_all-gap_free}
use svdc.Historian.Lost.{tick-lost}

minus_one : signed 0xFFFF_FFFF ≡ codes "-1"
unfolding signed
minus_one = refl

flag_word : hex16 0x2A ≡ codes "0x002A"
unfolding hex16
flag_word = refl

abbrev tick_of : ℕ → TickRecord
tick_of id = Tick.empty id 0

abbrev pair : TickBuffer
pair = record { inner = []; capacity = 2 }

new-pair : Buffer.new 2 ≡ ok pair
unfolding Buffer.new
new-pair = refl

abbrev batches : List (List TickRecord)
batches = (tick_of 0 ∷ tick_of 1 ∷ []) ∷ [] ∷ (tick_of 5 ∷ []) ∷ []

abbrev opened : Historian
opened = record {
  writer = record { bytes = csv_header; stops = working };
  subscription = subscribe all;
  rows_written = 0;
}

new-opened : new none (subscribe all) working ≡ ok opened
unfolding new
new-opened = refl

record_all-gap_free_example :
    ((record_all opened pair batches).writer.bytes ≡ csv_header ++ rows (concat batches))
    × ((record_all opened pair batches).rows_written % 2 ^ 64 ≡ length (concat batches) % 2 ^ 64)
record_all-gap_free_example =
    record_all-gap_free all 2 pair batches opened (omega arith) new-pair (omega arith) (omega arith)
      new-opened

abbrev held : TickBuffer
held = record { inner = tick_of 0 ∷ tick_of 1 ∷ tick_of 2 ∷ []; capacity = 4 }

fresh-held : (read_since (subscribe all) held).0 ≡ (tick_of 0 ∷ []) ++ (tick_of 1 ∷ tick_of 2 ∷ [])
unfolding read_since
fresh-held = refl

-- the first row is whole, and the second stops after three bytes
abbrev torn : ℕ → Option ℕ
torn zero = none
torn (suc i) = some 3

abbrev on_torn : Historian
on_torn = record {
  writer = record { bytes = []; stops = torn };
  subscription = subscribe all;
  rows_written = 0;
}

torn-first : (i : ℕ) → i < 1 → torn i ≡ none
torn-first zero lt = refl
torn-first (suc i) lt = absurd (omega (arith, lt))

-- what the torn row leaves
torn_row : take 3 (csv_row (tick_of 1)) ≡ codes "1,0"
unfolding csv_row
torn_row = refl

tick-lost_example :
    let failed = tick held on_torn in
    let bytes = [] ++ (rows (tick_of 0 ∷ []) ++ take 3 (csv_row (tick_of 1))) in
    let again =
      tick held (record failed.1 { writer = record { bytes = bytes; stops = working } }) in
    (failed.0 ≡ err io)
    × (failed.1.writer.bytes ≡ bytes)
    × (failed.1.rows_written ≡ 0)
    × (again.0 ≡ ok 0)
    × (again.1.writer.bytes ≡ bytes)
    × (again.1.rows_written ≡ 0 % 2 ^ 64)
tick-lost_example =
    tick-lost held on_torn (tick_of 0 ∷ []) (tick_of 1) (tick_of 2 ∷ []) 3 working (omega arith)
      fresh-held torn-first refl
