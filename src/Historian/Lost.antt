-- ===== src/Historian/Lost.antt =====
-- A failed write of the historian of crates/svdc-historian/src/lib.rs.
use svdc.Base.{
  ℕ, suc, ◌%◌, ◌^◌, ◌≤◌, ◌<◌, ◌≡◌, refl, sym, ap, ◌∙◌, Option, none, some, List, [], ◌∷◌, ◌++◌,
  length, take, ok, err, arith, append_assoc,
}
use svdc.Core.Tick.{TickRecord}
use svdc.Align.Buffer.{TickBuffer}
use svdc.Subscribe.{usize_max, read_since}
use svdc.Subscribe.Reread.{read_since-again}
use svdc.Historian.{or_stop, io, write_until, Writer, Historian, write, csv_row, write_rows, tick}
use svdc.Historian.Rows.{rows}

write_rows-stops :
    (whole : List TickRecord) (r : TickRecord) (rest : List TickRecord) (k : ℕ) (w : Writer)
    → ((i : ℕ) → i < length whole → w.stops i ≡ none)
    → w.stops (length whole) ≡ some k
    → ((write_rows (whole ++ (r ∷ rest)) w).0 ≡ err io)
      × ((write_rows (whole ++ (r ∷ rest)) w).1.bytes
          ≡ w.bytes ++ (rows whole ++ take k (csv_row r)))
unfolding write_rows write
write_rows-stops [] r rest k w before stop =
    let out : write (csv_row r) w ≡ write_until (csv_row r) (some k) w =
      ap (λ o. write_until (csv_row r) o w) stop in
    (
      ap (λ p. (or_stop p (λ w'. write_rows rest w')).0) out,
      ap (λ p. (or_stop p (λ w'. write_rows rest w')).1.bytes) out,
    )
write_rows-stops (x ∷ whole) r rest k w before stop =
    let out : write (csv_row x) w ≡ write_until (csv_row x) none w =
      ap (λ o. write_until (csv_row x) o w) (before 0 (omega arith)) in
    let next : Writer = record { bytes = w.bytes ++ csv_row x; stops = λ i. w.stops (suc i) } in
    let (o, bytes) =
      write_rows-stops whole r rest k next (λ i. λ lt. before (suc i) (omega (arith, lt))) stop in
    let later = λ (w' : Writer). write_rows (whole ++ (r ∷ rest)) w' in
    (
      ap (λ p. (or_stop p later).0) out ∙ o,
      ap (λ p. (or_stop p later).1.bytes) out
          ∙ bytes
          ∙ append_assoc w.bytes (csv_row x) (rows whole ++ take k (csv_row r))
          ∙ ap (λ bs. w.bytes ++ bs)
              (sym (append_assoc (csv_row x) (rows whole) (take k (csv_row r)))),
    )

-- When an error comes while `tick` writes the rows of the fresh ticks, after whole rows for the first of
-- them and after `k` bytes of the row of the next, it returns the error, those rows and bytes stay, and
-- none is counted. A second call on the same buffer succeeds and writes nothing, whatever the
-- writer does by then: the rest of that row and the rows of the ticks after it are lost.
pub tick-lost :
    (b : TickBuffer) (h : Historian) (whole : List TickRecord) (r : TickRecord)
    (rest : List TickRecord) (k : ℕ) (later : ℕ → Option ℕ)
    → length b.inner ≤ usize_max
    → (read_since h.subscription b).0 ≡ whole ++ (r ∷ rest)
    → ((i : ℕ) → i < length whole → h.writer.stops i ≡ none)
    → h.writer.stops (length whole) ≡ some k
    → let failed = tick b h in
      let bytes = h.writer.bytes ++ (rows whole ++ take k (csv_row r)) in
      let again = tick b (record failed.1 { writer = record { bytes = bytes; stops = later } }) in
      (failed.0 ≡ err io)
      × (failed.1.writer.bytes ≡ bytes)
      × (failed.1.rows_written ≡ h.rows_written)
      × (again.0 ≡ ok 0)
      × (again.1.writer.bytes ≡ bytes)
      × (again.1.rows_written ≡ h.rows_written % 2 ^ 64)
unfolding tick write_rows
tick-lost b h whole r rest k later small e before stop =
    let (o, bytes) = write_rows-stops whole r rest k h.writer before stop in
    let again = (read_since-again h.subscription b small).1 in
    rw (tick, e, o, again) (refl, bytes, refl, refl, refl, omega arith)
