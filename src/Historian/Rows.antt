-- ===== src/Historian/Rows.antt =====
-- The file of crates/svdc-historian/src/lib.rs over a subscription that loses nothing.
use svdc.Base.{
  ℕ, ◌+◌, ◌%◌, ◌^◌, ◌≤◌, ◌≡◌, refl, sym, ap, ◌∙◌, none, List, [], ◌∷◌, ◌++◌, length, append_assoc,
  append-nil, All, ok, arith, length-append, ok-injective,
}
use svdc.Core.Tick.{TickRecord}
use svdc.Align.Buffer
use svdc.Align.Buffer.{TickBuffer}
use svdc.Align.Buffer.Window.{push_all}
use svdc.Subscribe.{ChannelSet, Subscription, subscribe, usize_max, read_since}
use svdc.Subscribe.Delivery.{rounds, concat, read_since-gap_free}
use svdc.Subscribe.Sorted.{Ascends}
use svdc.Historian.{Writer, Historian, write, csv_header, csv_row, new, write_rows, tick, working}

abbrev pub rows : List TickRecord → List ℕ
rows [] = []
rows (r ∷ fresh) = csv_row r ++ rows fresh

rows-append : (xs ys : List TickRecord) → rows (xs ++ ys) ≡ rows xs ++ rows ys
rows-append [] ys = refl
rows-append (x ∷ xs) ys =
    ap (λ bs. csv_row x ++ bs) (rows-append xs ys)
    ∙ sym (append_assoc (csv_row x) (rows xs) (rows ys))

-- a working writer after a text
abbrev wrote : List ℕ → List ℕ → Writer
wrote old text = record { bytes = old ++ text; stops = working }

write_rows-working :
    (fresh : List TickRecord) (old : List ℕ)
    → write_rows fresh (record { bytes = old; stops = working }) ≡ (ok tt, wrote old (rows fresh))
unfolding write_rows
write_rows-working [] old =
    ap (λ bs. (ok tt, record { bytes = bs; stops = working })) (sym (append-nil old))
write_rows-working (r ∷ fresh) old =
    write_rows-working fresh (old ++ csv_row r)
    ∙ ap (λ bs. (ok tt, record { bytes = bs; stops = working }))
        (append_assoc old (csv_row r) (rows fresh))

-- batches of ticks pushed to the buffer, with a tick of the historian after each
unfoldable pub record_all : Historian → TickBuffer → List (List TickRecord) → Historian
unfolding tick
record_all h b [] = h
record_all h b (batch ∷ batches) =
    let filled = push_all b batch in record_all (tick filled h).1 filled batches

abbrev on_file : List ℕ → Subscription → ℕ → Historian
on_file old s n = record {
  writer = record { bytes = old; stops = working };
  subscription = s;
  rows_written = n;
}

tick-working :
    (old : List ℕ) (s : Subscription) (n : ℕ) (b : TickBuffer)
    → (tick b (on_file old s n)).1
      ≡ on_file
          (old ++ rows (read_since s b).0)
          (read_since s b).1
          ((n + length (read_since s b).0) % 2 ^ 64)
unfolding tick
tick-working old s n b = rw (write_rows-working (read_since s b).0 old) refl

record_all-working :
    (batches : List (List TickRecord)) (old : List ℕ) (s : Subscription) (n : ℕ) (b : TickBuffer)
    → ((record_all (on_file old s n) b batches).writer
        ≡ wrote old (rows (concat (rounds s b batches))))
      × ((record_all (on_file old s n) b batches).rows_written % 2 ^ 64
          ≡ (n + length (concat (rounds s b batches))) % 2 ^ 64)
unfolding record_all
record_all-working [] old s n b =
    (ap (λ bs. record { bytes = bs; stops = working }) (sym (append-nil old)), omega arith)
record_all-working (batch ∷ batches) old s n b =
    let filled = push_all b batch in
    let fresh = (read_since s filled).0 in
    let next = (read_since s filled).1 in
    let later = concat (rounds next filled batches) in
    let (w, k) =
      record_all-working batches (old ++ rows fresh) next ((n + length fresh) % 2 ^ 64) filled in
    let step = ap (λ h. record_all h filled batches) (tick-working old s n filled) in
    (
      ap (λ (h : Historian). h.writer) step
          ∙ w
          ∙ ap (λ bs. record { bytes = bs; stops = working })
              (append_assoc old (rows fresh) (rows later)
                ∙ ap (λ bs. old ++ bs) (sym (rows-append fresh later))),
      ap (λ (h : Historian). h.rows_written % 2 ^ 64) step
          ∙ k
          ∙ omega (arith, length-append fresh later),
    )

-- A historian on a new file, over a new buffer whose ticks come with strictly increasing ids in batches
-- that fit it, with a working writer and a call of `tick` after each batch: the file is the header and
-- then one row for each tick, in order, and the count of the rows agrees modulo 2 ^ 64.
pub record_all-gap_free :
    (channels : ChannelSet) (capacity : ℕ) (b : TickBuffer) (batches : List (List TickRecord))
    (h : Historian)
    → capacity ≤ usize_max
    → Buffer.new capacity ≡ ok b
    → All (λ batch. length batch ≤ capacity) batches
    → Ascends 0 (concat batches)
    → new none (subscribe channels) working ≡ ok h
    → ((record_all h b batches).writer.bytes ≡ csv_header ++ rows (concat batches))
      × ((record_all h b batches).rows_written % 2 ^ 64 ≡ length (concat batches) % 2 ^ 64)
unfolding new write
record_all-gap_free channels capacity b batches h small made fits a opened =
    let e : on_file csv_header (subscribe channels) 0 ≡ h = ok-injective _ _ opened in
    let g = read_since-gap_free channels capacity b batches small made fits a in
    let (w, k) = record_all-working batches csv_header (subscribe channels) 0 b in
    rw (← e) (
      ap (λ (x : Writer). x.bytes) w ∙ ap (λ bss. csv_header ++ rows (concat bss)) g,
      k ∙ ap (λ bss. (0 + length (concat bss)) % 2 ^ 64) g ∙ omega arith,
    )
