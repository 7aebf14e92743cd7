-- ===== src/Historian.antt =====
-- The CSV historian of crates/svdc-historian/src/lib.rs. The buffered file is the bytes that it has taken,
-- on the file or still in the buffer, with where each later text stops; its directory and the flush are
-- outside.
pub mod Rows
pub mod Lost
mod Tests
use svdc.Base.{
  ℕ, zero, suc, ◌+◌, ◌-◌, ◌/◌, ◌%◌, ◌^◌, ltb, if◌then◌else◌, Bool, true, false, Option, none, some,
  List, [], ◌∷◌, ◌++◌, length, take, Outcome, ok, err, panic,
}
use svdc.Base.Texts.{codes, decimal}
use svdc.Core.Tick.{TickRecord, Sample, max_channels}
use svdc.Align.Buffer.{TickBuffer}
use svdc.Subscribe.{Subscription, read_since}

pub data HistorianError : Type 0 where
  io : HistorianError

-- Whether the i-th text from here on is taken whole: if not, an error comes after that many of its bytes.
-- The `write!`s of a row go to the buffer piece by piece and the first error ends the row, so that the
-- pieces before it stay.
pub record Writer : Type 0 where
  pub bytes : List ℕ
  pub stops : ℕ → Option ℕ

-- a writer that never fails
abbrev pub working : ℕ → Option ℕ
working i = none

pub record Historian : Type 0 where
  pub writer : Writer
  pub subscription : Subscription
  pub rows_written : ℕ

abbrev pub write_until : List ℕ → Option ℕ → Writer → Outcome HistorianError (Unit {0}) × Writer
write_until text none w = (ok tt, record { bytes = w.bytes ++ text; stops = λ i. w.stops (suc i) })
write_until text (some k) w =
    (err io, record { bytes = w.bytes ++ take k text; stops = λ i. w.stops (suc i) })

-- the `write!`s of a row or of the header, all of them or up to an error
unfoldable pub write : List ℕ → Writer → Outcome HistorianError (Unit {0}) × Writer
write text w = write_until text (w.stops 0) w

abbrev hex_digit : ℕ → ℕ
hex_digit d = if ltb d 10 then 48 + d else 55 + d

-- `0x{:04X}` of a `u16`
unfoldable pub hex16 : ℕ → List ℕ
hex16 n =
    b'0'
    ∷ b'x'
    ∷ hex_digit (n / 4096 % 16)
    ∷ hex_digit (n / 256 % 16)
    ∷ hex_digit (n / 16 % 16)
    ∷ hex_digit (n % 16)
    ∷ []

-- `{}` of an `i32`
unfoldable pub signed : ℕ → List ℕ
unfolding decimal
signed v = if ltb v (2 ^ 31) then decimal v else b'-' ∷ decimal (2 ^ 32 - v)

-- the columns of the channels from index `i` on
unfoldable pub header_from : ℕ → ℕ → List ℕ
unfolding decimal
header_from zero i = []
header_from (suc n) i =
    codes ",ch"
    ++ (decimal i
        ++ (codes "_value,ch"
            ++ (decimal i
                ++ (codes "_quality,ch"
                    ++ (decimal i ++ (codes "_origin" ++ header_from n (i + 1)))))))

unfoldable pub csv_header : List ℕ
unfolding header_from
csv_header =
    codes "tick_id,ts_utc_ns,n_channels,flags_hex" ++ (header_from max_channels 0 ++ (10 ∷ []))

unfoldable pub sample_fields : List Sample → List ℕ
unfolding signed decimal
sample_fields [] = []
sample_fields (s ∷ samples) =
    b','
    ∷ (signed s.value_q
        ++ (b',' ∷ (decimal s.quality ++ (b',' ∷ (decimal s.origin ++ sample_fields samples)))))

unfoldable pub csv_row : TickRecord → List ℕ
unfolding hex16 sample_fields decimal
csv_row r =
    decimal r.tick_id
    ++ (b','
        ∷ (decimal r.ts_utc_ns
            ++ (b','
                ∷ (decimal r.n_channels
                    ++ (b',' ∷ (hex16 r.flags ++ (sample_fields r.samples ++ (10 ∷ []))))))))

-- a historian on a file, by what the file held before
unfoldable pub new :
    Option (List ℕ) → Subscription → (ℕ → Option ℕ) → Outcome HistorianError Historian
unfolding write csv_header
new (some old) subscription stops = ok (record {
  writer = record { bytes = old; stops = stops };
  subscription = subscription;
  rows_written = 0;
})
new none subscription stops =
    let (r, w) = write csv_header (record { bytes = []; stops = stops }) in
    elim r [
      | ok u ↦ ok (record { writer = w; subscription = subscription; rows_written = 0 })
      | err e ↦ err e
      | panic ↦ panic
    ]

-- `?` after a write
abbrev pub or_stop :
    Outcome HistorianError (Unit {0}) × Writer
    → (Writer → Outcome HistorianError (Unit {0}) × Writer)
    → Outcome HistorianError (Unit {0}) × Writer
or_stop (ok u, w) next = next w
or_stop (err e, w) next = (err e, w)
or_stop (panic, w) next = (panic, w)

-- the loop over the fresh records, which an error ends
unfoldable pub write_rows : List TickRecord → Writer → Outcome HistorianError (Unit {0}) × Writer
unfolding write csv_row
write_rows [] w = (ok tt, w)
write_rows (r ∷ fresh) w = or_stop (write (csv_row r) w) (λ w'. write_rows fresh w')

abbrev count_rows :
    List TickRecord
    → Outcome HistorianError (Unit {0})
    → Historian
    → Outcome HistorianError ℕ × Historian
count_rows fresh (ok u) h =
    (ok (length fresh), record h { rows_written = (h.rows_written + length fresh) % 2 ^ 64 })
count_rows fresh (err e) h = (err e, h)
count_rows fresh panic h = (panic, h)

unfoldable pub tick : TickBuffer → Historian → Outcome HistorianError ℕ × Historian
unfolding write_rows
tick buffer h =
    let (fresh, subscription) = read_since h.subscription buffer in
    let (o, writer) = write_rows fresh h.writer in
    count_rows fresh o (record h { subscription = subscription; writer = writer })
