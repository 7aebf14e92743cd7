-- ===== src/Audit.antt =====
-- `AuditLog` of crates/svdc-console/src/audit/mod.rs: the bounded ring of records with their sequence
-- numbers, for events of any type. The clock is an argument; the file that `replay_from_file` reads is
-- the list of records that its lines parse to, and the line that `record` appends is outside.
mod Tests
pub mod Sequence
pub mod Event
pub mod Newest
pub mod Journal
pub mod Restart
pub mod Torn
use svdc.Base.{
  ℕ, ◌+◌, ◌%◌, ◌^◌, ltb, if◌then◌else◌, max, List, [], ◌∷◌, ◌++◌, length, take, reverse,
}

pub record AuditRecord (E : Type 0) : Type 0 where
  pub timestamp_ms : ℕ
  pub seq : ℕ
  pub event : E

pub record AuditLog (E : Type 0) : Type 0 where
  pub ring : List (AuditRecord E)
  pub next_seq : ℕ
  pub capacity : ℕ

module _ {E : Type 0} where
  abbrev pub with_capacity : ℕ → AuditLog E
  with_capacity capacity = record { ring = []; next_seq = 1; capacity = capacity }

  -- `while g.ring.len() > self.capacity { g.ring.pop_front(); }`
  unfoldable pub trim : ℕ → List (AuditRecord E) → List (AuditRecord E)
  trim capacity [] = []
  trim capacity (r ∷ ring) =
      let rest = trim capacity ring in if ltb capacity (length (r ∷ ring)) then rest else r ∷ ring

  unfoldable pub record_event : ℕ → E → AuditLog E → AuditLog E
  unfolding trim
  record_event now_ms event log =
      let rec : AuditRecord E = record {
        timestamp_ms = now_ms;
        seq = log.next_seq;
        event = event;
      } in
      record log {
        ring = trim log.capacity (log.ring ++ (rec ∷ []));
        next_seq = (log.next_seq + 1) % 2 ^ 64;
      }

  -- `records.iter().map(|r| r.seq).max().unwrap_or(0)`
  abbrev pub max_seq : List (AuditRecord E) → ℕ
  max_seq [] = 0
  max_seq (r ∷ records) = max r.seq (max_seq records)

  -- the new log, with the number of records read
  unfoldable pub replay : List (AuditRecord E) → AuditLog E → ℕ × AuditLog E
  replay records log = (
    length records,
    record log {
      ring = reverse (take log.capacity (reverse records));
      next_seq = (max_seq records + 1) % 2 ^ 64;
    },
  )

  unfoldable pub recent : AuditLog E → ℕ → List (AuditRecord E)
  recent log n = take n (reverse log.ring)

  abbrev pub clear : AuditLog E → AuditLog E
  clear log = record log { ring = [] }
