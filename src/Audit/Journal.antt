-- ===== src/Audit/Journal.antt =====
-- The file of `AuditLog` in crates/svdc-console/src/audit/mod.rs: `configure_persistence`, `replay_from_file`
-- and `persist_line` over the one file that the daemon gives it. JSON is two functions, from a record to
-- its line and back; the file is its characters, with flags that make an operation on it fail.
use svdc.Base.{
  ℕ, ◌+◌, ◌==◌, if◌then◌else◌, Bool, true, false, Option, none, some, List, [], ◌∷◌, ◌++◌, Outcome,
  ok, err, panic, ◌>>=◌,
}
use svdc.Scd.Numbers.{trim}
use svdc.Audit.{AuditRecord, AuditLog, record_event, replay}

pub data PersistError : Type 0 where
  io : PersistError
  bad_line : (line : ℕ) → PersistError

-- the file, or nothing; whether it opens and reads as text, whether it can be made or opened for appending,
-- and whether a line can be written, in whole
pub record JournalFile : Type 0 where
  pub content : Option (List ℕ)
  pub readable : Bool
  pub creatable : Bool
  pub appendable : Bool
  pub writable : Bool

-- the log with its file, and whether it has a writer
pub record Journal (E : Type 0) : Type 0 where
  pub log : AuditLog E
  pub writer : Bool
  pub file : JournalFile

abbrev pub newline : ℕ
newline = 10

-- a character before the first of the lines
abbrev pub push_front : ℕ → List (List ℕ) → List (List ℕ)
push_front c [] = (c ∷ []) ∷ []
push_front c (line ∷ lines) = (c ∷ line) ∷ lines

-- the pieces between newlines, without an empty one at the end
unfoldable pub split_lines : List ℕ → List (List ℕ)
split_lines [] = []
split_lines (c ∷ cs) =
    let rest = split_lines cs in if c == newline then [] ∷ rest else push_front c rest

-- a carriage return at the end of a line is taken off
unfoldable pub strip_cr : List ℕ → List ℕ
strip_cr [] = []
strip_cr (c ∷ []) = if c == 13 then [] else c ∷ []
strip_cr (c ∷ d ∷ cs) = c ∷ strip_cr (d ∷ cs)

abbrev pub is_blank : List ℕ → Bool
is_blank [] = true
is_blank (c ∷ cs) = false

abbrev pub text_or_empty : Option (List ℕ) → List ℕ
text_or_empty none = []
text_or_empty (some text) = text

module _ {E : Type 0} (to_string : AuditRecord E → Option (List ℕ))
    (from_str : List ℕ → Option (AuditRecord E)) where
  abbrev pub or_bad_line : ℕ → Option (AuditRecord E) → Outcome PersistError (AuditRecord E)
  or_bad_line line none = err (bad_line line)
  or_bad_line line (some rec) = ok rec

  -- the records of the lines from index `idx` on; blank lines are skipped
  unfoldable pub parse_lines : ℕ → List (List ℕ) → Outcome PersistError (List (AuditRecord E))
  unfolding trim strip_cr
  parse_lines idx [] = ok []
  parse_lines idx (line ∷ lines) =
      let rest = parse_lines (idx + 1) lines in
      let trimmed = trim (strip_cr line) in
      if is_blank trimmed
      then rest
      else (do rec ← or_bad_line (idx + 1) (from_str trimmed); recs ← rest; ok (rec ∷ recs))

  -- the log after the records, with their number
  abbrev pub replayed :
      AuditLog E → Outcome PersistError (List (AuditRecord E)) → Outcome PersistError ℕ × AuditLog E
  replayed log (err e) = (err e, log)
  replayed log panic = (panic, log)
  replayed log (ok recs) = (ok (replay recs log).0, (replay recs log).1)

  unfoldable pub replay_from_file : Bool → List ℕ → AuditLog E → Outcome PersistError ℕ × AuditLog E
  unfolding parse_lines split_lines replay
  replay_from_file readable text log =
      if readable then replayed log (parse_lines 0 (split_lines text)) else (err io, log)

  -- what is loaded before the file is opened for appending
  unfoldable pub load : JournalFile → AuditLog E → Outcome PersistError ℕ × AuditLog E
  unfolding replay_from_file
  load file log = elim file.content [
    | some text ↦ replay_from_file file.readable text log
    | none ↦ if file.creatable then (ok 0, log) else (err io, log)
  ]

  abbrev pub open_append : ℕ → AuditLog E → Journal E → Outcome PersistError ℕ × Journal E
  open_append loaded log j =
      if j.file.appendable
      then (
        ok loaded,
        record {
          log = log;
          writer = true;
          file = record (j.file) { content = some (text_or_empty j.file.content) };
        },
      )
      else (err io, record j { log = log })

  -- the loaded log is kept when the open fails
  abbrev pub then_open :
      Outcome PersistError ℕ × AuditLog E → Journal E → Outcome PersistError ℕ × Journal E
  then_open (err e, log) j = (err e, record j { log = log })
  then_open (panic, log) j = (panic, record j { log = log })
  then_open (ok loaded, log) j = open_append loaded log j

  unfoldable pub configure_persistence : Journal E → Outcome PersistError ℕ × Journal E
  unfolding load
  configure_persistence j = then_open (load j.file j.log) j

  -- a failure is logged and swallowed
  abbrev pub write_line : Option (List ℕ) → JournalFile → JournalFile
  write_line none file = file
  write_line (some line) file =
      if file.writable
      then record file { content = some (text_or_empty file.content ++ (line ++ (newline ∷ []))) }
      else file

  unfoldable pub persist_line : AuditRecord E → Bool → JournalFile → JournalFile
  persist_line rec writer file = if writer then write_line (to_string rec) file else file

  -- `AuditLog::record`
  unfoldable pub record_line : ℕ → E → Journal E → Journal E
  unfolding record_event persist_line
  record_line now event j =
      let rec : AuditRecord E = record {
        timestamp_ms = now;
        seq = j.log.next_seq;
        event = event;
      } in
      record j { log = record_event now event j.log; file = persist_line rec j.writer j.file }
