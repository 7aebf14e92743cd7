-- ===== src/Audit/Tests.antt =====
-- The audit log of crates/svdc-console/src/audit/mod.rs on a short run.
use svdc.Base.{
  ℕ, ◌-◌, ◌==◌, ◌+◌, refl, false, true, Option, some, none, ok, err, List, [], ◌∷◌, ◌++◌, ◌≡◌,
  arith, length, newest,
}
use svdc.Audit.{AuditRecord, AuditLog, with_capacity, max_seq}
use svdc.Scd.Numbers.{trim}
use svdc.Audit.Journal.{
  JournalFile, Journal, split_lines, strip_cr, bad_line, parse_lines, configure_persistence,
}
use svdc.Audit.Restart.{IsLine, line_of, absent, fresh, record_lines, record_line-restart}
use svdc.Audit.Torn.{configure_persistence-torn}
use svdc.Audit.Sequence.{numbered}

abbrev file : List (AuditRecord ℕ)
file =
    record { timestamp_ms = 10; seq = 4; event = 0 }
    ∷ record { timestamp_ms = 20; seq = 5; event = 1 }
    ∷ []

abbrev events : List (ℕ × ℕ)
events = (30, 2) ∷ (40, 3) ∷ []

abbrev log : AuditLog ℕ
log = with_capacity 3

-- a line of five characters for each record, in the place of JSON
abbrev to_line : AuditRecord ℕ → Option (List ℕ)
to_line r =
    some (b'{' ∷ (r.seq + 0x4000) ∷ (r.timestamp_ms + 0x4000) ∷ (r.event + 0x4000) ∷ b'}' ∷ [])

abbrev of_line : List ℕ → Option (AuditRecord ℕ)
of_line (a ∷ s ∷ t ∷ e ∷ z ∷ []) =
    some (record { timestamp_ms = t - 0x4000; seq = s - 0x4000; event = e - 0x4000 })
of_line cs = none

shift_back : (n : ℕ) → n + 0x4000 - 0x4000 ≡ n
shift_back n = omega arith

not_newline : (n : ℕ) → (n + 0x4000 == 10) ≡ false
not_newline n = ground arith

to_line-IsLine : (r : AuditRecord ℕ) → IsLine to_line of_line r (to_line r)
unfolding strip_cr trim
to_line-IsLine r =
    line_of _
      (refl, (not_newline r.seq, (not_newline r.timestamp_ms, (not_newline r.event, (refl, tt)))))
      refl refl (rw (shift_back r.seq, shift_back r.timestamp_ms, shift_back r.event) refl)

abbrev no_file : JournalFile
no_file = record {
  content = none;
  readable = true;
  creatable = true;
  appendable = true;
  writable = true;
}

record_line-restart_example :
    let first = configure_persistence to_line of_line (fresh to_line of_line 3 no_file) in
    let left = (record_lines to_line of_line events first.1).file in
    let second = configure_persistence to_line of_line (fresh to_line of_line 3 left) in
    (first.0 ≡ ok (length {A = AuditRecord ℕ} []))
    × (second.0 ≡ ok (length {A = AuditRecord ℕ} [] + length events))
    × (second.1.log.ring ≡ newest 3 ([] ++ numbered (max_seq {E = ℕ} [] + 1) events))
    × (second.1.log.next_seq ≡ max_seq {E = ℕ} [] + 1 + length events)
record_line-restart_example =
    record_line-restart to_line of_line [] no_file events 3 3 to_line-IsLine absent (omega arith)

-- one whole line and the first two characters of another
abbrev whole_line : List ℕ
whole_line = b'{' ∷ 0x4001 ∷ 0x4005 ∷ 0x4007 ∷ b'}' ∷ 10 ∷ []

abbrev torn_journal : Journal ℕ
torn_journal =
    fresh to_line of_line 3 (record no_file { content = some (whole_line ++ (b'{' ∷ 0x4002 ∷ [])) })

abbrev record_one : AuditRecord ℕ
record_one = record { timestamp_ms = 5; seq = 1; event = 7 }

whole-record_one : parse_lines to_line of_line 0 (split_lines whole_line) ≡ ok (record_one ∷ [])
unfolding parse_lines split_lines
whole-record_one = refl

configure_persistence-torn_example :
    configure_persistence to_line of_line torn_journal
    ≡ (err (bad_line (length (split_lines whole_line) + 1)), torn_journal)
unfolding trim strip_cr
configure_persistence-torn_example =
    configure_persistence-torn to_line of_line torn_journal whole_line (b'{' ∷ 0x4002 ∷ [])
      (record_one ∷ []) refl refl refl whole-record_one (refl, (refl, tt)) refl refl
