-- ===== src/Audit/Restart.antt =====
-- What the file of crates/svdc-console/src/audit/mod.rs holds across a restart of the daemon.
use svdc.Base.{
  ℕ, zero, suc, max, take, ◌+◌, ◌%◌, ◌^◌, ◌<◌, ◌==◌, ◌≡◌, refl, sym, ap, subst, ◌∙◌, arith,
  if◌then◌else◌, Bool, true, false, Bool-cases, inl, inr, Option, none, some, List, [], ◌∷◌, ◌++◌,
  append_assoc, append-nil, length, length-append, newest, All, Outcome, ok, err, panic, ◌>>=◌,
  ok-injective, err-ne-ok, panic-ne-ok,
}
use svdc.Scd.Numbers.{trim}
use svdc.Audit.{AuditRecord, AuditLog, with_capacity, record_event, max_seq, replay}
use svdc.Audit.Sequence.{numbered, reverse-take-reverse}
use svdc.Audit.Journal.{
  PersistError, JournalFile, Journal, newline, push_front, split_lines, strip_cr, is_blank,
  parse_lines, or_bad_line, replay_from_file, load, configure_persistence, write_line, persist_line,
  record_line,
}

-- nothing, or a text that a newline ends
abbrev pub Terminated : List ℕ → Type 0
Terminated [] = Unit
Terminated (c ∷ []) = (c == newline) ≡ true
Terminated (c ∷ d ∷ cs) = Terminated (d ∷ cs)

append-Terminated : (xs : List ℕ) → Terminated (xs ++ (newline ∷ []))
append-Terminated [] = refl
append-Terminated (x ∷ []) = refl
append-Terminated (x ∷ y ∷ xs) = append-Terminated (y ∷ xs)

push_front-append :
    (b : Bool) (c d : ℕ) (ls rest : List (List ℕ))
    → push_front c ((if b then [] ∷ ls else push_front d ls) ++ rest)
      ≡ push_front c (if b then [] ∷ ls else push_front d ls) ++ rest
push_front-append true c d ls rest = refl
push_front-append false c d [] rest = refl
push_front-append false c d (l ∷ ls) rest = refl

pub split_lines-append :
    (text rest : List ℕ)
    → Terminated text
    → split_lines (text ++ rest) ≡ split_lines text ++ split_lines rest
unfolding split_lines
split_lines-append [] rest t = refl
split_lines-append (c ∷ []) rest t = rw t refl
split_lines-append (c ∷ d ∷ cs) rest t =
    let later = split_lines-append (d ∷ cs) rest t in
    elim (Bool-cases (c == newline)) [
      | inl e ↦ rw (e, later) refl
      | inr e ↦
          rw (e, later) (push_front-append (d == newline) c d (split_lines cs) (split_lines rest))
    ]

split_lines-line :
    (line : List ℕ)
    → All (λ c. (c == newline) ≡ false) line
    → split_lines (line ++ (newline ∷ [])) ≡ line ∷ []
unfolding split_lines
split_lines-line [] a = refl
split_lines-line (c ∷ line) (e, a) = rw (e, split_lines-line line a) refl

module _ {E : Type 0} (to_string : AuditRecord E → Option (List ℕ))
    (from_str : List ℕ → Option (AuditRecord E)) where
  -- the line of a record: one line with no blank around it, which reads back
  pub data IsLine (r : AuditRecord E) : Option (List ℕ) → Type 0 where
    line_of :
        (line : List ℕ)
        → All (λ c. (c == newline) ≡ false) line
        → strip_cr line ≡ line
        → is_blank (trim line) ≡ false
        → from_str (trim line) ≡ some r
        → IsLine r (some line)

  -- one line parsed in front of the others
  abbrev joined :
      Bool
      → Outcome PersistError (AuditRecord E)
      → Outcome PersistError (List (AuditRecord E))
      → Outcome PersistError (List (AuditRecord E))
  joined blank o rest = if blank then rest else (do rec ← o; recs ← rest; ok (rec ∷ recs))

  joined-append :
      (blank : Bool) (o : Outcome PersistError (AuditRecord E))
      (rest rest' : Outcome PersistError (List (AuditRecord E))) (rs ss : List (AuditRecord E))
      → ((qs : List (AuditRecord E)) → rest ≡ ok qs → rest' ≡ ok (qs ++ ss))
      → joined blank o rest ≡ ok rs
      → joined blank o rest' ≡ ok (rs ++ ss)
  joined-append true o rest rest' rs ss k h = k rs h
  joined-append false (ok rec) (ok qs) rest' rs ss k h =
      ap (λ x. joined false (ok rec) x) (k qs refl)
      ∙ ap (λ xs. ok (xs ++ ss)) (ok-injective (rec ∷ qs) rs h)
  joined-append false (ok rec) (err e) rest' rs ss k h = absurd (err-ne-ok e rs h)
  joined-append false (ok rec) panic rest' rs ss k h = absurd (panic-ne-ok rs h)
  joined-append false (err e) rest rest' rs ss k h = absurd (err-ne-ok e rs h)
  joined-append false panic rest rest' rs ss k h = absurd (panic-ne-ok rs h)

  parse_lines-append :
      (xs ys : List (List ℕ)) (idx : ℕ) (rs ss : List (AuditRecord E))
      → ((k : ℕ) → parse_lines to_string from_str k ys ≡ ok ss)
      → parse_lines to_string from_str idx xs ≡ ok rs
      → parse_lines to_string from_str idx (xs ++ ys) ≡ ok (rs ++ ss)
  unfolding parse_lines
  parse_lines-append [] ys idx rs ss h p = h idx ∙ ap (λ qs. ok (qs ++ ss)) (ok-injective [] rs p)
  parse_lines-append (x ∷ xs) ys idx rs ss h p =
      joined-append (is_blank (trim (strip_cr x)))
        (or_bad_line to_string from_str (idx + 1) (from_str (trim (strip_cr x)))) _ _ rs ss
        (λ qs e. parse_lines-append xs ys (idx + 1) qs ss h e) p

  parse_lines-line :
      (r : AuditRecord E) (line : List ℕ) (k : ℕ)
      → strip_cr line ≡ line
      → is_blank (trim line) ≡ false
      → from_str (trim line) ≡ some r
      → parse_lines to_string from_str k (line ∷ []) ≡ ok (r ∷ [])
  unfolding parse_lines
  parse_lines-line r line k c b f = rw (c, b, f) refl

  -- a file that can be read and written, and holds the lines of the records
  pub record Holds (recs : List (AuditRecord E)) (file : JournalFile) : Type 0 where
    text : List ℕ
    content : file.content ≡ some text
    ends : Terminated text
    parsed : parse_lines to_string from_str 0 (split_lines text) ≡ ok recs
    readable : file.readable ≡ true
    appendable : file.appendable ≡ true
    writable : file.writable ≡ true

  write_line-Holds :
      (r : AuditRecord E) (o : Option (List ℕ)) (recs : List (AuditRecord E)) (file : JournalFile)
      → IsLine r o
      → Holds recs file
      → Holds (recs ++ (r ∷ [])) (write_line to_string from_str o file)
  write_line-Holds r _ recs file (line_of line plain cr blank reads) h =
      let text = h.text in
      let content = h.content in
      let writable = h.writable in
      rw (writable, content)
        (record {
          text = text ++ (line ++ (newline ∷ []));
          content = refl;
          ends =
              subst Terminated (append_assoc text line (newline ∷ []))
                (append-Terminated (text ++ line));
          parsed =
              ap (parse_lines to_string from_str 0) (
                split_lines-append text (line ++ (newline ∷ [])) h.ends
                ∙ ap (λ ls. split_lines text ++ ls) (split_lines-line line plain))
              ∙ parse_lines-append (split_lines text) (line ∷ []) 0 recs (r ∷ [])
                  (λ k. parse_lines-line r line k cr blank reads) h.parsed;
          readable = h.readable;
          appendable = h.appendable;
          writable = refl;
        })

  -- the events recorded one after the other, each with its time
  abbrev pub record_lines : List (ℕ × E) → Journal E → Journal E
  record_lines [] j = j
  record_lines ((now, event) ∷ events) j =
      record_lines events (record_line to_string from_str now event j)

  record_lines-Holds :
      (events : List (ℕ × E)) (recs : List (AuditRecord E)) (j : Journal E)
      → ((r : AuditRecord E) → IsLine r (to_string r))
      → j.log.next_seq + length events < 2 ^ 64
      → j.writer ≡ true
      → Holds recs j.file
      → Holds (recs ++ numbered j.log.next_seq events) (record_lines events j).file
  unfolding record_line record_event persist_line
  record_lines-Holds [] recs j json bound w h = rw (append-nil recs) h
  record_lines-Holds ((now, event) ∷ events) recs j json bound w h =
      let seq = j.log.next_seq in
      let r : AuditRecord E = record { timestamp_ms = now; seq = seq; event = event } in
      let next = record_line to_string from_str now event j in
      let inside : (seq + 1) % 2 ^ 64 ≡ seq + 1 = omega arith in
      let file : Holds (recs ++ (r ∷ [])) next.file =
        rw w (write_line-Holds r (to_string r) recs j.file (json r) h) in
      let later = record_lines-Holds events (recs ++ (r ∷ [])) next json (omega arith) w file in
      subst (λ (rs : List (AuditRecord E)). Holds rs (record_lines events next).file)
        (ap (λ k. (recs ++ (r ∷ [])) ++ numbered k events) inside
          ∙ append_assoc recs (r ∷ []) (numbered (seq + 1) events))
        later

  -- what a process finds on a file that holds records
  configure-Holds :
      (recs : List (AuditRecord E)) (log : AuditLog E) (writer : Bool) (file : JournalFile)
      → Holds recs file
      → configure_persistence to_string from_str
          (record { log = log; writer = writer; file = file })
        ≡ (ok (length recs), record { log = (replay recs log).1; writer = true; file = file })
  unfolding configure_persistence load replay_from_file replay
  configure-Holds recs log writer file h =
      let content = h.content in
      let readable = h.readable in
      let parsed = h.parsed in
      let appendable = h.appendable in rw (content, readable, parsed, appendable) refl

  -- a log that has not been used, on a file
  abbrev pub fresh : ℕ → JournalFile → Journal E
  fresh capacity file = record { log = with_capacity capacity; writer = false; file = file }

  take-empty : (n : ℕ) → take {A = AuditRecord E} n [] ≡ []
  take-empty zero = refl
  take-empty (suc n) = refl

  -- the file before the first run: there with its records, or absent
  pub data IsStored : List (AuditRecord E) → JournalFile → Type 0 where
    there :
        (recs : List (AuditRecord E)) (file : JournalFile) → Holds recs file → IsStored recs file
    absent : IsStored [] (record {
      content = none;
      readable = true;
      creatable = true;
      appendable = true;
      writable = true;
    })

  -- the state after the first `configure_persistence`
  record Started (recs : List (AuditRecord E)) (capacity : ℕ) (file : JournalFile) : Type 0 where
    made : JournalFile
    holds : Holds recs made
    state : configure_persistence to_string from_str (fresh capacity file) ≡ (
      ok (length recs),
      record { log = (replay recs (with_capacity capacity)).1; writer = true; file = made },
    )

  IsStored-Started :
      (recs : List (AuditRecord E)) (capacity : ℕ) (file : JournalFile)
      → IsStored recs file
      → Started recs capacity file
  unfolding configure_persistence load replay
  IsStored-Started _ capacity _ (there recs file h) = record {
    made = file;
    holds = h;
    state = configure-Holds recs (with_capacity capacity) false file h;
  }
  IsStored-Started _ capacity _ absent =
      unfold parse_lines split_lines in
      record {
        made = record {
          content = some [];
          readable = true;
          creatable = true;
          appendable = true;
          writable = true;
        };
        holds = record {
          text = [];
          content = refl;
          ends = tt;
          parsed = refl;
          readable = refl;
          appendable = refl;
          writable = refl;
        };
        state = rw (take-empty capacity) refl;
      }

  max_seq-append :
      (xs : List (AuditRecord E)) (r : AuditRecord E)
      → max_seq (xs ++ (r ∷ [])) ≡ max (max_seq xs) r.seq
  max_seq-append [] r = omega arith
  max_seq-append (x ∷ xs) r = let e = max_seq-append xs r in omega (arith, e)

  max_seq-numbered :
      (events : List (ℕ × E)) (recs : List (AuditRecord E)) (m : ℕ)
      → max_seq recs ≡ m
      → max_seq (recs ++ numbered (m + 1) events) ≡ m + length events
  max_seq-numbered [] recs m e = rw (append-nil recs) (omega (arith, e))
  max_seq-numbered ((now, event) ∷ events) recs m e =
      let r : AuditRecord E = record { timestamp_ms = now; seq = m + 1; event = event } in
      let top : max_seq (recs ++ (r ∷ [])) ≡ m + 1 = max_seq-append recs r ∙ omega (arith, e) in
      ap max_seq (sym (append_assoc recs (r ∷ []) (numbered (m + 1 + 1) events)))
      ∙ max_seq-numbered events (recs ++ (r ∷ [])) (m + 1) top
      ∙ omega arith

  length-numbered : (events : List (ℕ × E)) (k : ℕ) → length (numbered k events) ≡ length events
  length-numbered [] k = refl
  length-numbered ((now, event) ∷ events) k =
      let e = length-numbered events (k + 1) in omega (arith, e)

  -- A daemon that starts on a file of records, or on none, and records events, with a file that takes every
  -- line and JSON that writes a record on one line and reads it back: a second daemon on the file that is
  -- left loads every record, old and new. Its ring has the newest of them in order, as many as its capacity,
  -- and its next number is the one after them all, while the numbers stay below 2 ^ 64.
  pub record_line-restart :
      (recs : List (AuditRecord E)) (file : JournalFile) (events : List (ℕ × E))
      (capacity capacity' : ℕ)
      → ((r : AuditRecord E) → IsLine r (to_string r))
      → IsStored recs file
      → max_seq recs + 1 + length events < 2 ^ 64
      → let first = configure_persistence to_string from_str (fresh capacity file) in
        let left = (record_lines events first.1).file in
        let second = configure_persistence to_string from_str (fresh capacity' left) in
        (first.0 ≡ ok (length recs))
        × (second.0 ≡ ok (length recs + length events))
        × (second.1.log.ring ≡ newest capacity' (recs ++ numbered (max_seq recs + 1) events))
        × (second.1.log.next_seq ≡ max_seq recs + 1 + length events)
  unfolding replay
  record_line-restart recs file events capacity capacity' json stored bound =
      let begun = IsStored-Started recs capacity file stored in
      let state = begun.state in
      let inside : (max_seq recs + 1) % 2 ^ 64 ≡ max_seq recs + 1 = omega arith in
      let j : Journal E = record {
        log = (replay recs (with_capacity capacity)).1;
        writer = true;
        file = begun.made;
      } in
      let all = recs ++ numbered (max_seq recs + 1) events in
      let left : Holds all (record_lines events j).file =
        subst (λ k. Holds (recs ++ numbered k events) (record_lines events j).file) inside
          (record_lines-Holds events recs j json (omega arith) refl begun.holds) in
      let again =
        configure-Holds all (with_capacity capacity') false (record_lines events j).file left in
      let count =
        length-append recs (numbered (max_seq recs + 1) events)
        ∙ ap (λ n. length recs + n) (length-numbered events (max_seq recs + 1)) in
      let top = max_seq-numbered events recs (max_seq recs) refl in
      rw (state, again)
        (refl, ap (λ n. ok n) count, reverse-take-reverse capacity' all, omega (arith, top))
