-- ===== src/Audit/Torn.antt =====
-- A file whose last line was not written in whole, for `configure_persistence` of
-- crates/svdc-console/src/audit/mod.rs.
use svdc.Base.{
  ℕ, ◌+◌, ◌==◌, ◌≡◌, refl, ap, ◌∙◌, arith, if◌then◌else◌, Bool, true, false, Option, none, some,
  List, [], ◌∷◌, ◌++◌, length, All, Outcome, ok, err, panic, ◌>>=◌, err-ne-ok, panic-ne-ok,
}
use svdc.Scd.Numbers.{trim}
use svdc.Audit.{AuditRecord}
use svdc.Audit.Journal.{
  PersistError, bad_line, Journal, newline, split_lines, strip_cr, is_blank, parse_lines,
  or_bad_line, replay_from_file, load, configure_persistence,
}
use svdc.Audit.Restart.{Terminated, split_lines-append}

split_lines-torn :
    (line : List ℕ)
    → All (λ c. (c == newline) ≡ false) line
    → is_blank line ≡ false
    → split_lines line ≡ line ∷ []
unfolding split_lines
split_lines-torn [] a b = absurd (ground arith)
split_lines-torn (c ∷ []) (e, a) b = rw e refl
split_lines-torn (c ∷ d ∷ cs) (e, a) b = rw (e, split_lines-torn (d ∷ cs) a refl) refl

strip_cr-blank : (line : List ℕ) → is_blank (trim (strip_cr line)) ≡ false → is_blank line ≡ false
unfolding strip_cr trim
strip_cr-blank [] b = b
strip_cr-blank (c ∷ cs) b = refl

module _ {E : Type 0} (to_string : AuditRecord E → Option (List ℕ))
    (from_str : List ℕ → Option (AuditRecord E)) where
  bad_line-first :
      (blank : Bool) (o : Outcome PersistError (AuditRecord E))
      (rest : Outcome PersistError (List (AuditRecord E))) (rs : List (AuditRecord E))
      (rest' : Outcome PersistError (List (AuditRecord E))) (e : PersistError)
      → ((qs : List (AuditRecord E)) → rest ≡ ok qs → rest' ≡ err e)
      → (if blank then rest else (do rec ← o; recs ← rest; ok (rec ∷ recs))) ≡ ok rs
      → (if blank then rest' else (do rec ← o; recs ← rest'; ok (rec ∷ recs))) ≡ err e
  bad_line-first true o rest rs rest' e k h = k rs h
  bad_line-first false (ok rec) (ok qs) rs rest' e k h = rw (k qs refl) refl
  bad_line-first false (ok rec) (err e') rs rest' e k h = absurd (err-ne-ok e' rs h)
  bad_line-first false (ok rec) panic rs rest' e k h = absurd (panic-ne-ok rs h)
  bad_line-first false (err e') rest rs rest' e k h = absurd (err-ne-ok e' rs h)
  bad_line-first false panic rest rs rest' e k h = absurd (panic-ne-ok rs h)

  parse_lines-bad :
      (xs : List (List ℕ)) (line : List ℕ) (idx : ℕ) (rs : List (AuditRecord E))
      → is_blank (trim (strip_cr line)) ≡ false
      → from_str (trim (strip_cr line)) ≡ none
      → parse_lines to_string from_str idx xs ≡ ok rs
      → parse_lines to_string from_str idx (xs ++ (line ∷ []))
        ≡ err (bad_line (idx + length xs + 1))
  unfolding parse_lines
  parse_lines-bad [] line idx rs b f p =
      let k : idx + 0 + 1 ≡ idx + 1 = omega arith in rw (b, f, k) refl
  parse_lines-bad (x ∷ xs) line idx rs b f p =
      let k : idx + 1 + length xs + 1 ≡ idx + length (x ∷ xs) + 1 = omega arith in
      bad_line-first (is_blank (trim (strip_cr x)))
        (or_bad_line to_string from_str (idx + 1) (from_str (trim (strip_cr x)))) _ rs _ _
        (λ qs e. parse_lines-bad xs line (idx + 1) qs b f e ∙ ap (λ n. err (bad_line n)) k) p

  -- On a file of whole lines that parse, followed by the beginning of a line that does not, as a crash in the
  -- middle of a write leaves it, the log cannot be configured: the error names that last line, and
  -- the log, its writer and the file stay as they are, so that each later start fails in the same way.
  pub configure_persistence-torn :
      (j : Journal E) (text torn : List ℕ) (recs : List (AuditRecord E))
      → j.file.content ≡ some (text ++ torn)
      → j.file.readable ≡ true
      → Terminated text
      → parse_lines to_string from_str 0 (split_lines text) ≡ ok recs
      → All (λ c. (c == newline) ≡ false) torn
      → is_blank (trim (strip_cr torn)) ≡ false
      → from_str (trim (strip_cr torn)) ≡ none
      → configure_persistence to_string from_str j
        ≡ (err (bad_line (length (split_lines text) + 1)), j)
  unfolding configure_persistence load replay_from_file
  configure_persistence-torn j text torn recs content readable ends parsed plain blank unread =
      let lines : split_lines (text ++ torn) ≡ split_lines text ++ (torn ∷ []) =
        split_lines-append text torn ends
        ∙ ap (λ ls. split_lines text ++ ls)
            (split_lines-torn torn plain (strip_cr-blank torn blank)) in
      let failed = parse_lines-bad (split_lines text) torn 0 recs blank unread parsed in
      let n : 0 + length (split_lines text) + 1 ≡ length (split_lines text) + 1 = omega arith in
      rw (content, readable, lines, failed, n) refl
