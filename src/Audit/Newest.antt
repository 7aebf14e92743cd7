-- ===== src/Audit/Newest.antt =====
-- The record that `recent` of crates/svdc-console/src/audit/mod.rs shows first.
use svdc.Base.{
  ℕ, ◌<◌, ltb, false, Bool-cases, inl, inr, List, [], ◌∷◌, ◌++◌, ◌≡◌, refl, ap, ◌∙◌, arith, length,
  take, reverse, reverse-append,
}
use svdc.Audit.{AuditRecord, AuditLog, trim, record_event, recent}

module _ {E : Type 0} where
  trim-last :
      (capacity : ℕ) (rs : List (AuditRecord E)) (r : AuditRecord E)
      → 0 < capacity
      → (ys : List (AuditRecord E)) × (trim capacity (rs ++ (r ∷ [])) ≡ ys ++ (r ∷ []))
  unfolding trim
  trim-last capacity [] r h = let e : ltb capacity 1 ≡ false = ground arith in ([], rw e refl)
  trim-last capacity (x ∷ rs) r h =
      elim (Bool-cases (ltb capacity (length (x ∷ (rs ++ (r ∷ [])))))) [
        | inl e ↦ let (ys, p) = trim-last capacity rs r h in (ys, rw e p)
        | inr e ↦ (x ∷ rs, rw e refl)
      ]

  pub recent-record_event :
      (now : ℕ) (event : E) (log : AuditLog E)
      → 0 < log.capacity
      → recent (record_event now event log) 1
        ≡ (record { timestamp_ms = now; seq = log.next_seq; event = event } ∷ [])
  unfolding recent record_event
  recent-record_event now event log h =
      let r : AuditRecord E = record { timestamp_ms = now; seq = log.next_seq; event = event } in
      let (ys, p) = trim-last log.capacity log.ring r h in
      ap (λ rs. take 1 (reverse rs)) p ∙ ap (λ rs. take 1 rs) (reverse-append ys (r ∷ []))
