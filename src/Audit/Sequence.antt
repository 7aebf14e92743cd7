-- ===== src/Audit/Sequence.antt =====
-- The ring of crates/svdc-console/src/audit/mod.rs and its sequence numbers across a restart.
use svdc.Base.{
  ℕ, suc, ◌+◌, ◌-◌, ◌%◌, ◌^◌, ◌<◌, ◌≤◌, min, ltb, Bool-cases, inl, inr, List, [], ◌∷◌, ◌++◌, ◌≡◌,
  refl, sym, ap, ◌∙◌, arith, length, take, reverse, newest, newest-append, reverse-drop,
  take-min-length, append_assoc, append-nil, All, length-reverse,
}
use mathlib.Core.List.{reverse-reverse}
use svdc.Audit.{AuditRecord, AuditLog, trim, record_event, max_seq, replay}

module _ {E : Type 0} where
  trim-newest : (capacity : ℕ) (rs : List (AuditRecord E)) → trim capacity rs ≡ newest capacity rs
  unfolding trim
  trim-newest capacity [] = let e : 0 - capacity ≡ 0 = omega arith in rw e
  trim-newest capacity (r ∷ rs) = elim (Bool-cases (ltb capacity (suc (length rs)))) [
    | inl e ↦
        let k : suc (length rs) - capacity ≡ suc (length rs - capacity) = ground arith in
        rw (e, k) (trim-newest capacity rs)
    | inr e ↦ let k : suc (length rs) - capacity ≡ 0 = ground arith in rw (e, k)
  ]

  pub reverse-take-reverse :
      (n : ℕ) (rs : List (AuditRecord E)) → reverse (take n (reverse rs)) ≡ newest n rs
  reverse-take-reverse n rs =
      let k : length rs - (length rs - n) ≡ min n (length (reverse rs)) =
        omega (arith, length-reverse rs) in
      sym (
        sym (reverse-reverse (newest n rs))
        ∙ ap reverse (
            reverse-drop (length rs - n) rs
            ∙ ap (λ j. take j (reverse rs)) k
            ∙ sym (take-min-length n (reverse rs))))

  -- the events recorded one after the other, each with its time
  abbrev pub record_all : List (ℕ × E) → AuditLog E → AuditLog E
  record_all [] log = log
  record_all ((now, event) ∷ events) log = record_all events (record_event now event log)

  -- their records, numbered from `seq` on
  abbrev pub numbered : ℕ → List (ℕ × E) → List (AuditRecord E)
  numbered seq [] = []
  numbered seq ((now, event) ∷ events) =
      record { timestamp_ms = now; seq = seq; event = event } ∷ numbered (seq + 1) events

  record_all_lem :
      (events : List (ℕ × E)) (log : AuditLog E) (rs : List (AuditRecord E))
      → log.ring ≡ newest log.capacity rs
      → log.next_seq + length events < 2 ^ 64
      → record_all events log ≡ record log {
        ring = newest log.capacity (rs ++ numbered log.next_seq events);
        next_seq = log.next_seq + length events;
      }
  unfolding record_event
  record_all_lem [] log rs e h =
      let n : log.next_seq + 0 ≡ log.next_seq = omega arith in rw (append-nil rs, n, ← e)
  record_all_lem ((now, event) ∷ events) log rs e h =
      let r : AuditRecord E = record { timestamp_ms = now; seq = log.next_seq; event = event } in
      let inside : (log.next_seq + 1) % 2 ^ 64 ≡ log.next_seq + 1 = omega arith in
      let n : log.next_seq + suc (length events) ≡ log.next_seq + 1 + length events = omega arith in
      let ring : trim log.capacity (log.ring ++ (r ∷ [])) ≡ newest log.capacity (rs ++ (r ∷ [])) =
        trim-newest log.capacity (log.ring ++ (r ∷ []))
        ∙ ap (λ (xs : List (AuditRecord E)). newest log.capacity (xs ++ (r ∷ []))) e
        ∙ newest-append log.capacity rs (r ∷ []) in
      let next : AuditLog E = record {
        ring = newest log.capacity (rs ++ (r ∷ []));
        next_seq = log.next_seq + 1;
        capacity = log.capacity;
      } in
      rw (ring, inside, n)
        (record_all_lem events next (rs ++ (r ∷ [])) refl (omega arith)
          ∙ rw (append_assoc rs (r ∷ []) (numbered (log.next_seq + 1) events)))

  -- After a replay of `records` and then any events, while the numbers stay below 2 ^ 64: the ring
  -- holds the newest of the replayed and the new records, in order; the new ones are numbered
  -- consecutively from one above the greatest number replayed, so that every number in the file is
  -- smaller.
  record_all-replay :
      (records : List (AuditRecord E)) (events : List (ℕ × E)) (log : AuditLog E)
      → max_seq records + 1 + length events < 2 ^ 64
      → ((record_all events (replay records log).1).ring
          ≡ newest log.capacity (records ++ numbered (max_seq records + 1) events))
        × (All (λ r. r.seq < max_seq records + 1) records
            × ((record_all events (replay records log).1).next_seq
                ≡ max_seq records + 1 + length events))
  unfolding replay
  record_all-replay records events log h =
      let inside : (max_seq records + 1) % 2 ^ 64 ≡ max_seq records + 1 = omega arith in
      let start : AuditLog E = record {
        ring = reverse (take log.capacity (reverse records));
        next_seq = max_seq records + 1;
        capacity = log.capacity;
      } in
      rw (inside, record_all_lem events start records (reverse-take-reverse log.capacity records) h)
        (refl, (below records (max_seq records) (omega arith), refl))
    where
      below : (rs : List (AuditRecord E)) (m : ℕ) → max_seq rs ≤ m → All (λ r. r.seq < m + 1) rs
      below [] m h = tt
      below (r ∷ rs) m h = (omega arith, below rs m (omega arith))
