-- ===== src/Align/Buffer/Sweep.antt =====
-- The integrity sweep `verify_all` of crates/svdc-aligner/src/buffer.rs.
use svdc.Base.{
  ℕ, ◌-◌, ◌≤◌, ltb, List, [], ◌∷◌, ◌++◌, ◌≡◌, refl, arith, length, All, All-drop, newest, ok, err,
  assert-ok,
}
use svdc.Core.Tick.{TickRecord, IntegrityViolation, verify_crc}
use svdc.Align.Buffer.{TickBuffer, new, violations, verify_all}
use svdc.Align.Buffer.Window.{push_all, push_all_lem}

-- the record's CRC fits its payload
abbrev pub IsIntact : TickRecord → Type 0
IsIntact t = verify_crc t ≡ ok tt

violations-intact : (ts : List TickRecord) → All IsIntact ts → violations ts ≡ []
unfolding violations
violations-intact [] a = refl
violations-intact (t ∷ ts) (a, rest) = rw (a, violations-intact ts rest)

pub violations-append :
    (xs : List TickRecord) (t : TickRecord) (v : IntegrityViolation)
    → All IsIntact xs
    → verify_crc t ≡ err v
    → (ys : List TickRecord) → All IsIntact ys
    → violations (xs ++ (t ∷ ys)) ≡ v ∷ []
unfolding violations
violations-append [] t v a e ys b = rw (e, violations-intact ys b)
violations-append (x ∷ xs) t v (a, rest) e ys b = rw (a, violations-append xs t v rest e ys b)

-- Of ticks that are intact but for one, pushed to a new buffer that holds them all, the sweep reports
-- exactly that one; of intact ticks in any number, whatever the capacity has dropped, it reports none.
pub verify_all-push_all :
    (capacity : ℕ) (b : TickBuffer) (xs ys : List TickRecord) (t : TickRecord)
    (v : IntegrityViolation)
    → new capacity ≡ ok b
    → All IsIntact xs
    → All IsIntact ys
    → verify_crc t ≡ err v
    → length (xs ++ (t ∷ ys)) ≤ capacity
    → (verify_all (push_all b (xs ++ (t ∷ ys))) ≡ v ∷ []) × (verify_all (push_all b xs) ≡ [])
unfolding new verify_all
verify_all-push_all capacity b xs ys t v made a c e room =
    let (same, pos) =
      assert-ok (ltb 0 capacity) (record { inner = []; capacity = capacity }) b made in
    let empty : TickBuffer = record { inner = []; capacity = capacity } in
    let whole : length (xs ++ (t ∷ ys)) - capacity ≡ 0 = omega arith in
    rw
      (
        ← same,
        push_all_lem (xs ++ (t ∷ ys)) empty (ground arith) (omega arith),
        push_all_lem xs empty (ground arith) (omega arith),
        whole,
      )
      (
        violations-append xs t v a e ys c,
        violations-intact (newest capacity xs) (All-drop IsIntact (length xs - capacity) xs a),
      )
