-- ===== src/Wire/Encode/Layout/Patch.antt =====
-- The length fields that `encode_frame` of crates/ssiec-sv-publisher/src/lib.rs reserves and patches.
use svdc.Base.{
  ℕ, ◌+◌, ◌-◌, ◌/◌, ◌%◌, ◌≤◌, ltb, List, [], ◌∷◌, ◌++◌, ◌≡◌, refl, arith, length, drop, set, ok,
  u16_be_bytes, length-append, length-drop, drop-drop, append_assoc, le→not_ltb, lt→ltb,
  set-length-append, false, true,
}
use svdc.Wire.Encode.{
  ◌>>◌, reserve_length16, store_length, poke, written_since, patch_length16, patch_total, position,
}
use svdc.Wire.Encode.Writes.{at, write-Writes}

pub reserve_length16_lem :
    (bs rest : List ℕ)
    → 3 ≤ length rest
    → reserve_length16 (at bs rest)
      ≡ (ok (length bs + 1), at (bs ++ (0x82 ∷ 0 ∷ 0 ∷ [])) (drop 3 rest))
unfolding reserve_length16
reserve_length16_lem bs rest h =
    let first = (write-Writes (0x82 ∷ [])).run bs rest (omega arith) in
    let second =
      (write-Writes (0 ∷ 0 ∷ [])).run (bs ++ (0x82 ∷ [])) (drop 1 rest)
        (omega (arith, length-drop 1 rest)) in
    rw (first, second, drop-drop 1 2 rest, append_assoc bs (0x82 ∷ []) (0 ∷ 0 ∷ []), length-append)

store_length_lem :
    (front back : List ℕ) (x y i n q : ℕ)
    → i ≡ length front
    → n ≤ 65535
    → store_length i n (record { buf = front ++ (x ∷ y ∷ back); pos = q })
      ≡ (ok tt, record { buf = front ++ (u16_be_bytes n ++ back); pos = q })
unfolding store_length poke
store_length_lem front back x y i n q e h =
    let hi = n / 256 % 256 in
    let small : ltb 65535 n ≡ false = le→not_ltb _ _ h in
    let in_first : ltb (length front) (length (front ++ (x ∷ y ∷ back))) ≡ true =
      lt→ltb _ _ (omega (arith, length-append front (x ∷ y ∷ back))) in
    let in_second : ltb (length front + 1) (length (front ++ (hi ∷ y ∷ back))) ≡ true =
      lt→ltb _ _ (omega (arith, length-append front (hi ∷ y ∷ back))) in
    let second : set (front ++ (hi ∷ y ∷ back)) (length front + 1) (n % 256)
        ≡ front ++ (hi ∷ n % 256 ∷ back) =
      rw
        (
          ← append_assoc front (hi ∷ []) (y ∷ back),
          ← append_assoc front (hi ∷ []) (n % 256 ∷ back),
          ← length-append front (hi ∷ []),
        )
        (set-length-append (front ++ (hi ∷ [])) y back (n % 256)) in
    rw (e, small, in_first, set-length-append front x (y ∷ back) hi, in_second, second)

patch_length16_lem :
    (front inner rest : List ℕ) (x y i : ℕ)
    → i ≡ length front
    → length inner ≤ 65535
    → patch_length16 i (at (front ++ (x ∷ y ∷ inner)) rest)
      ≡ (ok tt, at (front ++ (u16_be_bytes (length inner) ++ inner)) rest)
unfolding patch_length16 written_since
patch_length16_lem front inner rest x y i e h =
    let count : length (front ++ (x ∷ y ∷ inner)) ≡ length front + 2 + length inner =
      omega (arith, length-append front (x ∷ y ∷ inner)) in
    let started : ltb (length (front ++ (x ∷ y ∷ inner))) (length front + 2) ≡ false =
      le→not_ltb _ _ (omega (arith, count)) in
    let inner_len : length (front ++ (x ∷ y ∷ inner)) - (length front + 2) ≡ length inner =
      omega (arith, count) in
    let patched : List ℕ = u16_be_bytes (length inner) ++ inner in
    let same : length (front ++ (x ∷ y ∷ inner)) ≡ length (front ++ patched) =
      omega (arith, count, length-append front patched) in
    rw
      (
        e,
        started,
        inner_len,
        append_assoc front (x ∷ y ∷ inner) rest,
        store_length_lem front (inner ++ rest) x y (length front) (length inner) _ refl h,
        same,
      )
      (rw (append_assoc front patched rest))

patch_behind :
    (head mid inner rest : List ℕ) (x y i : ℕ)
    → i ≡ length head + length mid
    → length inner ≤ 65535
    → patch_length16 i (at (head ++ (mid ++ (x ∷ y ∷ inner))) rest)
      ≡ (ok tt, at (head ++ (mid ++ (u16_be_bytes (length inner) ++ inner))) rest)
patch_behind head mid inner rest x y i e h =
    rw
      (
        ← append_assoc head mid (x ∷ y ∷ inner),
        ← append_assoc head mid (u16_be_bytes (length inner) ++ inner),
      )
      (patch_length16_lem (head ++ mid) inner rest x y i (omega (arith, length-append head mid)) h)

patch_total_lem :
    (front inner rest : List ℕ) (x y i start total : ℕ)
    → i ≡ length front
    → start ≡ length front + 6
    → 4 ≤ length inner
    → total ≡ length inner + 4
    → total ≤ 65535
    → patch_total i start (at (front ++ (x ∷ y ∷ inner)) rest)
      ≡ (ok tt, at (front ++ (u16_be_bytes total ++ inner)) rest)
unfolding patch_total written_since
patch_total_lem front inner rest x y i start total e es long et h =
    let count : length (front ++ (x ∷ y ∷ inner)) ≡ length front + 2 + length inner =
      omega (arith, length-append front (x ∷ y ∷ inner)) in
    let started : ltb (length (front ++ (x ∷ y ∷ inner))) start ≡ false =
      le→not_ltb _ _ (omega (arith, count)) in
    let nine2_total : length (front ++ (x ∷ y ∷ inner)) - start + 8 ≡ total =
      omega (arith, count) in
    let patched : List ℕ = u16_be_bytes total ++ inner in
    let same : length (front ++ (x ∷ y ∷ inner)) ≡ length (front ++ patched) =
      omega (arith, count, length-append front patched) in
    rw
      (
        started,
        nine2_total,
        append_assoc front (x ∷ y ∷ inner) rest,
        store_length_lem front (inner ++ rest) x y i total _ e h,
        same,
      )
      (rw (append_assoc front patched rest))

abbrev pub zeros : List ℕ
zeros = 0 ∷ 0 ∷ []

-- A frame by its Ethernet header and APPID, the bytes of its ASDU, and its four length fields: of
-- the 9-2 header, the savPdu, the ASDU sequence and the ASDU.
module _ (head fields : List ℕ) where
  abbrev pub layout : List ℕ → List ℕ → List ℕ → List ℕ → List ℕ
  layout total sav seq asdu =
      head
      ++ (total
          ++ (0
              ∷ 0
              ∷ 0
              ∷ 0
              ∷ 0x60
              ∷ 0x82
              ∷ (sav ++ (0x80 ∷ 1 ∷ 1 ∷ 0xA2 ∷ 0x82 ∷ (seq ++ (0x30 ∷ 0x82 ∷ (asdu ++ fields)))))))

  -- the length fields as `encode_frame` patches them
  abbrev pub patched : List ℕ
  patched =
      let n = length fields in
      layout (u16_be_bytes (n + 23)) (u16_be_bytes (n + 11)) (u16_be_bytes (n + 4)) (u16_be_bytes n)

  pub length-patched : length patched ≡ length head + length fields + 21
  length-patched =
      let n = length fields in
      let inner : List ℕ =
        u16_be_bytes (n + 23)
        ++ (0
            ∷ 0
            ∷ 0
            ∷ 0
            ∷ 0x60
            ∷ 0x82
            ∷ (u16_be_bytes (n + 11)
                ++ (0x80
                    ∷ 1
                    ∷ 1
                    ∷ 0xA2
                    ∷ 0x82
                    ∷ (u16_be_bytes (n + 4) ++ (0x30 ∷ 0x82 ∷ (u16_be_bytes n ++ fields)))))) in
      omega (arith, length-append head inner)

  abbrev to_sav : List ℕ
  to_sav = 0 ∷ 0 ∷ 0 ∷ 0 ∷ 0x60 ∷ 0x82 ∷ []

  abbrev to_seq : List ℕ
  to_seq = 0x80 ∷ 1 ∷ 1 ∷ 0xA2 ∷ 0x82 ∷ []

  abbrev to_asdu : List ℕ
  to_asdu = 0x30 ∷ 0x82 ∷ []

  -- Patching the length of the ASDU, then of the sequence, of the savPdu and of the whole.
  pub patches :
      (rest : List ℕ) (i j k l start : ℕ)
      → length fields + 23 ≤ 65535
      → i ≡ length head + 19
      → j ≡ length head + 15
      → k ≡ length head + 8
      → l ≡ length head
      → start ≡ length head + 6
      → (do patch_length16 i; patch_length16 j; patch_length16 k; patch_total l start; position)
          (at (layout zeros zeros zeros zeros) rest)
        ≡ (ok (length patched), at patched rest)
  patches rest i j k l start h ei ej ek el es =
      let n = length fields in
      let m1 : List ℕ = zeros ++ to_sav in
      let m2 : List ℕ = m1 ++ (zeros ++ to_seq) in
      let m3 : List ℕ = m2 ++ (zeros ++ to_asdu) in
      let t3 : List ℕ = to_asdu ++ (u16_be_bytes n ++ fields) in
      let t2 : List ℕ = to_seq ++ (u16_be_bytes (n + 4) ++ t3) in
      let t1 : List ℕ = to_sav ++ (u16_be_bytes (n + 11) ++ t2) in
      let four : length t3 ≡ n + 4 = omega arith in
      let eleven : length t2 ≡ n + 11 = omega arith in
      let p3 = patch_behind head m3 fields rest 0 0 i ei (omega arith) in
      let p2 = rw four at (patch_behind head m2 t3 rest 0 0 j ej (omega arith)) in
      let p1 = rw eleven at (patch_behind head m1 t2 rest 0 0 k ek (omega arith)) in
      let p0 =
        patch_total_lem head t1 rest 0 0 l start (n + 23) el es (omega arith) (omega arith) h in
      rw (p3, p2, p1, p0)
