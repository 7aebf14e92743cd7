-- ===== src/Wire/Encode/Safe.antt =====
-- `encode_frame` of crates/ssiec-sv-publisher/src/lib.rs on any input: no store leaves the buffer.
use svdc.Base.{
  ℕ, ◌+◌, ◌-◌, ◌/◌, ◌%◌, ◌≤◌, ltb, if◌then◌else◌, Bool, true, false, Bool-cases, inl, inr, Option,
  none, some, List, [], ◌∷◌, ◌++◌, ◌≡◌, refl, arith, length, take, drop, copy_from_slice, Outcome,
  ok, err, panic, length-append, length-take, length-drop, length-set, u16_be_bytes, u32_be_bytes,
  suc, replicate,
}
use svdc.Wire.Frame.{
  ethertype_sv, tpid_8021q, tci, pack, sample_payload_bytes, FrameParams, AsduFields, VlanTag,
  EncodeError,
}
use svdc.Wire.Encode.{
  Cursor, Emit, resume, ◌>>=◌, ◌>>◌, return, fail, position, remaining, write, reserve_length16,
  poke, written_since, store_length, patch_length16, write_length, write_primitive_tlv,
  encode_int_u16, write_int, write_vlan, write_ethernet, write_asdu, patch_total, write_frame,
  encode_frame,
}

-- What an action leaves in a buffer of `n` bytes: no panic, the buffer's size as it was and, where it
-- succeeds with `a`, a position from `hi a` on within the buffer and `P a`.
abbrev pub Lands :
    {A : Type 0} → ℕ → (A → ℕ) → (A → Type 0) → Outcome EncodeError A × Cursor → Type 0
Lands n hi P (ok a, c) = (length c.buf ≡ n) × ((hi a ≤ c.pos) × ((c.pos ≤ n) × P a))
Lands n hi P (err e, c) = length c.buf ≡ n
Lands n hi P (panic, c) = ⊥

-- `m`, from any position between `lo` and `n`
pub record Safe {A : Type 0} (n lo : ℕ) (m : Emit A) (hi : A → ℕ) (P : A → Type 0) : Type 0 where
  pub run : (c : Cursor) → length c.buf ≡ n → lo ≤ c.pos → c.pos ≤ n → Lands n hi P (m c)

-- of an action whose value does not matter
abbrev pub Moves : ℕ → ℕ → Emit (Unit {0}) → ℕ → Type 0
Moves n lo m hi = Safe n lo m (λ _. hi) (λ _. Unit)

Safe-bind :
    {A B : Type 0} {n lo : ℕ} {m : Emit A} {mid : A → ℕ} {P : A → Type 0} {hi : B → ℕ}
    {Q : B → Type 0} (f : A → Emit B)
    → Safe n lo m mid P
    → ((a : A) → P a → Safe n (mid a) (f a) hi Q)
    → Safe n lo (m >>= f) hi Q
Safe-bind {A} {n} {m} {mid} {P} {hi} {Q} f s h = record {
  run = λ c e l u. onward (m c) (s.run c e l u);
}
  where
    onward :
        (o : Outcome EncodeError A × Cursor) → Lands n mid P o → Lands n hi Q (resume o.0 f o.1)
    onward (ok a, c) (e, (l, (u, p))) = (h a p).run c e l u
    onward (err e, c) y = y
    onward (panic, c) y = elim y [ ]

Safe-weaken :
    {A : Type 0} {n lo lo' : ℕ} {m : Emit A} {hi hi' : A → ℕ} {P Q : A → Type 0}
    → lo' ≤ lo
    → Safe n lo' m hi P
    → ((a : A) → P a → (hi' a ≤ hi a) × Q a)
    → Safe n lo m hi' Q
Safe-weaken {A} {n} {m} {hi} {hi'} {P} {Q} d s h = record {
  run = λ c e l u. onward (m c) (s.run c e (omega arith) u);
}
  where
    onward : (o : Outcome EncodeError A × Cursor) → Lands n hi P o → Lands n hi' Q o
    onward (ok a, c) (e, (l, (u, p))) = let (b, q) = h a p in (e, (omega arith, (u, q)))
    onward (err e, c) y = y
    onward (panic, c) y = elim y [ ]

Safe-if :
    {A : Type 0} {n lo : ℕ} {hi : A → ℕ} {P : A → Type 0} (b : Bool) (m k : Emit A)
    → Safe n lo m hi P
    → Safe n lo k hi P
    → Safe n lo (if b then m else k) hi P
Safe-if true m k sm sk = sm
Safe-if false m k sm sk = sk

Safe-return :
    {A : Type 0} {n lo : ℕ} {hi : A → ℕ} {P : A → Type 0} (a : A)
    → hi a ≤ lo
    → P a
    → Safe n lo (return a) hi P
Safe-return a h p = record { run = λ c e l u. (e, (omega arith, (u, p))) }

Safe-fail :
    {A : Type 0} {n lo : ℕ} {hi : A → ℕ} {P : A → Type 0} (e : EncodeError)
    → Safe n lo (fail e) hi P
Safe-fail e = record { run = λ c s l u. s }

write-Safe : (n lo : ℕ) (xs : List ℕ) → Moves n lo (write xs) (lo + length xs)
unfolding write remaining
write-Safe n lo xs = record {
  run = λ c e l u. elim (Bool-cases (ltb (length c.buf - c.pos) (length xs))) [
    | inl b ↦ rw b e
    | inr b ↦
        let room : length xs ≤ length c.buf - c.pos = ground arith in
        let kept : length (copy_from_slice c.buf c.pos xs) ≡ n = omega (
          arith,
          length-append (take c.pos c.buf) (xs ++ drop (c.pos + length xs) c.buf),
          length-append xs (drop (c.pos + length xs) c.buf),
          length-take c.pos c.buf,
          length-drop (c.pos + length xs) c.buf,
        ) in
        rw b (kept, (omega arith, (omega arith, tt)))
  ];
}

position-Safe : (n lo : ℕ) → Safe n lo position (λ a. a) (λ a. lo ≤ a)
position-Safe n lo = record { run = λ c e l u. (e, (omega arith, (u, l))) }

reserve_length16-Safe : (n lo : ℕ) → Safe n lo reserve_length16 (λ i. i + 2) (λ i. lo ≤ i)
unfolding reserve_length16
reserve_length16-Safe n lo = Safe-bind _ (write-Safe n lo (0x82 ∷ [])) λ _ _.
    Safe-bind _ (position-Safe n (lo + 1)) λ i h.
      Safe-bind _ (write-Safe n i (0 ∷ 0 ∷ [])) λ _ _. Safe-return i (omega arith) (omega arith)

written_since-Safe :
    (n lo start : ℕ) → start ≤ lo → Safe n lo (written_since start) (λ _. lo) (λ _. Unit)
unfolding written_since
written_since-Safe n lo start h = record {
  run = λ c e l u.
      let started : ltb c.pos start ≡ false = ground arith in rw started (e, (l, (u, tt)));
}

poke-Safe : (n lo j b : ℕ) → suc j ≤ lo → Moves n lo (poke j b) lo
unfolding poke
poke-Safe n lo j b hj = record {
  run = λ c e l u.
      let inside : ltb j (length c.buf) ≡ true = ground arith in
      rw inside (omega (arith, length-set c.buf j b), (l, (u, tt)));
}

-- The two bytes of a length field behind position `i`.
store_length-Safe : (n lo i v : ℕ) → i + 2 ≤ lo → Moves n lo (store_length i v) lo
unfolding store_length
store_length-Safe n lo i v h = Safe-if (ltb 65535 v) _ _ (Safe-fail _) (
    Safe-bind _ (poke-Safe n lo i (v / 256 % 256) (omega arith))
      λ _ _. poke-Safe n lo (i + 1) (v % 256) (omega arith))

patch_length16-Safe : (n lo i : ℕ) → i + 2 ≤ lo → Moves n lo (patch_length16 i) lo
unfolding patch_length16
patch_length16-Safe n lo i h =
    Safe-bind _ (written_since-Safe n lo (i + 2) h) λ v _. store_length-Safe n lo i v h

patch_total-Safe :
    (n lo i start : ℕ) → i + 2 ≤ lo → start ≤ lo → Moves n lo (patch_total i start) lo
unfolding patch_total
patch_total-Safe n lo i start h hs =
    Safe-bind _ (written_since-Safe n lo start hs) λ v _. store_length-Safe n lo i (v + 8) h

-- a write, when it only matters that it does not step back
write-Moves : (n lo : ℕ) (xs : List ℕ) → Moves n lo (write xs) lo
write-Moves n lo xs = Safe-weaken (omega arith) (write-Safe n lo xs) λ _ _. (omega arith, tt)

Moves-then :
    {A : Type 0} {n lo : ℕ} {m : Emit (Unit {0})} {k : Emit A} {hi : A → ℕ} {P : A → Type 0}
    → Moves n lo m lo
    → Safe n lo k hi P
    → Safe n lo (m >> k) hi P
Moves-then s h = Safe-bind _ s λ _ _. h

write_primitive_tlv-Moves :
    (n lo tag : ℕ) (value : List ℕ) → Moves n lo (write_primitive_tlv tag value) lo
unfolding write_primitive_tlv write_length
write_primitive_tlv-Moves n lo tag value = Moves-then (write-Moves n lo (tag ∷ [])) (
    Moves-then
      (Safe-if _ _ _ (write-Moves n lo (length value ∷ [])) (
        Safe-if _ _ _
          (Moves-then (write-Moves n lo (0x82 ∷ []))
            (write-Moves n lo (u16_be_bytes (length value))))
          (Safe-fail _)))
      (write-Moves n lo value))

write_vlan-Moves : (n lo : ℕ) (v : Option VlanTag) → Moves n lo (write_vlan v) lo
unfolding write_vlan
write_vlan-Moves n lo none = Safe-return tt (omega arith) tt
write_vlan-Moves n lo (some tag) =
    Moves-then (write-Moves n lo (u16_be_bytes tpid_8021q))
      (write-Moves n lo (u16_be_bytes (tci tag)))

write_ethernet-Moves : (n lo : ℕ) (p : FrameParams) → Moves n lo (write_ethernet p) lo
unfolding write_ethernet
write_ethernet-Moves n lo p = Moves-then (write-Moves n lo p.dst_mac) (
    Moves-then (write-Moves n lo p.src_mac)
      (Moves-then (write_vlan-Moves n lo p.vlan) (write-Moves n lo (u16_be_bytes ethertype_sv))))

write_asdu-Moves : (n lo : ℕ) (a : AsduFields) → Moves n lo (write_asdu a) lo
unfolding write_asdu write_int
write_asdu-Moves n lo a = Moves-then (write_primitive_tlv-Moves n lo 0x80 a.sv_id) (
    Moves-then (write_primitive_tlv-Moves n lo 0x82 (u16_be_bytes a.smp_cnt)) (
      Moves-then (write_primitive_tlv-Moves n lo 0x83 (u32_be_bytes a.conf_rev)) (
        Moves-then (write_primitive_tlv-Moves n lo 0x85 (a.smp_synch ∷ [])) (
          Moves-then
            (write_primitive_tlv-Moves n lo 0x86
              (take (encode_int_u16 a.smp_rate).1 (encode_int_u16 a.smp_rate).0))
            (write_primitive_tlv-Moves n lo 0x87
              (pack a.samples (replicate sample_payload_bytes 0)))))))

-- The whole frame: what was reserved is patched inside what was written.
write_frame-Safe :
    (n : ℕ) (p : FrameParams) (a : AsduFields) → Safe n 0 (write_frame p a) (λ v. v) (λ _. Unit)
unfolding write_frame write_int
write_frame-Safe n p a = Moves-then (write_ethernet-Moves n 0 p) (
    Moves-then (write-Moves n 0 (u16_be_bytes p.appid)) (
      Safe-bind _ (position-Safe n 0) λ l _. Safe-bind _ (write-Safe n l (0 ∷ 0 ∷ [])) λ _ _.
        Safe-bind _ (write-Safe n (l + 2) (0 ∷ 0 ∷ [])) λ _ _.
          Safe-bind _ (write-Safe n (l + 2 + 2) (0 ∷ 0 ∷ [])) λ _ _.
            Safe-bind _ (position-Safe n (l + 2 + 2 + 2)) λ start hs.
              Moves-then (write-Moves n start (0x60 ∷ [])) (
                Safe-bind _ (reserve_length16-Safe n start) λ k hk.
                  Moves-then
                    (write_primitive_tlv-Moves n (k + 2) 0x80
                      (take (encode_int_u16 1).1 (encode_int_u16 1).0))
                    (Moves-then (write-Moves n (k + 2) (0xA2 ∷ [])) (
                      Safe-bind _ (reserve_length16-Safe n (k + 2)) λ j hj.
                        Moves-then (write-Moves n (j + 2) (0x30 ∷ [])) (
                          Safe-bind _ (reserve_length16-Safe n (j + 2)) λ i hi.
                            Moves-then (write_asdu-Moves n (i + 2) a) (
                              Moves-then (patch_length16-Safe n (i + 2) i (omega arith)) (
                                Moves-then (patch_length16-Safe n (i + 2) j (omega arith)) (
                                  Moves-then (patch_length16-Safe n (i + 2) k (omega arith)) (
                                    Moves-then
                                      (patch_total-Safe n (i + 2) l start (omega arith)
                                        (omega arith))
                                      (Safe-weaken (omega arith) (position-Safe n (i + 2))
                                        λ v _. (omega arith, tt))))))))))))

-- an outcome that is no panic, a count within the buffer if it is one, and a buffer of the same size
abbrev pub Encodes : ℕ → Outcome EncodeError ℕ × List ℕ → Type 0
Encodes size (ok n, buf) = (n ≤ size) × (length buf ≡ size)
Encodes size (err e, buf) = length buf ≡ size
Encodes size (panic, buf) = ⊥

-- For any parameters, fields and buffer, whatever their sizes, `encode_frame` does not panic and
-- leaves the buffer's size as it was; a count that it returns is within the buffer.
pub encode_frame-Encodes :
    (p : FrameParams) (a : AsduFields) (out : List ℕ) → Encodes (length out) (encode_frame p a out)
unfolding encode_frame
encode_frame-Encodes p a out = encodes _ (
    (write_frame-Safe (length out) p a).run (record { buf = out; pos = 0 }) refl (omega arith)
      (omega arith))
  where
    encodes :
        (o : Outcome EncodeError ℕ × Cursor)
        → Lands (length out) (λ v. v) (λ _. Unit) o
        → Encodes (length out) (o.0, o.1.buf)
    encodes (ok n, c) (e, (l, (u, _))) = (omega arith, e)
    encodes (err e, c) y = y
    encodes (panic, c) y = elim y [ ]
