-- ===== src/Wire/Decode/Reads.antt =====
-- What the readers of crates/ssiec-sv-publisher/src/lib.rs make of well-formed input.
use svdc.Base.{
  ℕ, ◌+◌, ◌/◌, ◌%◌, ◌≤◌, ltb, List, [], ◌∷◌, ◌++◌, ◌≡◌, refl, arith, length, ok, u16_be_bytes,
  from_be_bytes, le→not_ltb, ==_self, length-append, append_assoc, append-nil, get_elem?-length,
  slice-length, Bool-cases, inl, inr, false,
}
use svdc.Wire.Encode.Writes.{ber_length, tlv_bytes}
use svdc.Wire.Decode.{
  Reader, Read, ◌>>=◌, return, index, read_u8, read_u16_be, read_bytes, read_ber_length, expect_tag,
  read_tlv,
}

-- the reader behind the bytes `bs`
abbrev pub behind : List ℕ → List ℕ → Reader
behind bs rest = record { buf = bs ++ rest; pos = length bs }

-- `m` takes `xs` off the input, whatever stands before and after, and returns `a`
pub record Reads {A : Type 0} (m : Read A) (xs : List ℕ) (a : A) : Type 0 where
  pub run : (bs rest : List ℕ) → m (behind bs (xs ++ rest)) ≡ ok (a, behind (bs ++ xs) rest)

pub Reads-return : {A : Type 0} (a : A) → Reads (return a) [] a
Reads-return a = record { run = λ bs rest. rw (append-nil bs) }

pub Reads-bind :
    {A B : Type 0} {m : Read A} (f : A → Read B) {xs ys : List ℕ} {a : A} {b : B}
    → Reads m xs a
    → Reads (f a) ys b
    → Reads (m >>= f) (xs ++ ys) b
Reads-bind f {xs} {ys} rm rf = record {
  run = λ bs rest. rw (
    append_assoc xs ys rest,
    rm.run bs (ys ++ rest),
    rf.run (bs ++ xs) rest,
    append_assoc bs xs ys,
  );
}

pub read_u8-Reads : (b : ℕ) → Reads read_u8 (b ∷ []) b
unfolding read_u8
read_u8-Reads b = record {
  run = λ bs rest.
      rw (get_elem?-length bs b rest, append_assoc bs (b ∷ []) rest, length-append bs (b ∷ []));
}

index_at :
    (front : List ℕ) (x : ℕ) (back : List ℕ) (r : Reader)
    → index (front ++ (x ∷ back)) (length front) r ≡ ok (x, r)
unfolding index
index_at front x back r = rw (get_elem?-length front x back)

index_next :
    (front : List ℕ) (x y : ℕ) (back : List ℕ) (r : Reader)
    → index (front ++ (x ∷ y ∷ back)) (length front + 1) r ≡ ok (y, r)
index_next front x y back r =
    rw (← append_assoc front (x ∷ []) (y ∷ back), ← length-append front (x ∷ []))
      (index_at (front ++ (x ∷ [])) y back r)

pub read_u16_be-Reads : (a b : ℕ) → Reads read_u16_be (a ∷ b ∷ []) (from_be_bytes (a ∷ b ∷ []))
unfolding read_u16_be
read_u16_be-Reads a b = record {
  run = λ bs rest.
      let r : Reader = behind bs (a ∷ b ∷ rest) in
      let room : ltb (length (bs ++ (a ∷ b ∷ rest))) (length bs + 2) ≡ false =
        le→not_ltb _ _ (omega (arith, length-append bs (a ∷ b ∷ rest))) in
      rw (
        room,
        index_at bs a (b ∷ rest) r,
        index_next bs a b rest r,
        append_assoc bs (a ∷ b ∷ []) rest,
        length-append bs (a ∷ b ∷ []),
      );
}

pub read_bytes-Reads : (xs : List ℕ) (n : ℕ) → n ≡ length xs → Reads (read_bytes n) xs xs
unfolding read_bytes
read_bytes-Reads xs n e = record {
  run = λ bs rest.
      let room : ltb (length (bs ++ (xs ++ rest))) (length bs + length xs) ≡ false =
        le→not_ltb _ _ (omega (arith, length-append bs (xs ++ rest), length-append xs rest)) in
      rw (e, room, slice-length bs xs rest, append_assoc bs xs rest, length-append bs xs);
}

pub expect_tag-Reads : (tag : ℕ) → Reads (expect_tag tag) (tag ∷ []) tt
unfolding expect_tag
expect_tag-Reads tag = Reads-bind _ (read_u8-Reads tag) (rw (==_self tag) (Reads-return tt))

pub read_ber_length-Reads : (n : ℕ) → n ≤ 65535 → Reads read_ber_length (ber_length n) n
unfolding read_ber_length
read_ber_length-Reads n h = elim (Bool-cases (ltb n 128)) [
  | inl e ↦ rw e (Reads-bind _ (read_u8-Reads n) (rw e (Reads-return n)))
  | inr e ↦
      let v : from_be_bytes (u16_be_bytes n) ≡ n = omega arith in
      rw e
        (Reads-bind _ (read_u8-Reads 0x82) (rw v at (read_u16_be-Reads (n / 256 % 256) (n % 256))))
]

-- A tag-length-value element gives its value back.
pub read_tlv-Reads :
    (tag : ℕ) (value : List ℕ)
    → length value ≤ 65535
    → Reads (read_tlv tag) (tlv_bytes tag value) value
unfolding read_tlv
read_tlv-Reads tag value h = Reads-bind _ (expect_tag-Reads tag) (
    Reads-bind _ (read_ber_length-Reads (length value) h)
      (read_bytes-Reads value (length value) refl))
