-- ===== src/Wire/Decode/Safe.antt =====
-- The frame decoder of crates/ssiec-sv-publisher/src/lib.rs on any bytes at all: no slice or index
-- leaves the buffer, and what is returned has the ranges of its field types.
use svdc.Base.{
  ℕ, ◌+◌, ◌≤◌, ◌<◌, ltb, ◌==◌, if◌then◌else◌, Bool, true, false, drop, Bool-cases, inl, inr, List,
  ◌≡◌, refl, subst, Option-cases, arith, length, get_elem?, All, Outcome, ok, err, panic, IsU8,
  IsU16, get_elem?_lt, All-get_elem?, All-take, All-drop, length-slice, ==_iff,
}
use svdc.Wire.Frame.{DecodeError}
use svdc.Wire.Decode.{
  Reader, Read, resume, ◌>>=◌, return, fail, or_panic, index, or_truncated, read_u8, read_u16_be,
  take_slice, read_bytes, read_ber_length, expect_tag, read_tlv, check_size,
}

-- no panic, and `P` of what was read; the reader still stands in the same buffer
abbrev pub Yields : {A : Type 0} → (A → Type 0) → List ℕ → Outcome DecodeError (A × Reader) → Type 0
Yields P bs (ok (a, q)) = P a × (q.buf ≡ bs)
Yields P bs (err e) = Unit
Yields P bs panic = ⊥

pub record Safe {A : Type 0} (m : Read A) (P : A → Type 0) : Type 0 where
  pub run : (r : Reader) → All IsU8 r.buf → Yields P r.buf (m r)

Yields-resume :
    {A B : Type 0} (P : A → Type 0) (Q : B → Type 0) (f : A → Read B) (bs : List ℕ)
    → All IsU8 bs
    → (o : Outcome DecodeError (A × Reader)) → Yields P bs o
    → ((a : A) → P a → Safe (f a) Q)
    → Yields Q bs (resume o f)
Yields-resume P Q f bs v (ok (a, q)) (p, same) h =
    subst (λ (b : List ℕ). Yields Q b (f a q)) same ((h a p).run q (rw same v))
Yields-resume P Q f bs v (err e) y h = tt
Yields-resume P Q f bs v panic y h = elim y [ ]

pub Safe-bind :
    {A B : Type 0} {m : Read A} {P : A → Type 0} {Q : B → Type 0} (f : A → Read B)
    → Safe m P
    → ((a : A) → P a → Safe (f a) Q)
    → Safe (m >>= f) Q
Safe-bind {m} {P} {Q} f s h = record {
  run = λ r v. Yields-resume P Q f r.buf v (m r) (s.run r v) h;
}

pub Safe-weaken :
    {A : Type 0} {m : Read A} {P Q : A → Type 0} → Safe m P → ((a : A) → P a → Q a) → Safe m Q
Safe-weaken {P} {Q} s h = record { run = λ r v. weaken r.buf _ (s.run r v) }
  where
    weaken : (bs : List ℕ) (o : Outcome DecodeError (_ × Reader)) → Yields P bs o → Yields Q bs o
    weaken bs (ok (a, q)) (p, same) = (h a p, same)
    weaken bs (err e) y = tt
    weaken bs panic y = elim y [ ]

pub Safe-return : {A : Type 0} (P : A → Type 0) (a : A) → P a → Safe (return a) P
Safe-return P a p = record { run = λ r v. (p, refl) }

pub Safe-fail : {A : Type 0} (P : A → Type 0) (e : DecodeError) → Safe (fail e) P
Safe-fail P e = record { run = λ r v. tt }

pub Safe-if :
    {A : Type 0} {P : A → Type 0} (b : Bool) (m k : Read A)
    → Safe m P
    → Safe k P
    → Safe (if b then m else k) P
Safe-if true m k sm sk = sm
Safe-if false m k sm sk = sk

pub read_u8-Safe : Safe read_u8 IsU8
unfolding read_u8 or_truncated
read_u8-Safe = record {
  run = λ r v. elim (Option-cases (get_elem? r.buf r.pos)) [
    | inl e ↦ rw e tt
    | inr (b, e) ↦ rw e (All-get_elem? IsU8 r.buf r.pos b v e, refl)
  ];
}

-- an index within a buffer of bytes
pub index-Safe :
    (bytes : List ℕ) (i : ℕ) → All IsU8 bytes → i < length bytes → Safe (index bytes i) IsU8
unfolding index or_panic
index-Safe bytes i v h =
    let (b, e) = get_elem?_lt bytes i h in
    record { run = λ r _. rw e (All-get_elem? IsU8 bytes i b v e, refl) }

pub read_u16_be-Safe : Safe read_u16_be IsU16
unfolding read_u16_be
read_u16_be-Safe = record {
  run = λ r v. elim (Bool-cases (ltb (length r.buf) (r.pos + 2))) [
    | inl e ↦ rw e tt
    | inr e ↦
        let room : r.pos + 2 ≤ length r.buf = ground arith in
        rw e (
          (Safe-bind _ (index-Safe r.buf r.pos v (omega arith)) λ a ha.
              Safe-bind _ (index-Safe r.buf (r.pos + 1) v (omega arith))
                λ b hb. record { run = λ q w. (omega arith, refl) }).run
            r v)
  ];
}

pub read_bytes-Safe : (n : ℕ) → Safe (read_bytes n) (λ bs. (length bs ≡ n) × All IsU8 bs)
unfolding read_bytes take_slice
read_bytes-Safe n = record {
  run = λ r v. elim (Bool-cases (ltb (length r.buf) (r.pos + n))) [
    | inl e ↦ rw e tt
    | inr e ↦
        let room : r.pos + n ≤ length r.buf = ground arith in
        rw e (
          (
            length-slice r.buf r.pos n room,
            All-take IsU8 n (drop r.pos r.buf) (All-drop IsU8 r.pos r.buf v),
          ),
          refl,
        )
  ];
}

pub read_ber_length-Safe : Safe read_ber_length (λ _. Unit)
unfolding read_ber_length
read_ber_length-Safe = Safe-bind _ read_u8-Safe λ first h. Safe-if _ _ _ (Safe-return _ first tt) (
    Safe-if _ _ _ (Safe-weaken read_u8-Safe λ _ _. tt)
      (Safe-if _ _ _ (Safe-weaken read_u16_be-Safe λ _ _. tt) (Safe-fail _ _)))

pub expect_tag-Safe : (tag : ℕ) → Safe (expect_tag tag) (λ _. Unit)
unfolding expect_tag
expect_tag-Safe tag =
    Safe-bind _ read_u8-Safe λ found h. Safe-if _ _ _ (Safe-return _ tt tt) (Safe-fail _ _)

pub read_tlv-Safe : (tag : ℕ) → Safe (read_tlv tag) (All IsU8)
unfolding read_tlv
read_tlv-Safe tag =
    Safe-bind _ (expect_tag-Safe tag)
      λ _ _. Safe-bind _ read_ber_length-Safe λ n _. Safe-weaken (read_bytes-Safe n) λ bs h. h.1

pub check_size-Safe : (n : ℕ) (bs : List ℕ) → Safe (check_size n bs) (λ _. length bs ≡ n)
unfolding check_size
check_size-Safe n bs = elim (Bool-cases (length bs == n)) [
  | inl e ↦ rw e (Safe-return _ tt ((==_iff (length bs) n).0 e))
  | inr e ↦ rw e (Safe-fail _ _)
]
