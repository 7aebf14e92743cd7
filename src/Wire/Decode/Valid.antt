-- ===== src/Wire/Decode/Valid.antt =====
-- What `decode_frame` of crates/ssiec-sv-publisher/src/lib.rs returns on any bytes at all.
use svdc.Base.{
  ℕ, zero, suc, ◌+◌, ◌*◌, ◌≤◌, List, [], ◌∷◌, ◌≡◌, refl, ap, arith, length, slice, drop, All,
  Outcome, ok, err, panic, IsU8, IsU16, IsU32, from_be_bytes, replicate, All-take, All-drop,
  length-slice,
}
use svdc.Wire.Frame.{
  DecodeError, DecodedAsdu, DecodedFrame, IsSampleData, IsChannelSample, sample_payload_bytes,
  num_channels, unpack, unpack_from,
}
use svdc.Wire.Decode.{
  Reader, read_smp_cnt, read_conf_rev, read_smp_synch, read_samples, read_asdu,
  decode_savpdu_after_ethertype, read_ethertype, read_frame, decode_frame, decode_l2_stripped_frame,
  outcome,
}
use svdc.Wire.Decode.Safe.{
  Yields, Safe, Safe-bind, Safe-weaken, Safe-return, Safe-fail, Safe-if, index-Safe,
  read_u16_be-Safe, read_bytes-Safe, read_ber_length-Safe, expect_tag-Safe, read_tlv-Safe,
  check_size-Safe,
}

-- four bytes make a `u32`
from_be_bytes-IsU32 : (bs : List ℕ) → length bs ≡ 4 → All IsU8 bs → IsU32 (from_be_bytes bs)
from_be_bytes-IsU32 [] h v = absurd (omega arith)
from_be_bytes-IsU32 (a ∷ []) h v = absurd (omega arith)
from_be_bytes-IsU32 (a ∷ b ∷ []) h v = absurd (omega arith)
from_be_bytes-IsU32 (a ∷ b ∷ c ∷ []) h v = absurd (omega arith)
from_be_bytes-IsU32 (a ∷ b ∷ c ∷ d ∷ []) h (va, (vb, (vc, (vd, _)))) = omega arith
from_be_bytes-IsU32 (a ∷ b ∷ c ∷ d ∷ e ∷ bs) h v = absurd (omega arith)

unpack_from-All :
    (n i : ℕ) (bytes : List ℕ)
    → All IsU8 bytes
    → (i + n) * 8 ≤ length bytes
    → (length (unpack_from n i bytes) ≡ n) × All IsChannelSample (unpack_from n i bytes)
unfolding unpack_from
unpack_from-All zero i bytes v h = (refl, tt)
unpack_from-All (suc n) i bytes v h =
    let word : (base : ℕ) → base + 4 ≤ length bytes → IsU32 (from_be_bytes (slice bytes base 4)) =
      λ base room.
        from_be_bytes-IsU32 (slice bytes base 4) (length-slice bytes base 4 room)
          (All-take IsU8 4 (drop base bytes) (All-drop IsU8 base bytes v)) in
    let (len, rest) = unpack_from-All n (i + 1) bytes v (omega arith) in
    (ap suc len, ((word (i * 8) (omega arith), word (i * 8 + 4) (omega arith)), rest))

read_smp_cnt-Safe : Safe read_smp_cnt IsU16
unfolding read_smp_cnt
read_smp_cnt-Safe = Safe-bind _ (read_tlv-Safe 0x82) λ bs v.
    Safe-bind _ (check_size-Safe 2 bs) λ _ h.
      Safe-bind _ (index-Safe bs 0 v (omega arith))
        λ a ha. Safe-bind _ (index-Safe bs 1 v (omega arith)) λ b hb. Safe-return _ _ (omega arith)

read_conf_rev-Safe : Safe read_conf_rev IsU32
unfolding read_conf_rev
read_conf_rev-Safe = Safe-bind _ (read_tlv-Safe 0x83) λ bs v.
    Safe-bind _ (check_size-Safe 4 bs) λ _ h. Safe-bind _ (index-Safe bs 0 v (omega arith)) λ a ha.
      Safe-bind _ (index-Safe bs 1 v (omega arith)) λ b hb.
        Safe-bind _ (index-Safe bs 2 v (omega arith)) λ c hc.
          Safe-bind _ (index-Safe bs 3 v (omega arith)) λ d hd. Safe-return _ _ (omega arith)

read_smp_synch-Safe : Safe read_smp_synch IsU8
unfolding read_smp_synch
read_smp_synch-Safe =
    Safe-bind _ (read_tlv-Safe 0x85)
      λ bs v. Safe-bind _ (check_size-Safe 1 bs) λ _ h. index-Safe bs 0 v (omega arith)

read_samples-Safe : Safe read_samples IsSampleData
unfolding read_samples unpack
read_samples-Safe = Safe-bind _ (read_tlv-Safe 0x87) λ bs v.
    Safe-bind _ (check_size-Safe sample_payload_bytes bs)
      λ _ h. Safe-return _ _ (unpack_from-All num_channels 0 bs v (omega arith))

-- the ranges of the fields of a decoded ASDU and of a decoded frame
abbrev pub IsDecodedAsdu : DecodedAsdu → Type 0
IsDecodedAsdu a =
    IsU16 a.smp_cnt
    × IsU32 a.conf_rev
    × IsU8 a.smp_synch
    × IsU16 a.smp_rate
    × IsSampleData a.samples

abbrev pub IsDecodedFrame : DecodedFrame → Type 0
IsDecodedFrame f =
    (length f.dst_mac ≡ 6)
    × (length f.src_mac ≡ 6)
    × IsU16 f.appid
    × IsU16 f.frame_length
    × IsU16 f.no_asdu
    × IsDecodedAsdu f.asdu

read_asdu-Safe : Safe read_asdu IsDecodedAsdu
unfolding read_asdu
read_asdu-Safe = Safe-bind _ (read_tlv-Safe 0x80) λ id vid.
    Safe-bind _ read_smp_cnt-Safe λ cnt hcnt. Safe-bind _ read_conf_rev-Safe λ rev hrev.
      Safe-bind _ read_smp_synch-Safe λ synch hsynch. Safe-bind _ (read_tlv-Safe 0x86) λ rate vrate.
        Safe-bind _ read_samples-Safe
          λ samples hsamples. Safe-return _ _ (hcnt, hrev, hsynch, omega arith, hsamples)

savpdu-Safe :
    (dst src : List ℕ)
    → length dst ≡ 6
    → length src ≡ 6
    → Safe (decode_savpdu_after_ethertype dst src) IsDecodedFrame
unfolding decode_savpdu_after_ethertype
savpdu-Safe dst src hd hs = Safe-bind _ read_u16_be-Safe λ appid happid.
    Safe-bind _ read_u16_be-Safe λ len hlen. Safe-bind _ read_u16_be-Safe λ _ _.
      Safe-bind _ read_u16_be-Safe λ _ _. Safe-bind _ (expect_tag-Safe 0x60) λ _ _.
        Safe-bind _ read_ber_length-Safe λ _ _. Safe-bind _ (read_tlv-Safe 0x80) λ no vno.
          Safe-bind _ (expect_tag-Safe 0xA2) λ _ _. Safe-bind _ read_ber_length-Safe λ _ _.
            Safe-bind _ (expect_tag-Safe 0x30) λ _ _. Safe-bind _ read_ber_length-Safe λ _ _.
              Safe-bind _ read_asdu-Safe
                λ asdu hasdu. Safe-return _ _ (hd, hs, happid, hlen, omega arith, hasdu)

read_ethertype-Safe : Safe read_ethertype (λ _. Unit)
unfolding read_ethertype
read_ethertype-Safe = Safe-bind _ read_u16_be-Safe λ et _.
    Safe-if _ _ _ (Safe-bind _ read_u16_be-Safe λ _ _. Safe-weaken read_u16_be-Safe λ _ _. tt)
      (Safe-return _ et tt)

read_frame-Safe : Safe read_frame IsDecodedFrame
unfolding read_frame
read_frame-Safe = Safe-bind _ (read_bytes-Safe 6) λ dst hd.
    Safe-bind _ (read_bytes-Safe 6) λ src hs.
      Safe-bind _ read_ethertype-Safe
        λ et _. Safe-if _ _ _ (savpdu-Safe dst src hd.0 hs.0) (Safe-fail _ _)

-- a result that is no panic, and a frame with its fields in range if it is a frame
abbrev pub Decodes : Outcome DecodeError DecodedFrame → Type 0
Decodes (ok f) = IsDecodedFrame f
Decodes (err e) = Unit
Decodes panic = ⊥

Decodes-outcome :
    (bs : List ℕ) (o : Outcome DecodeError (DecodedFrame × Reader))
    → Yields IsDecodedFrame bs o
    → Decodes (outcome o)
Decodes-outcome bs (ok (f, r)) y = y.0
Decodes-outcome bs (err e) y = tt
Decodes-outcome bs panic y = elim y [ ]

-- On any bytes, neither decoder panics, and a frame that one returns has two addresses of six bytes,
-- exactly eight channels and every number in the range of its type.
pub decode_frame-Decodes :
    (bytes : List ℕ)
    → All IsU8 bytes
    → Decodes (decode_frame bytes) × Decodes (decode_l2_stripped_frame bytes)
unfolding decode_frame decode_l2_stripped_frame
decode_frame-Decodes bytes v = (
  Decodes-outcome bytes _ (read_frame-Safe.run (record { buf = bytes; pos = 0 }) v),
  Decodes-outcome bytes _ (
      (savpdu-Safe (replicate 6 0) (replicate 6 0) refl refl).run (record { buf = bytes; pos = 0 })
        v),
)
