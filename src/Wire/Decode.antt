-- ===== src/Wire/Decode.antt =====
-- `Reader` and the frame decoder of crates/ssiec-sv-publisher/src/lib.rs. A slice or an index out of
-- range is a `panic`, which the code rules out by its length tests.
pub mod Reads
pub mod Integers
pub mod Safe
pub mod Valid
use svdc.Base.{
  ℕ, ◌+◌, ◌*◌, ◌%◌, ◌^◌, bit_or, ltb, ◌==◌, if◌then◌else◌, Option, none, some, List, [], ◌∷◌,
  length, get_elem?, replicate, slice, Outcome, ok, err, panic, u16, from_be_bytes,
}
use svdc.Wire.Frame.{
  DecodeError, truncated, unexpected_tag, not_sv_frame, unsupported_length_form, bad_size,
  DecodedAsdu, DecodedFrame, SampleData, unpack, tpid_8021q, ethertype_sv, sample_payload_bytes,
}
use svdc.Wire.Utf8.{from_utf8_lossy}

pub record Reader : Type 0 where
  pub buf : List ℕ
  pub pos : ℕ

-- an action of the reader
abbrev pub Read : Type 0 → Type 0
Read A = Reader → Outcome DecodeError (A × Reader)

abbrev pub resume :
    {A B : Type 0}
    → Outcome DecodeError (A × Reader)
    → (A → Read B)
    → Outcome DecodeError (B × Reader)
resume (ok (a, r)) f = f a r
resume (err e) f = err e
resume panic f = panic

infixl 5 ◌>>=◌ ◌>>◌
abbrev pub ◌>>=◌ : {A B : Type 0} → Read A → (A → Read B) → Read B
◌>>=◌ m f r = resume (m r) f

abbrev pub ◌>>◌ : {A B : Type 0} → Read A → Read B → Read B
m >> k = m >>= λ _. k

abbrev pub return : {A : Type 0} → A → Read A
return a r = ok (a, r)

abbrev pub fail : {A : Type 0} → DecodeError → Read A
fail e r = err e

unfoldable pub or_panic : Option ℕ → Read ℕ
or_panic none r = panic
or_panic (some b) r = ok (b, r)

-- `buf[i]`
unfoldable pub index : List ℕ → ℕ → Read ℕ
unfolding or_panic
index xs i = or_panic (get_elem? xs i)

-- `ok_or(DecodeError::Truncated)`, and the advance by one
unfoldable pub or_truncated : Option ℕ → Read ℕ
or_truncated none r = err truncated
or_truncated (some b) r = ok (b, record r { pos = r.pos + 1 })

unfoldable pub read_u8 : Read ℕ
unfolding or_truncated
read_u8 r = or_truncated (get_elem? r.buf r.pos) r

-- `self.pos += n`
abbrev pub advance : ℕ → Read (Unit {0})
advance n r = ok (tt, record r { pos = r.pos + n })

unfoldable pub read_u16_be : Read ℕ
unfolding index
read_u16_be r =
    if ltb (length r.buf) (r.pos + 2)
    then err truncated
    else (do
      a ← index r.buf r.pos
      b ← index r.buf (r.pos + 1)
      advance 2
      return (from_be_bytes (a ∷ b ∷ [])))
        r

-- `&self.buf[self.pos..self.pos + n]`, which panics out of range
unfoldable pub take_slice : ℕ → Read (List ℕ)
take_slice n r =
    if ltb (length r.buf) (r.pos + n)
    then panic
    else ok (slice r.buf r.pos n, record r { pos = r.pos + n })

unfoldable pub read_bytes : ℕ → Read (List ℕ)
unfolding take_slice
read_bytes n r = if ltb (length r.buf) (r.pos + n) then err truncated else take_slice n r

unfoldable pub read_ber_length : Read ℕ
unfolding read_u8 read_u16_be
read_ber_length = do
  first ← read_u8
  if ltb first 0x80
      then return first
      else if first == 0x81
      then read_u8
      else if first == 0x82
      then read_u16_be
      else fail (unsupported_length_form first)

unfoldable pub expect_tag : ℕ → Read (Unit {0})
unfolding read_u8
expect_tag expected = do
  found ← read_u8
  if found == expected then return tt else fail (unexpected_tag found expected)

unfoldable pub read_tlv : ℕ → Read (List ℕ)
unfolding expect_tag read_ber_length read_bytes
read_tlv expected_tag = do expect_tag expected_tag; len ← read_ber_length; read_bytes len

-- `v = (v << 8) | b` on a `u32`
unfoldable pub decode_int_onto : ℕ → List ℕ → ℕ
decode_int_onto v [] = v
decode_int_onto v (b ∷ bytes) = decode_int_onto (bit_or (v * 256 % 2 ^ 32) b) bytes

unfoldable pub decode_int : List ℕ → ℕ
unfolding decode_int_onto
decode_int bytes = decode_int_onto 0 bytes

-- the length test on an OCTET STRING
unfoldable pub check_size : ℕ → List ℕ → Read (Unit {0})
check_size expected bytes =
    if length bytes == expected then return tt else fail (bad_size expected (length bytes))

-- the octet strings of two, four and one bytes, read byte by byte
unfoldable pub read_smp_cnt : Read ℕ
unfolding read_tlv check_size index
read_smp_cnt = do
  bytes ← read_tlv 0x82
  check_size 2 bytes
  a ← index bytes 0
  b ← index bytes 1
  return (from_be_bytes (a ∷ b ∷ []))

unfoldable pub read_conf_rev : Read ℕ
unfolding read_tlv check_size index
read_conf_rev = do
  bytes ← read_tlv 0x83
  check_size 4 bytes
  a ← index bytes 0
  b ← index bytes 1
  c ← index bytes 2
  d ← index bytes 3
  return (from_be_bytes (a ∷ b ∷ c ∷ d ∷ []))

unfoldable pub read_smp_synch : Read ℕ
unfolding read_tlv check_size index
read_smp_synch = do bytes ← read_tlv 0x85; check_size 1 bytes; index bytes 0

unfoldable pub read_samples : Read SampleData
unfolding read_tlv check_size unpack
read_samples = do
  bytes ← read_tlv 0x87
  check_size sample_payload_bytes bytes
  return (unpack bytes)

-- the six elements of the ASDU
unfoldable pub read_asdu : Read DecodedAsdu
unfolding read_smp_cnt read_conf_rev read_smp_synch read_samples decode_int from_utf8_lossy
read_asdu = do
  sv_id_bytes ← read_tlv 0x80
  smp_cnt ← read_smp_cnt
  conf_rev ← read_conf_rev
  smp_synch ← read_smp_synch
  smp_rate_bytes ← read_tlv 0x86
  samples ← read_samples
  return (record {
    sv_id = from_utf8_lossy sv_id_bytes;
    smp_cnt = smp_cnt;
    conf_rev = conf_rev;
    smp_synch = smp_synch;
    smp_rate = u16 (decode_int smp_rate_bytes);
    samples = samples;
  })

unfoldable pub decode_savpdu_after_ethertype : List ℕ → List ℕ → Read DecodedFrame
unfolding read_asdu
decode_savpdu_after_ethertype dst_mac src_mac = do
  appid ← read_u16_be
  frame_length ← read_u16_be
  read_u16_be
  read_u16_be
  expect_tag 0x60
  read_ber_length
  no_asdu_bytes ← read_tlv 0x80
  expect_tag 0xA2
  read_ber_length
  expect_tag 0x30
  read_ber_length
  asdu ← read_asdu
  return (record {
    dst_mac = dst_mac;
    src_mac = src_mac;
    appid = appid;
    frame_length = frame_length;
    no_asdu = u16 (decode_int no_asdu_bytes);
    asdu = asdu;
  })

-- the SV EtherType, behind a VLAN tag if there is one
unfoldable pub read_ethertype : Read ℕ
unfolding read_u16_be
read_ethertype = do
  ethertype ← read_u16_be
  if ethertype == tpid_8021q then (do read_u16_be; read_u16_be) else return ethertype

unfoldable pub read_frame : Read DecodedFrame
unfolding read_ethertype decode_savpdu_after_ethertype read_bytes
read_frame = do
  dst_mac ← read_bytes 6
  src_mac ← read_bytes 6
  ethertype ← read_ethertype
  if ethertype == ethertype_sv
      then decode_savpdu_after_ethertype dst_mac src_mac
      else fail (not_sv_frame ethertype)

-- the outcome of a read, without the reader
abbrev pub outcome : {A : Type 0} → Outcome DecodeError (A × Reader) → Outcome DecodeError A
outcome (ok (a, r)) = ok a
outcome (err e) = err e
outcome panic = panic

unfoldable pub decode_frame : List ℕ → Outcome DecodeError DecodedFrame
unfolding read_frame
decode_frame buf = outcome (read_frame (record { buf = buf; pos = 0 }))

unfoldable pub decode_l2_stripped_frame : List ℕ → Outcome DecodeError DecodedFrame
unfolding decode_savpdu_after_ethertype
decode_l2_stripped_frame buf =
    outcome (
      decode_savpdu_after_ethertype (replicate 6 0) (replicate 6 0) (record { buf = buf; pos = 0 }))
