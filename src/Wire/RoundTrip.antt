-- ===== src/Wire/RoundTrip.antt =====
-- `encode_frame` and the decoders of crates/ssiec-sv-publisher/src/lib.rs, one after the other.
pub mod Asdu
use svdc.Base.{
  ℕ, ◌+◌, ◌*◌, ◌/◌, ◌%◌, ◌^◌, ◌≤◌, ◌<◌, ltb, ◌==◌, if◌then◌else◌, Option, none, some, List, [], ◌∷◌,
  ◌++◌, ◌≡◌, ◌≢◌, refl, sym, ap, ◌∙◌, arith, length, take, drop, replicate, All, Outcome, ok, err,
  u16_be_bytes, u32_be_bytes, u16, from_be_bytes, IsU16, IsU32, append_assoc, append-nil,
  take-length-append, drop-length-append, ==_self, from_be_bytes-u16_be_bytes,
  from_be_bytes-u32_be_bytes, length-append, length-replicate,
}
use svdc.Wire.Frame.{
  num_channels, FrameParams, AsduFields, DecodedAsdu, DecodedFrame, VlanTag, SampleData,
  IsAsduFields, IsFrameParams, IsSampleData, tpid_8021q, ethertype_sv, EncodeError, max_frame_bytes,
  sample_payload_bytes, tci,
}
use svdc.Wire.Frame.Payload.{channels_bytes, length-channels_bytes, unpack-channels_bytes}
use svdc.Wire.Utf8.{IsAscii, from_utf8_lossy, from_utf8_lossy-ascii}
use svdc.Wire.Encode.{l2_header_len, udp_payload, encode_frame, encode_int_u16}
use svdc.Wire.Encode.Writes.{
  asdu_bytes, ethernet_bytes, vlan_bytes, tlv_bytes, int_octets, length-int_octets,
  length-asdu_bytes, length-ber_length,
}
use svdc.Wire.Encode.Layout.{frame_bytes, frame_head, encode_frame_lem, length-frame_bytes}
use svdc.Wire.Encode.Layout.Patch.{patched}
use svdc.Wire.Decode.{
  read_u8, read_ber_length, read_tlv, decode_int, Reader, Read, ◌>>=◌, ◌>>◌, return, read_u16_be,
  read_bytes, read_smp_cnt, read_conf_rev, read_smp_synch, read_samples, read_asdu, check_size,
  index, decode_savpdu_after_ethertype, read_ethertype, read_frame, decode_frame,
  decode_l2_stripped_frame, outcome,
}
use svdc.Wire.Decode.Reads.{
  read_u8-Reads, Reads, Reads-bind, Reads-return, behind, read_u16_be-Reads, read_bytes-Reads,
  expect_tag-Reads, read_ber_length-Reads, read_tlv-Reads,
}
use svdc.Wire.Decode.Integers.{decode_int-encode_int_u16}
use svdc.Wire.RoundTrip.Asdu.{decoded_asdu, read_u16_be_value, read_asdu-Reads}

-- what the decoder makes of a frame, given the addresses that the transport kept
abbrev pub decoded_frame : List ℕ → List ℕ → FrameParams → AsduFields → DecodedFrame
decoded_frame dst_mac src_mac p a = record {
  dst_mac = dst_mac;
  src_mac = src_mac;
  appid = p.appid;
  frame_length = length (asdu_bytes a) + 23;
  no_asdu = 1;
  asdu = decoded_asdu a;
}

read_long_length : (n : ℕ) → IsU16 n → Reads read_ber_length (0x82 ∷ u16_be_bytes n) n
unfolding read_ber_length
read_long_length n h = Reads-bind _ (read_u8-Reads 0x82) (read_u16_be_value n h)

-- The 9-2 frame from its APPID on.
savpdu-Reads :
    (dst src : List ℕ) (p : FrameParams) (a : AsduFields)
    → IsU16 p.appid
    → IsAsduFields a
    → All IsAscii a.sv_id
    → length (asdu_bytes a) + 23 ≤ 65535
    → Reads
        (decode_savpdu_after_ethertype dst src)
        (patched (u16_be_bytes p.appid) (asdu_bytes a))
        (decoded_frame dst src p a)
unfolding decode_savpdu_after_ethertype
savpdu-Reads dst src p a hp ha ascii hn =
    let n : ℕ = length (asdu_bytes a) in
    let short : length a.sv_id ≤ 65535 = omega (arith, length-asdu_bytes a ha.5.0, hn) in
    let result : Reads (return (decoded_frame dst src p a)) [] (decoded_frame dst src p a) =
      Reads-return (decoded_frame dst src p a) in
    rw (← append-nil (asdu_bytes a)) (
      Reads-bind _ (read_u16_be_value p.appid hp) (
        Reads-bind _ (read_u16_be_value (n + 23) (omega arith)) (
          Reads-bind _ (read_u16_be_value 0 (omega arith)) (
            Reads-bind _ (read_u16_be_value 0 (omega arith)) (
              Reads-bind _ (expect_tag-Reads 0x60) (
                Reads-bind _ (read_long_length (n + 11) (omega arith)) (
                  Reads-bind _ (read_tlv-Reads 0x80 (1 ∷ []) (omega arith)) (
                    Reads-bind _ (expect_tag-Reads 0xA2) (
                      Reads-bind _ (read_long_length (n + 4) (omega arith)) (
                        Reads-bind _ (expect_tag-Reads 0x30) (
                          Reads-bind _ (read_long_length n (omega arith))
                            (Reads-bind _ (read_asdu-Reads a ha ascii short) result))))))))))))

read_ethertype-Reads :
    (v : Option VlanTag)
    → Reads read_ethertype (vlan_bytes v ++ u16_be_bytes ethertype_sv) ethertype_sv
unfolding read_ethertype
read_ethertype-Reads none =
    Reads-bind _ (read_u16_be_value ethertype_sv (omega arith)) (Reads-return ethertype_sv)
read_ethertype-Reads (some tag) = Reads-bind _ (read_u16_be_value tpid_8021q (omega arith)) (
    Reads-bind _ (read_u16_be-Reads (tci tag / 256 % 256) (tci tag % 256))
      (read_u16_be_value ethertype_sv (omega arith)))

frame-Reads :
    (p : FrameParams) (a : AsduFields)
    → IsFrameParams p
    → IsAsduFields a
    → All IsAscii a.sv_id
    → length (asdu_bytes a) + 23 ≤ 65535
    → Reads read_frame (frame_bytes p a) (decoded_frame p.dst_mac p.src_mac p a)
unfolding read_frame
frame-Reads p a hp ha ascii hn =
    let inner = patched (u16_be_bytes p.appid) (asdu_bytes a) in
    let shape : frame_bytes p a
        ≡ p.dst_mac ++ (p.src_mac ++ ((vlan_bytes p.vlan ++ u16_be_bytes ethertype_sv) ++ inner)) =
      simp append_assoc in
    rw shape (
      Reads-bind _ (read_bytes-Reads p.dst_mac 6 (sym hp.0)) (
        Reads-bind _ (read_bytes-Reads p.src_mac 6 (sym hp.1)) (
          Reads-bind _ (read_ethertype-Reads p.vlan)
            (savpdu-Reads p.dst_mac p.src_mac p a hp.2 ha ascii hn))))

outcome_of_Reads :
    {A : Type 0} {m : Read A} {xs : List ℕ} {a : A}
    → Reads m xs a
    → outcome (m (record { buf = xs; pos = 0 })) ≡ ok a
outcome_of_Reads {m} {xs} r =
    let all : m (record { buf = xs ++ []; pos = 0 }) ≡ _ = r.run [] [] in rw (← append-nil xs, all)

-- what a frame needs to be sent: field ranges, and an identifier in ASCII that leaves the 16-bit
-- length fields enough
pub record IsSendable (p : FrameParams) (a : AsduFields) : Type 0 where
  pub params : IsFrameParams p
  pub fields : IsAsduFields a
  pub ascii : All IsAscii a.sv_id
  pub short : length a.sv_id ≤ 65424

module _ (p : FrameParams) (a : AsduFields) (v : IsSendable p a) where
  fits_length16 : length (asdu_bytes a) + 23 ≤ 65535
  fits_length16 = grind (
    arith,
    length-asdu_bytes a v.fields.5.0,
    length-int_octets a.smp_rate,
    length-ber_length (length a.sv_id),
    v.short,
  )

  decode_frame-frame_bytes :
      decode_frame (frame_bytes p a) ≡ ok (decoded_frame p.dst_mac p.src_mac p a)
  unfolding decode_frame
  decode_frame-frame_bytes =
      outcome_of_Reads (frame-Reads p a v.params v.fields v.ascii fits_length16)

  decode_l2_stripped_frame-patched :
      decode_l2_stripped_frame (patched (u16_be_bytes p.appid) (asdu_bytes a))
      ≡ ok (decoded_frame (replicate 6 0) (replicate 6 0) p a)
  unfolding decode_l2_stripped_frame
  decode_l2_stripped_frame-patched =
      outcome_of_Reads
        (savpdu-Reads (replicate 6 0) (replicate 6 0) p a v.params.2 v.fields v.ascii fits_length16)

  l2_header_len-frame_bytes :
      drop (l2_header_len p) (frame_bytes p a) ≡ patched (u16_be_bytes p.appid) (asdu_bytes a)
  unfolding l2_header_len
  l2_header_len-frame_bytes =
      let shape : frame_bytes p a
          ≡ ethernet_bytes p ++ patched (u16_be_bytes p.appid) (asdu_bytes a) =
        simp append_assoc in
      let len : l2_header_len p ≡ length (ethernet_bytes p) = grind (
        arith,
        length-append p.dst_mac (p.src_mac ++ (vlan_bytes p.vlan ++ u16_be_bytes ethertype_sv)),
        length-append p.src_mac (vlan_bytes p.vlan ++ u16_be_bytes ethertype_sv),
        length-append (vlan_bytes p.vlan) (u16_be_bytes ethertype_sv),
        v.params.0,
        v.params.1,
      ) in
      rw (shape, len) (drop-length-append (ethernet_bytes p) _)

-- The frame left in a buffer decodes to the fields given, from the wire and from a UDP datagram,
-- which is without the Ethernet header.
pub record Arrives (p : FrameParams) (a : AsduFields) (sent : Outcome EncodeError ℕ × List ℕ)
    : Type 0 where
  pub n : ℕ
  pub returned : sent.0 ≡ ok n
  pub bound : n ≤ length a.sv_id + 129
  pub on_wire : decode_frame (take n sent.1) ≡ ok (decoded_frame p.dst_mac p.src_mac p a)
  pub over_udp :
      decode_l2_stripped_frame (udp_payload p n sent.1)
      ≡ ok (decoded_frame (replicate 6 0) (replicate 6 0) p a)

-- For fields in range, an identifier in ASCII of at most 65424 bytes and a buffer of 129 bytes more
-- than it, `encode_frame` succeeds; what it leaves decodes, on the wire and over UDP, to the same
-- fields (over UDP with zero addresses).
pub decode_frame-encode_frame :
    (p : FrameParams) (a : AsduFields) (out : List ℕ)
    → IsSendable p a
    → length a.sv_id + 129 ≤ length out
    → Arrives p a (encode_frame p a out)
unfolding udp_payload
decode_frame-encode_frame p a out v room =
    let bytes : List ℕ = frame_bytes p a in
    let small = length-frame_bytes p a v.params v.fields.5.0 in
    let rest = drop (length bytes) out in
    rw (encode_frame_lem p a out v.fields.5.0 (fits_length16 p a v) (omega (arith, small)))
      (record {
        n = length bytes;
        returned = refl;
        bound = small;
        on_wire = rw (take-length-append bytes rest) (decode_frame-frame_bytes p a v);
        over_udp =
            rw (take-length-append bytes rest, l2_header_len-frame_bytes p a v)
              (decode_l2_stripped_frame-patched p a v);
      })

-- For fields in range and an ASCII identifier of at most 191 bytes, a zeroed array of
-- `MAX_FRAME_BYTES` is room enough: `encode_frame` succeeds, and the frame decodes to the same
-- fields.
pub encode_frame-max_frame_bytes :
    (p : FrameParams) (a : AsduFields)
    → IsSendable p a
    → length a.sv_id ≤ 191
    → Arrives p a (encode_frame p a (replicate max_frame_bytes 0))
encode_frame-max_frame_bytes p a v h =
    decode_frame-encode_frame p a (replicate max_frame_bytes 0) v
      (omega (arith, length-replicate {A = ℕ} max_frame_bytes 0))
