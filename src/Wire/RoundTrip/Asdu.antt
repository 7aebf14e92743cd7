-- ===== src/Wire/RoundTrip/Asdu.antt =====
-- The ASDU that `encode_frame` of crates/ssiec-sv-publisher/src/lib.rs writes, as the decoder reads it.
use svdc.Base.{
  ℕ, ◌/◌, ◌%◌, ◌≤◌, List, [], ◌∷◌, ◌≡◌, refl, arith, length, All, ok, u16_be_bytes, u32_be_bytes,
  u16, IsU16, IsU32, append-nil, from_be_bytes-u16_be_bytes, from_be_bytes-u32_be_bytes,
}
use svdc.Wire.Frame.{
  AsduFields, DecodedAsdu, SampleData, IsAsduFields, IsSampleData, sample_payload_bytes,
}
use svdc.Wire.Frame.Payload.{channels_bytes, length-channels_bytes, unpack-channels_bytes}
use svdc.Wire.Utf8.{IsAscii, from_utf8_lossy-ascii}
use svdc.Wire.Encode.Writes.{asdu_bytes, tlv_bytes, int_octets, length-int_octets}
use svdc.Wire.Decode.{
  read_tlv, decode_int, Reader, Read, ◌>>=◌, read_u16_be, read_smp_cnt, read_conf_rev,
  read_smp_synch, read_samples, read_asdu,
}
use svdc.Wire.Decode.Reads.{Reads, Reads-bind, behind, read_u16_be-Reads, read_tlv-Reads}
use svdc.Wire.Decode.Integers.{decode_int-encode_int_u16}

-- what the decoder makes of one ASDU
abbrev pub decoded_asdu : AsduFields → DecodedAsdu
decoded_asdu a = record {
  sv_id = a.sv_id;
  smp_cnt = a.smp_cnt;
  conf_rev = a.conf_rev;
  smp_synch = a.smp_synch;
  smp_rate = a.smp_rate;
  samples = a.samples;
}

pub read_u16_be_value : (v : ℕ) → IsU16 v → Reads read_u16_be (u16_be_bytes v) v
read_u16_be_value v h =
    rw (from_be_bytes-u16_be_bytes v h) at (read_u16_be-Reads (v / 256 % 256) (v % 256))

-- a computation that ends by returning the value wanted
Reads-pure :
    {A : Type 0} (m : Read A) (a b : A) → ((r : Reader) → m r ≡ ok (a, r)) → a ≡ b → Reads m [] b
Reads-pure m a b h e = record { run = λ bs rest. rw (h (behind bs rest), e, append-nil bs) }

-- an element whose value is then only computed with
read_tlv-then :
    {A : Type 0} (tag : ℕ) (value : List ℕ) (f : List ℕ → Read A) (a b : A)
    → length value ≤ 65535
    → ((r : Reader) → f value r ≡ ok (a, r))
    → a ≡ b
    → Reads (read_tlv tag >>= f) (tlv_bytes tag value) b
read_tlv-then tag value f a b h run e =
    rw (← append-nil (tlv_bytes tag value))
      (Reads-bind f (read_tlv-Reads tag value h) (Reads-pure (f value) a b run e))

read_smp_cnt-Reads : (v : ℕ) → IsU16 v → Reads read_smp_cnt (tlv_bytes 0x82 (u16_be_bytes v)) v
unfolding read_smp_cnt
read_smp_cnt-Reads v h =
    read_tlv-then 0x82 (u16_be_bytes v) _ _ v (omega arith) (λ r. refl)
      (from_be_bytes-u16_be_bytes v h)

read_conf_rev-Reads : (v : ℕ) → IsU32 v → Reads read_conf_rev (tlv_bytes 0x83 (u32_be_bytes v)) v
unfolding read_conf_rev
read_conf_rev-Reads v h =
    read_tlv-then 0x83 (u32_be_bytes v) _ _ v (omega arith) (λ r. refl)
      (from_be_bytes-u32_be_bytes v h)

read_smp_synch-Reads : (v : ℕ) → Reads read_smp_synch (tlv_bytes 0x85 (v ∷ [])) v
unfolding read_smp_synch
read_smp_synch-Reads v = read_tlv-then 0x85 (v ∷ []) _ v v (omega arith) (λ r. refl) refl

read_samples-Reads :
    (s : SampleData)
    → IsSampleData s
    → Reads read_samples (tlv_bytes 0x87 (channels_bytes s.channels)) s
unfolding read_samples
read_samples-Reads s v =
    let size : length (channels_bytes s.channels) ≡ sample_payload_bytes =
      omega (arith, length-channels_bytes s.channels) in
    read_tlv-then 0x87 (channels_bytes s.channels) _ _ s (omega (arith, size)) (λ r. rw size)
      (unpack-channels_bytes s v)

pub read_asdu-Reads :
    (a : AsduFields)
    → IsAsduFields a
    → All IsAscii a.sv_id
    → length a.sv_id ≤ 65535
    → Reads read_asdu (asdu_bytes a) (decoded_asdu a)
unfolding read_asdu
read_asdu-Reads a (_, cnt, rev, synch, rate, samples) ascii h =
    let id = from_utf8_lossy-ascii a.sv_id ascii in
    let smp_rate : u16 (decode_int (int_octets a.smp_rate)) ≡ a.smp_rate =
      omega (arith, decode_int-encode_int_u16 a.smp_rate rate) in
    Reads-bind _ (read_tlv-Reads 0x80 a.sv_id h) (
      Reads-bind _ (read_smp_cnt-Reads a.smp_cnt cnt) (
        Reads-bind _ (read_conf_rev-Reads a.conf_rev rev) (
          Reads-bind _ (read_smp_synch-Reads a.smp_synch) (
            Reads-bind _
              (read_tlv-Reads 0x86 (int_octets a.smp_rate)
                (omega (arith, length-int_octets a.smp_rate)))
              (rw (← append-nil (tlv_bytes 0x87 (channels_bytes a.samples.channels))) (
                Reads-bind _ (read_samples-Reads a.samples samples) (
                  Reads-pure _ _ (decoded_asdu a) (λ r. refl)
                    (λ i. record {
                      sv_id = id i;
                      smp_cnt = a.smp_cnt;
                      conf_rev = a.conf_rev;
                      smp_synch = a.smp_synch;
                      smp_rate = smp_rate i;
                      samples = a.samples;
                    }))))))))
