-- ===== src/Wire/Encode/Writes.antt =====
-- What the writers of crates/ssiec-sv-publisher/src/lib.rs append, where there is room for it.
use native.Mathlib.Omega.{arith}
use svdc.Base.{
  ℕ, ◌+◌, ◌-◌, ◌≤◌, ltb, leb, if◌then◌else◌, true, false, Option, none, some, List, [], ◌∷◌, ◌++◌,
  ◌≡◌, refl, length, take, drop, ok, u16_be_bytes, u32_be_bytes, length-append, length-drop,
  drop-drop, copy_from_slice-append, append_assoc, append-nil, replicate, Bool-cases, inl, inr,
  le→not_ltb,
}
use svdc.Wire.Frame.{
  FrameParams, AsduFields, VlanTag, tpid_8021q, ethertype_sv, tci, num_channels,
  sample_payload_bytes,
}
use svdc.Wire.Frame.Payload.{channels_bytes, length-channels_bytes, pack_lem}
use svdc.Wire.Encode.{
  Cursor, Emit, ◌>>◌, write, write_length, write_primitive_tlv, encode_int_u16, write_int,
  write_vlan, write_ethernet, write_asdu,
}

-- the cursor behind the bytes `bs`, with `rest` still to be overwritten
abbrev pub at : List ℕ → List ℕ → Cursor
at bs rest = record { buf = bs ++ rest; pos = length bs }

-- `m` appends `xs` wherever they fit
pub record Writes (m : Emit (Unit {0})) (xs : List ℕ) : Type 0 where
  pub run :
      (bs rest : List ℕ)
      → length xs ≤ length rest
      → m (at bs rest) ≡ (ok tt, at (bs ++ xs) (drop (length xs) rest))

pub write-Writes : (xs : List ℕ) → Writes (write xs) xs
unfolding write
write-Writes xs = record {
  run = λ bs rest h.
      let room : ltb (length (bs ++ rest) - length bs) (length xs) ≡ false =
        le→not_ltb _ _ (omega (arith, length-append bs rest)) in
      rw (room, copy_from_slice-append bs rest xs, length-append bs xs);
}

pub Writes-bind :
    {m k : Emit (Unit {0})} {xs ys : List ℕ}
    → Writes m xs
    → Writes k ys
    → Writes (m >> k) (xs ++ ys)
Writes-bind {xs} {ys} wm wk = record {
  run = λ bs rest h.
      let sum = length-append xs ys in
      let first = wm.run bs rest (omega arith) in
      let second =
        wk.run (bs ++ xs) (drop (length xs) rest) (omega (arith, length-drop (length xs) rest)) in
      rw (first, second, drop-drop (length xs) (length ys) rest, append_assoc bs xs ys, sum);
}

-- the length octets: short form below 128, else `0x82` and two bytes
abbrev pub ber_length : ℕ → List ℕ
ber_length n = if ltb n 128 then n ∷ [] else 0x82 ∷ u16_be_bytes n

abbrev pub tlv_bytes : ℕ → List ℕ → List ℕ
tlv_bytes tag value = tag ∷ (ber_length (length value) ++ value)

write_length-Writes :
    (value : List ℕ)
    → length value ≤ 65535
    → Writes (write_length value) (ber_length (length value))
unfolding write_length
write_length-Writes value h = elim (Bool-cases (ltb (length value) 128)) [
  | inl e ↦ rw e (write-Writes (length value ∷ []))
  | inr e ↦
      let fits : leb (length value) 65535 ≡ true = ground arith in
      rw (e, fits)
        (Writes-bind (write-Writes (0x82 ∷ [])) (write-Writes (u16_be_bytes (length value))))
]

pub write_primitive_tlv-Writes :
    (tag : ℕ) (value : List ℕ)
    → length value ≤ 65535
    → Writes (write_primitive_tlv tag value) (tlv_bytes tag value)
unfolding write_primitive_tlv
write_primitive_tlv-Writes tag value h =
    Writes-bind (write-Writes (tag ∷ []))
      (Writes-bind (write_length-Writes value h) (write-Writes value))

-- the octets of a BER INTEGER
abbrev pub int_octets : ℕ → List ℕ
int_octets value = let (int_buf, n) = encode_int_u16 value in take n int_buf

pub length-int_octets :
    (value : ℕ) → (1 ≤ length (int_octets value)) × (length (int_octets value) ≤ 3)
unfolding encode_int_u16
length-int_octets value = ground arith

pub write_int-Writes :
    (tag value : ℕ) → Writes (write_int tag value) (tlv_bytes tag (int_octets value))
unfolding write_int
write_int-Writes tag value =
    write_primitive_tlv-Writes tag (int_octets value) (omega (arith, length-int_octets value))

abbrev pub vlan_bytes : Option VlanTag → List ℕ
vlan_bytes none = []
vlan_bytes (some tag) = u16_be_bytes tpid_8021q ++ u16_be_bytes (tci tag)

write_vlan-Writes : (v : Option VlanTag) → Writes (write_vlan v) (vlan_bytes v)
unfolding write_vlan
write_vlan-Writes none = record { run = λ bs rest h. rw append-nil refl }
write_vlan-Writes (some tag) =
    Writes-bind (write-Writes (u16_be_bytes tpid_8021q)) (write-Writes (u16_be_bytes (tci tag)))

abbrev pub ethernet_bytes : FrameParams → List ℕ
ethernet_bytes p = p.dst_mac ++ (p.src_mac ++ (vlan_bytes p.vlan ++ u16_be_bytes ethertype_sv))

pub write_ethernet-Writes : (p : FrameParams) → Writes (write_ethernet p) (ethernet_bytes p)
unfolding write_ethernet
write_ethernet-Writes p = Writes-bind (write-Writes p.dst_mac) (
    Writes-bind (write-Writes p.src_mac)
      (Writes-bind (write_vlan-Writes p.vlan) (write-Writes (u16_be_bytes ethertype_sv))))

abbrev pub asdu_bytes : AsduFields → List ℕ
asdu_bytes a =
    tlv_bytes 0x80 a.sv_id
    ++ (tlv_bytes 0x82 (u16_be_bytes a.smp_cnt)
        ++ (tlv_bytes 0x83 (u32_be_bytes a.conf_rev)
            ++ (tlv_bytes 0x85 (a.smp_synch ∷ [])
                ++ (tlv_bytes 0x86 (int_octets a.smp_rate)
                    ++ tlv_bytes 0x87 (channels_bytes a.samples.channels)))))

pub write_asdu-Writes :
    (a : AsduFields)
    → length a.sv_id ≤ 65535
    → length a.samples.channels ≡ num_channels
    → Writes (write_asdu a) (asdu_bytes a)
unfolding write_asdu
write_asdu-Writes a hs hc = rw (pack_lem a.samples (replicate sample_payload_bytes 0) hc refl) (
    Writes-bind (write_primitive_tlv-Writes 0x80 a.sv_id hs) (
      Writes-bind (write_primitive_tlv-Writes 0x82 (u16_be_bytes a.smp_cnt) (omega arith)) (
        Writes-bind (write_primitive_tlv-Writes 0x83 (u32_be_bytes a.conf_rev) (omega arith)) (
          Writes-bind (write_primitive_tlv-Writes 0x85 (a.smp_synch ∷ []) (omega arith)) (
            Writes-bind (write_int-Writes 0x86 a.smp_rate) (
              write_primitive_tlv-Writes 0x87 (channels_bytes a.samples.channels)
                (omega (arith, length-channels_bytes a.samples.channels))))))))

pub length-tlv_bytes :
    (tag : ℕ) (value : List ℕ)
    → length (tlv_bytes tag value) ≡ 1 + length (ber_length (length value)) + length value
length-tlv_bytes tag value = omega (arith, length-append (ber_length (length value)) value)

pub length-ber_length : (n : ℕ) → length (ber_length n) ≡ (if ltb n 128 then 1 else 3)
length-ber_length n = ground arith

-- How long the six elements are: all but the identifier and the rate have a fixed size.
pub length-asdu_bytes :
    (a : AsduFields)
    → length a.samples.channels ≡ num_channels
    → length (asdu_bytes a)
      ≡ length (ber_length (length a.sv_id)) + length a.sv_id + length (int_octets a.smp_rate) + 82
length-asdu_bytes a h =
    let t1 = tlv_bytes 0x80 a.sv_id in
    let t5 = tlv_bytes 0x86 (int_octets a.smp_rate) in
    let t6 = tlv_bytes 0x87 (channels_bytes a.samples.channels) in
    let l1 = length-tlv_bytes 0x80 a.sv_id in
    let l5 = length-tlv_bytes 0x86 (int_octets a.smp_rate) in
    let l6 = length-tlv_bytes 0x87 (channels_bytes a.samples.channels) in
    let eight = length-channels_bytes a.samples.channels in
    let small : length (ber_length (length (int_octets a.smp_rate))) ≡ 1 =
      grind
        (arith, length-ber_length (length (int_octets a.smp_rate)), length-int_octets a.smp_rate) in
    let payload : length (ber_length (length (channels_bytes a.samples.channels))) ≡ 1 =
      grind (arith, length-ber_length (length (channels_bytes a.samples.channels))) in
    let tail : List ℕ =
      tlv_bytes 0x82 (u16_be_bytes a.smp_cnt)
      ++ (tlv_bytes 0x83 (u32_be_bytes a.conf_rev)
          ++ (tlv_bytes 0x85 (a.smp_synch ∷ []) ++ (t5 ++ t6))) in
    omega (arith, length-append t1 tail, length-append t5 t6, l1, l5, l6, small, payload, eight)
