-- ===== src/Wire/Encode.antt =====
-- `Cursor`, the BER writers and `encode_frame` of crates/ssiec-sv-publisher/src/lib.rs.
-- An action returns its outcome beside the cursor, also where it fails: the caller's buffer keeps
-- what was written. Additions on `usize` cannot wrap, since a buffer is below 2 ^ 63 bytes.
pub mod Writes
pub mod Layout
pub mod Safe
use svdc.Base.{
  ℕ, ◌+◌, ◌-◌, ◌/◌, ◌%◌, ◌<◌, ◌≤◌, bit_and, ltb, leb, ◌==◌, if◌then◌else◌, Bool, true, false,
  Option, none, some, List, [], ◌∷◌, length, take, drop, replicate, set, copy_from_slice, Outcome,
  ok, err, panic, u8, u16_be_bytes, u32_be_bytes,
}
use svdc.Wire.Frame.{
  FrameParams, AsduFields, VlanTag, EncodeError, buffer_too_small, length_exceeds_16_bit, tci, pack,
  tpid_8021q, ethertype_sv, sample_payload_bytes,
}

pub record Cursor : Type 0 where
  pub buf : List ℕ
  pub pos : ℕ

abbrev pub Emit : Type 0 → Type 0
Emit A = Cursor → Outcome EncodeError A × Cursor

abbrev pub resume : {A B : Type 0} → Outcome EncodeError A → (A → Emit B) → Emit B
resume (ok a) f c = f a c
resume (err e) f c = (err e, c)
resume panic f c = (panic, c)

infixl 5 ◌>>=◌ ◌>>◌
abbrev pub ◌>>=◌ : {A B : Type 0} → Emit A → (A → Emit B) → Emit B
◌>>=◌ m f c = resume (m c).0 f (m c).1

abbrev pub ◌>>◌ : {B : Type 0} → Emit (Unit {0}) → Emit B → Emit B
m >> k = m >>= λ _. k

abbrev pub return : {A : Type 0} → A → Emit A
return a c = (ok a, c)

abbrev pub fail : {A : Type 0} → EncodeError → Emit A
fail e c = (err e, c)

-- `cur.pos`
abbrev pub position : Emit ℕ
position c = (ok c.pos, c)

unfoldable pub remaining : Cursor → ℕ
remaining c = length c.buf - c.pos

unfoldable pub write : List ℕ → Emit (Unit {0})
unfolding remaining
write bytes c =
    if ltb (remaining c) (length bytes)
    then (err (buffer_too_small (c.pos + length bytes) (length c.buf)), c)
    else (ok tt, record { buf = copy_from_slice c.buf c.pos bytes; pos = c.pos + length bytes })

abbrev pub write_u8 : ℕ → Emit (Unit {0})
write_u8 byte = write (byte ∷ [])

abbrev pub write_u16_be : ℕ → Emit (Unit {0})
write_u16_be value = write (u16_be_bytes value)

unfoldable pub reserve_length16 : Emit ℕ
unfolding write
reserve_length16 = do write_u8 0x82; len_pos ← position; write_u16_be 0; return len_pos

-- `self.buf[i] = byte`, which panics out of range
unfoldable pub poke : ℕ → ℕ → Emit (Unit {0})
poke i byte c =
    if ltb i (length c.buf) then (ok tt, record c { buf = set c.buf i byte }) else (panic, c)

-- `self.pos - (len_pos + 2)`, which panics below zero
unfoldable pub written_since : ℕ → Emit ℕ
written_since start c = if ltb c.pos start then (panic, c) else (ok (c.pos - start), c)

-- the test against `u16::MAX`, and the two stores of the big-endian length
unfoldable pub store_length : ℕ → ℕ → Emit (Unit {0})
unfolding poke
store_length len_pos n =
    if ltb 65535 n
    then fail (length_exceeds_16_bit n)
    else (do poke len_pos (n / 256 % 256); poke (len_pos + 1) (n % 256))

unfoldable pub patch_length16 : ℕ → Emit (Unit {0})
unfolding store_length written_since
patch_length16 len_pos = do inner_len ← written_since (len_pos + 2); store_length len_pos inner_len

unfoldable pub write_length : List ℕ → Emit (Unit {0})
unfolding write
write_length value =
    if ltb (length value) 128
    then write_u8 (length value)
    else if leb (length value) 65535
    then (do write_u8 0x82; write_u16_be (length value))
    else fail (length_exceeds_16_bit (length value))

unfoldable pub write_primitive_tlv : ℕ → List ℕ → Emit (Unit {0})
unfolding write_length
write_primitive_tlv tag value = do write_u8 tag; write_length value; write value

-- the array and how much of it is used
unfoldable pub encode_int_u16 : ℕ → List ℕ × ℕ
encode_int_u16 value =
    if value == 0
    then (0 ∷ 0 ∷ 0 ∷ [], 1)
    else if ltb value 0x80
    then (u8 value ∷ 0 ∷ 0 ∷ [], 1)
    else if ltb value 0x8000
    then (u8 (value / 256) ∷ u8 (bit_and value 0xFF) ∷ 0 ∷ [], 2)
    else (0x00 ∷ u8 (value / 256) ∷ u8 (bit_and value 0xFF) ∷ [], 3)

-- `write_primitive_tlv(&mut cur, tag, &buf[..n])` on the result of `encode_int_u16`
unfoldable pub write_int : ℕ → ℕ → Emit (Unit {0})
unfolding encode_int_u16 write_primitive_tlv
write_int tag value =
    let (int_buf, n) = encode_int_u16 value in write_primitive_tlv tag (take n int_buf)

unfoldable pub write_vlan : Option VlanTag → Emit (Unit {0})
unfolding write
write_vlan none = return tt
write_vlan (some tag) = do write_u16_be tpid_8021q; write_u16_be (tci tag)

-- the Ethernet II header, with the 802.1Q tag if one is configured
unfoldable pub write_ethernet : FrameParams → Emit (Unit {0})
unfolding write_vlan
write_ethernet params = do
  write params.dst_mac
  write params.src_mac
  write_vlan params.vlan
  write_u16_be ethertype_sv

-- the six elements of the ASDU
unfoldable pub write_asdu : AsduFields → Emit (Unit {0})
unfolding write_primitive_tlv write_int pack
write_asdu asdu = do
  write_primitive_tlv 0x80 asdu.sv_id
  write_primitive_tlv 0x82 (u16_be_bytes asdu.smp_cnt)
  write_primitive_tlv 0x83 (u32_be_bytes asdu.conf_rev)
  write_primitive_tlv 0x85 (asdu.smp_synch ∷ [])
  write_int 0x86 asdu.smp_rate
  write_primitive_tlv 0x87 (pack asdu.samples (replicate sample_payload_bytes 0))

-- The 9-2 LE Length field counts the 8-byte 9-2 header too.
unfoldable pub patch_total : ℕ → ℕ → Emit (Unit {0})
unfolding written_since store_length
patch_total nine2_len_pos nine2_payload_start = do
  nine2_payload_len ← written_since nine2_payload_start
  let nine2_total = nine2_payload_len + 8
  store_length nine2_len_pos nine2_total

unfoldable pub write_frame : FrameParams → AsduFields → Emit ℕ
unfolding write_ethernet reserve_length16 write_asdu patch_length16 patch_total
write_frame params asdu = do
  write_ethernet params
  write_u16_be params.appid
  nine2_len_pos ← position
  write_u16_be 0
  write_u16_be 0
  write_u16_be 0
  nine2_payload_start ← position
  write_u8 0x60
  savpdu_len_pos ← reserve_length16
  write_int 0x80 1
  write_u8 0xA2
  asdu_seq_len_pos ← reserve_length16
  write_u8 0x30
  asdu_len_pos ← reserve_length16
  write_asdu asdu
  patch_length16 asdu_len_pos
  patch_length16 asdu_seq_len_pos
  patch_length16 savpdu_len_pos
  patch_total nine2_len_pos nine2_payload_start
  position

-- the outcome, and the caller's buffer afterwards
unfoldable pub encode_frame : FrameParams → AsduFields → List ℕ → Outcome EncodeError ℕ × List ℕ
unfolding write_frame
encode_frame params asdu out =
    let (r, cur) = write_frame params asdu (record { buf = out; pos = 0 }) in (r, cur.buf)

-- `l2_header_len` and the payload `&buf[l2_header_len..n]` of the UDP transport in main.rs
unfoldable pub l2_header_len : FrameParams → ℕ
l2_header_len params = 14 + vlan_len params.vlan
  where
    vlan_len : Option VlanTag → ℕ
    vlan_len none = 0
    vlan_len (some tag) = 4

unfoldable pub udp_payload : FrameParams → ℕ → List ℕ → List ℕ
unfolding l2_header_len
udp_payload params n buf = drop (l2_header_len params) (take n buf)
