-- ===== src/Wire/Frame.antt =====
-- The data of crates/ssiec-sv-publisher/src/lib.rs and its 64-byte sample payload, with the VLAN
-- tag of vendor.rs. An `i32` is its two's-complement pattern below 2 ^ 32; a fixed array is a list,
-- its length in the `IsValid` predicates; a `&str` is its bytes.
pub mod Payload
use svdc.Base.{
  ℕ, zero, suc, ◌+◌, ◌*◌, bit_and, bit_or, Option, none, some, List, [], ◌∷◌, ◌++◌, ◌≡◌, ◌≤◌, ◌<◌,
  length, replicate, take, drop, slice, copy_from_slice, All, IsU8, IsU16, IsU32, u32_be_bytes,
  from_be_bytes, u16,
}

abbrev pub tpid_8021q : ℕ
tpid_8021q = 0x8100

abbrev pub ethertype_sv : ℕ
ethertype_sv = 0x88BA

abbrev pub num_channels : ℕ
num_channels = 8

abbrev pub bytes_per_channel : ℕ
bytes_per_channel = 8

abbrev pub sample_payload_bytes : ℕ
sample_payload_bytes = num_channels * bytes_per_channel

abbrev pub max_frame_bytes : ℕ
max_frame_bytes = 320

pub record ChannelSample : Type 0 where
  pub value : ℕ
  pub quality : ℕ

pub record SampleData : Type 0 where
  pub channels : List ChannelSample

-- `SampleData::pack`, by the channels left from index `i` on
unfoldable pub pack_from : ℕ → List ChannelSample → List ℕ → List ℕ
pack_from i [] out = out
pack_from i (ch ∷ rest) out =
    let base = i * bytes_per_channel in
    let out = copy_from_slice out base (u32_be_bytes ch.value) in
    pack_from (i + 1) rest (copy_from_slice out (base + 4) (u32_be_bytes ch.quality))

unfoldable pub pack : SampleData → List ℕ → List ℕ
unfolding pack_from
pack s out = pack_from 0 s.channels out

-- `SampleData::unpack`, by the channels left from index `i` on
unfoldable pub unpack_from : ℕ → ℕ → List ℕ → List ChannelSample
unpack_from zero i bytes = []
unpack_from (suc n) i bytes =
    let base = i * bytes_per_channel in
    record {
      value = from_be_bytes (slice bytes base 4);
      quality = from_be_bytes (slice bytes (base + 4) 4);
    }
    ∷ unpack_from n (i + 1) bytes

unfoldable pub unpack : List ℕ → SampleData
unfolding unpack_from
unpack bytes = record { channels = unpack_from num_channels 0 bytes }

pub record AsduFields : Type 0 where
  pub sv_id : List ℕ
  pub smp_cnt : ℕ
  pub conf_rev : ℕ
  pub smp_synch : ℕ
  pub smp_rate : ℕ
  pub samples : SampleData

pub record VlanTag : Type 0 where
  pub pcp : ℕ
  pub dei : ℕ
  pub vid : ℕ

-- `<< 13` and `<< 12` on a `u16` lose what leaves it
unfoldable pub tci : VlanTag → ℕ
tci t =
    bit_or (bit_or (u16 (bit_and t.pcp 0x7 * 8192)) (u16 (bit_and t.dei 0x1 * 4096)))
      (bit_and t.vid 0x0FFF)

pub record FrameParams : Type 0 where
  pub dst_mac : List ℕ
  pub src_mac : List ℕ
  pub appid : ℕ
  pub vlan : Option VlanTag

pub data EncodeError : Type 0 where
  buffer_too_small : (needed available : ℕ) → EncodeError
  length_exceeds_16_bit : ℕ → EncodeError

pub data DecodeError : Type 0 where
  truncated : DecodeError
  unexpected_tag : (found expected : ℕ) → DecodeError
  not_sv_frame : (ethertype : ℕ) → DecodeError
  unsupported_length_form : ℕ → DecodeError
  bad_size : (expected actual : ℕ) → DecodeError

pub record DecodedAsdu : Type 0 where
  pub sv_id : List ℕ
  pub smp_cnt : ℕ
  pub conf_rev : ℕ
  pub smp_synch : ℕ
  pub smp_rate : ℕ
  pub samples : SampleData

pub record DecodedFrame : Type 0 where
  pub dst_mac : List ℕ
  pub src_mac : List ℕ
  pub appid : ℕ
  pub frame_length : ℕ
  pub no_asdu : ℕ
  pub asdu : DecodedAsdu

abbrev pub IsChannelSample : ChannelSample → Type 0
IsChannelSample c = IsU32 c.value × IsU32 c.quality

abbrev pub IsSampleData : SampleData → Type 0
IsSampleData s = (length s.channels ≡ num_channels) × All IsChannelSample s.channels

-- the ranges that the field types of the source give
abbrev pub IsAsduFields : AsduFields → Type 0
IsAsduFields a =
    All IsU8 a.sv_id
    × IsU16 a.smp_cnt
    × IsU32 a.conf_rev
    × IsU8 a.smp_synch
    × IsU16 a.smp_rate
    × IsSampleData a.samples

abbrev pub IsFrameParams : FrameParams → Type 0
IsFrameParams p = (length p.dst_mac ≡ 6) × (length p.src_mac ≡ 6) × IsU16 p.appid
