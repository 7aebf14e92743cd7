-- ===== src/Wire/Tests.antt =====
-- The codec of crates/ssiec-sv-publisher/src/lib.rs on the demo frame.
use svdc.Base.{
  ℕ, ◌-◌, ◌^◌, List, [], ◌∷◌, ◌++◌, ◌≡◌, refl, arith, length, replicate, drop, ok, some,
}
use svdc.Wire.Frame.{ChannelSample, SampleData, AsduFields, FrameParams, IsSampleData}
use svdc.Wire.Encode.{encode_frame}
use svdc.Wire.Encode.Layout.{encode_frame_lem, frame_bytes}
use svdc.Wire.Encode.Safe.{Encodes, encode_frame-Encodes}
use svdc.Wire.Decode.{decode_frame, decode_l2_stripped_frame}
use svdc.Wire.Decode.Valid.{Decodes, decode_frame-Decodes}
use svdc.Wire.RoundTrip.{IsSendable, Arrives, decode_frame-encode_frame}

-- a negative `i32`
abbrev minus : ℕ → ℕ
minus v = 2 ^ 32 - v

abbrev good : ℕ → ChannelSample
good value = record { value = value; quality = 0 }

-- `SampleData::NOMINAL_3PH`
abbrev nominal_3ph : SampleData
nominal_3ph = record {
  channels =
      good 5000
      ∷ good (minus 2500)
      ∷ good (minus 2500)
      ∷ good 0
      ∷ good 23000
      ∷ good (minus 11500)
      ∷ good (minus 11500)
      ∷ good 0
      ∷ [];
}

abbrev demo_asdu : AsduFields
demo_asdu = record {
  sv_id = 0x53 ∷ 0x56 ∷ 0x31 ∷ [];
  smp_cnt = 7;
  conf_rev = 1;
  smp_synch = 2;
  smp_rate = 4800;
  samples = nominal_3ph;
}

-- `FrameParams::DEMO`, with a VLAN tag
abbrev demo_params : FrameParams
demo_params = record {
  dst_mac = 0x01 ∷ 0x0C ∷ 0xCD ∷ 0x04 ∷ 0x00 ∷ 0x01 ∷ [];
  src_mac = 0x02 ∷ 0x00 ∷ 0x00 ∷ 0x00 ∷ 0x00 ∷ 0x01 ∷ [];
  appid = 0x4000;
  vlan = some (record { pcp = 4; dei = 0; vid = 100 });
}

nominal-IsSampleData : IsSampleData nominal_3ph
nominal-IsSampleData = (refl, omega arith)

demo-IsSendable : IsSendable demo_params demo_asdu
demo-IsSendable = record {
  params = (refl, refl, omega arith);
  fields = (omega arith, omega arith, omega arith, omega arith, omega arith, nominal-IsSampleData);
  ascii = omega arith;
  short = omega arith;
}

abbrev buffer : List ℕ
buffer = replicate 160 0xAA

decode_frame-encode_frame_example :
    Arrives demo_params demo_asdu (encode_frame demo_params demo_asdu buffer)
decode_frame-encode_frame_example =
    decode_frame-encode_frame demo_params demo_asdu buffer demo-IsSendable (omega arith)

encode_frame_lem_example : encode_frame demo_params demo_asdu buffer ≡ (
  ok (length (frame_bytes demo_params demo_asdu)),
  frame_bytes demo_params demo_asdu ++ drop (length (frame_bytes demo_params demo_asdu)) buffer,
)
unfolding svdc.Wire.Encode.encode_int_u16
encode_frame_lem_example =
    encode_frame_lem demo_params demo_asdu buffer refl (omega arith) (omega arith)

encode_frame-Encodes_example : Encodes 20 (encode_frame demo_params demo_asdu (replicate 20 0))
encode_frame-Encodes_example = encode_frame-Encodes demo_params demo_asdu (replicate 20 0)

decode_frame-Decodes_example :
    Decodes (decode_frame (1 ∷ 2 ∷ 3 ∷ [])) × Decodes (decode_l2_stripped_frame (1 ∷ 2 ∷ 3 ∷ []))
decode_frame-Decodes_example = decode_frame-Decodes (1 ∷ 2 ∷ 3 ∷ []) (omega arith)
