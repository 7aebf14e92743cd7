-- ===== src/Ingress/Decoder.antt =====
-- crates/svdc-ingress/src/decoder.rs: the publisher's decoder behind the ingress' own types.
use svdc.Base.{List, [], ◌∷◌, ℕ, Outcome, ok, err, panic}
use svdc.Wire.Frame.{DecodeError, DecodedAsdu, DecodedFrame}
use svdc.Wire.Decode
use svdc.Ingress.{DecodedSample}

pub data DecodeFailure : Type 0 where
  decode : DecodeError → DecodeFailure

unfoldable pub lift : DecodedAsdu → List DecodedSample
lift asdu =
    record {
      sv_id = asdu.sv_id;
      smp_cnt = asdu.smp_cnt;
      conf_rev = asdu.conf_rev;
      smp_synch = asdu.smp_synch;
      smp_rate = asdu.smp_rate;
      samples = asdu.samples;
    }
    ∷ []

-- `.map_err(DecodeFailure::Decode)?` and the lift of what is left
unfoldable pub lifted :
    Outcome DecodeError DecodedFrame → Outcome DecodeFailure (List DecodedSample)
unfolding lift
lifted (ok dec) = ok (lift dec.asdu)
lifted (err e) = err (decode e)
lifted panic = panic

unfoldable pub decode_frame : List ℕ → Outcome DecodeFailure (List DecodedSample)
unfolding lifted
decode_frame frame = lifted (Decode.decode_frame frame)

unfoldable pub decode_l2_stripped : List ℕ → Outcome DecodeFailure (List DecodedSample)
unfolding lifted
decode_l2_stripped payload = lifted (Decode.decode_l2_stripped_frame payload)
