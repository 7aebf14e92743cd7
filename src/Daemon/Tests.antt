-- ===== src/Daemon/Tests.antt =====
-- The two threads of crates/svdc-bin/src/main.rs on a short run.
use svdc.Base.{ℕ, List, [], ◌∷◌, ◌≡◌, refl, arith, length, replicate, u16_be_bytes}
use svdc.Wire.Encode.Writes.{asdu_bytes}
use svdc.Wire.Encode.Layout.Patch.{patched}
use svdc.Ingress.Decoder.{decode_l2_stripped}
use svdc.Daemon.{Daemon}
use svdc.Daemon.Flow.{Step, datagram, round, run, arrived, no_flow, flow_all}
use svdc.Daemon.Stream.{IsFresh, Progress, run-stream}

abbrev start : Daemon
start = record {
  ring = record { inner = []; capacity = 4096 };
  aligner = record { binner = record { period_ns = 208_333 }; next_tick_id = 0 };
  buffer = record { inner = []; capacity = 256 };
  ticks_emitted = 0;
  seen_mus = [];
}

-- an SV payload without its Ethernet header
abbrev payload : List ℕ
payload = patched (u16_be_bytes 0x4000) (
    asdu_bytes (record {
      sv_id = 0x41 ∷ [];
      smp_cnt = 7;
      conf_rev = 1;
      smp_synch = 2;
      smp_rate = 4800;
      samples = record { channels = replicate 8 (record { value = 5; quality = 0 }) };
    }))

abbrev steps : List Step
steps =
    round (λ i. 1)
    ∷ datagram payload (record { unix_ns = 5 })
    ∷ datagram (1 ∷ 2 ∷ []) (record { unix_ns = 6 })
    ∷ round (λ i. 9)
    ∷ []

-- the first datagram decodes, the second does not
arrived-steps : length (arrived steps) ≡ 1
unfolding decode_l2_stripped svdc.Wire.Decode.decode_l2_stripped_frame
    svdc.Wire.Encode.encode_int_u16
arrived-steps = refl

start-IsFresh : IsFresh start
start-IsFresh = record { no_frames = refl; no_ticks = refl; first_id = refl }

run-stream_example :
    Progress start 4 (arrived steps) (flow_all 4096 steps no_flow) (run steps start)
run-stream_example = run-stream start steps start-IsFresh (omega arith)
