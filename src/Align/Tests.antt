-- ===== src/Align/Tests.antt =====
-- The aligner and the tick buffer of crates/svdc-aligner on short runs.
use svdc.Base.{◌+◌, min, List, [], ◌∷◌, ◌≡◌, refl, arith, length, take, reverse, ok, err}
use svdc.Core.Tick
use svdc.Core.Tick.{TickRecord}
use svdc.Ingress.{IngressFrame}
use svdc.Align.{Aligner}
use svdc.Align.Ticks.{IsStream, process_frames, process_frames-IsStream}
use svdc.Align.Buffer
use svdc.Align.Buffer.{TickBuffer, recent, verify_all}
use svdc.Align.Buffer.Sweep.{IsIntact, verify_all-push_all}
use svdc.Align.Buffer.Window.{push_all, recent-push_all}

abbrev frame : IngressFrame
frame = record {
  timestamp = record { unix_ns = 1000 };
  samples =
      record {
        sv_id = 0x41 ∷ [];
        smp_cnt = 0;
        conf_rev = 1;
        smp_synch = 2;
        smp_rate = 4800;
        samples = record {
          channels = record { value = 5; quality = 0x103 } ∷ record { value = 6; quality = 0 } ∷ [];
        };
      }
      ∷ [];
}

abbrev aligner : Aligner
aligner = record { binner = record { period_ns = 208_333 }; next_tick_id = 41 }

process_frames-IsStream_example :
    IsStream 41 (frame ∷ frame ∷ []) (process_frames aligner (frame ∷ frame ∷ [])).0
    × ((process_frames aligner (frame ∷ frame ∷ [])).1.next_tick_id
        ≡ 41 + length (frame ∷ frame ∷ []))
process_frames-IsStream_example = process_frames-IsStream aligner (frame ∷ frame ∷ []) (omega arith)

abbrev stamped : TickRecord
stamped = Tick.stamp_crc (Tick.empty 0 10)

-- a CRC that does not fit
abbrev altered : TickRecord
altered = record (Tick.empty 1 20) { crc = 1 }

abbrev pair : TickBuffer
pair = record { inner = []; capacity = 2 }

abbrev three : List TickRecord
three = Tick.empty 0 10 ∷ Tick.empty 1 20 ∷ Tick.empty 2 30 ∷ []

new-pair : Buffer.new 2 ≡ ok pair
unfolding Buffer.new
new-pair = refl

recent-push_all_example : recent (push_all pair three) 5 ≡ take (min 5 2) (reverse three)
recent-push_all_example = recent-push_all 2 5 pair three new-pair

stamped-IsIntact : IsIntact stamped
unfolding Tick.stamp_crc Tick.verify_crc
stamped-IsIntact = refl

altered_report : Tick.verify_crc altered ≡ err (record { tick_id = 1; stored = 1; computed = 0 })
unfolding Tick.verify_crc
altered_report = refl

verify_all-push_all_example :
    (verify_all (push_all pair (stamped ∷ altered ∷ []))
      ≡ record { tick_id = 1; stored = 1; computed = 0 } ∷ [])
    × (verify_all (push_all pair (stamped ∷ [])) ≡ [])
verify_all-push_all_example =
    verify_all-push_all 2 pair (stamped ∷ []) [] altered
      (record { tick_id = 1; stored = 1; computed = 0 }) new-pair (stamped-IsIntact, tt) tt
      altered_report (omega arith)
