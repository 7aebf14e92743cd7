-- ===== src/Pcap.antt =====
-- The capture writer of crates/ssiec-sv-publisher/src/pcap_writer.rs, and the loop of `run_pcap` of its main.rs.
-- The file is the bytes that it holds and the number of bytes that it still takes.
pub mod Options
pub mod Accepted
pub mod Reader
pub mod ReadBack
pub mod Identity
mod Tests
use svdc.Base.{
  ℕ, zero, suc, ◌+◌, ◌-◌, ◌*◌, ◌/◌, ◌%◌, ◌^◌, leb, ltb, ◌==◌, if◌then◌else◌, Option, none, some,
  List, [], ◌∷◌, ◌++◌, length, take, replicate, Outcome, ok, err, panic, u16_le_bytes, u32_le_bytes,
}
use svdc.Wire.Frame.{SampleData, AsduFields, FrameParams, EncodeError, max_frame_bytes}
use svdc.Wire.Encode.{encode_frame}

pub data IoError : Type 0 where
  write_zero : IoError

pub record File : Type 0 where
  pub bytes : List ℕ
  pub room : ℕ

unfoldable pub write_all : List ℕ → File → Outcome IoError (Unit {0}) × File
write_all bs f =
    if leb (length bs) f.room
    then (ok tt, record { bytes = f.bytes ++ bs; room = f.room - length bs })
    else (err write_zero, record { bytes = f.bytes ++ take f.room bs; room = 0 })

abbrev linktype_ethernet : ℕ
linktype_ethernet = 1

abbrev snaplen_max : ℕ
snaplen_max = 65535

pub record PcapWriter : Type 0 where
  pub inner : File
  pub frames_written : ℕ

abbrev pub global_header : List ℕ
global_header =
    u32_le_bytes 0xA1B2C3D4
    ++ (u16_le_bytes 2
        ++ (u16_le_bytes 4
            ++ (u32_le_bytes 0
                ++ (u32_le_bytes 0
                    ++ (u32_le_bytes snaplen_max ++ u32_le_bytes linktype_ethernet)))))

unfoldable pub created : Outcome IoError (Unit {0}) → File → Outcome IoError (Unit {0}) × PcapWriter
created o f = (o, record { inner = f; frames_written = 0 })

-- `PcapWriter::new`, with the writer even after a failure, since its file has changed
unfoldable pub new : File → Outcome IoError (Unit {0}) × PcapWriter
unfolding write_all created
new f = let w = write_all global_header f in created (w.0) (w.1)

abbrev pub record_header : ℕ → List ℕ → List ℕ
record_header timestamp_us frame =
    let len = length frame % 2 ^ 32 in
    u32_le_bytes (timestamp_us / 1000000 % 2 ^ 32)
    ++ (u32_le_bytes (timestamp_us % 1000000) ++ (u32_le_bytes len ++ u32_le_bytes len))

-- `?` after the first `write_all`
unfoldable pub then_frame :
    Outcome IoError (Unit {0}) → List ℕ → File → Outcome IoError (Unit {0}) × File
unfolding write_all
then_frame (ok u) frame f = write_all frame f
then_frame (err e) frame f = (err e, f)
then_frame panic frame f = (panic, f)

-- `?` after the second one
unfoldable pub count_written :
    Outcome IoError (Unit {0}) → File → ℕ → Outcome IoError (Unit {0}) × PcapWriter
count_written (ok u) f n = (ok u, record { inner = f; frames_written = n + 1 })
count_written (err e) f n = (err e, record { inner = f; frames_written = n })
count_written panic f n = (panic, record { inner = f; frames_written = n })

unfoldable pub write_frame : ℕ → List ℕ → PcapWriter → Outcome IoError (Unit {0}) × PcapWriter
unfolding write_all then_frame count_written
write_frame timestamp_us frame w =
    let head = write_all (record_header timestamp_us frame) w.inner in
    let body = then_frame (head.0) frame (head.1) in
    count_written (body.0) (body.1) w.frames_written

-- what `run_pcap` sends: the identity of its frames, and the samples of its waveform by their number
pub record Stream : Type 0 where
  pub params : FrameParams
  pub sv_id : List ℕ
  pub conf_rev : ℕ
  pub sample_rate : ℕ
  pub sample : ℕ → SampleData

unfoldable pub clamp_smp_rate : ℕ → ℕ
clamp_smp_rate rate = if ltb 65535 rate then 65535 else rate % 2 ^ 16

-- the fields of `build_frame`, with DEMO_SMP_SYNCH
unfoldable pub asdu_of : Stream → ℕ → AsduFields
unfolding clamp_smp_rate
asdu_of s smp_cnt = record {
  sv_id = s.sv_id;
  smp_cnt = smp_cnt % 2 ^ 16;
  conf_rev = s.conf_rev;
  smp_synch = 2;
  smp_rate = clamp_smp_rate s.sample_rate;
  samples = s.sample smp_cnt;
}

-- `expect`, where nothing stands for its panic
unfoldable pub expect : Outcome EncodeError ℕ → Option ℕ
expect (ok n) = some n
expect (err e) = none
expect panic = none

unfoldable pub write_built :
    ℕ → Option ℕ → List ℕ → PcapWriter → Outcome IoError (Unit {0}) × PcapWriter
write_built timestamp_us none buf w = (panic, w)
write_built timestamp_us (some n) buf w =
    if leb n (length buf) then write_frame timestamp_us (take n buf) w else (panic, w)

-- `?` after the frame, before the rest of the loop
unfoldable pub then_rest :
    Outcome IoError (Unit {0}) × PcapWriter
    → (PcapWriter → Outcome IoError (Unit {0}) × PcapWriter)
    → Outcome IoError (Unit {0}) × PcapWriter
then_rest (ok u, w) rest = rest w
then_rest (err e, w) rest = (err e, w)
then_rest (panic, w) rest = (panic, w)

-- the frames left from number `i` on, with the buffer that they share
unfoldable pub capture :
    Stream → ℕ → ℕ → ℕ → PcapWriter → List ℕ → Outcome IoError (Unit {0}) × PcapWriter
capture s interval zero i w buf = (ok tt, w)
capture s interval (suc n) i w buf =
    let sent = encode_frame s.params (asdu_of s i) buf in
    then_rest (write_built (i * interval) (expect (sent.0)) (sent.1) w)
      (λ w'. capture s interval n (i + 1) w' (sent.1))

-- after the header: the division panics at a rate of 0
unfoldable pub capture_all :
    Stream → ℕ → Outcome IoError (Unit {0}) → PcapWriter → Outcome IoError (Unit {0}) × PcapWriter
capture_all s frames (ok u) w =
    if s.sample_rate == 0
    then (panic, w)
    else capture s (1000000 / s.sample_rate) frames 0 w (replicate max_frame_bytes 0)
capture_all s frames (err e) w = (err e, w)
capture_all s frames panic w = (panic, w)

-- `run_pcap` from the created file to the last frame
unfoldable pub run_pcap : Stream → ℕ → File → Outcome IoError (Unit {0}) × PcapWriter
run_pcap s frames f = let w = new f in capture_all s frames (w.0) (w.1)
