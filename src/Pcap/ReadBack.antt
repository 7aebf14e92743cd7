-- ===== src/Pcap/ReadBack.antt =====
-- The captures of crates/ssiec-sv-publisher/src/pcap_writer.rs, read by the layout of the format.
use svdc.Base.{
  ℕ, zero, suc, ◌+◌, ◌-◌, ◌*◌, ◌/◌, ◌%◌, ◌^◌, ◌≤◌, ◌<◌, ◌≡◌, refl, leb, ◌==◌, some, List, [], ◌∷◌,
  ◌++◌, true, false, length, take, replicate, Outcome, ok, err, panic, ok-injective, err-ne-ok,
  panic-ne-ok, arith, append_assoc, append-nil, length-append, length-take, length-replicate, All,
  IsU8, IsU16, IsU32, sym, ap, ◌∙◌,
}
use svdc.Wire.Frame.{
  AsduFields, FrameParams, IsFrameParams, IsSampleData, EncodeError, max_frame_bytes,
}
use svdc.Wire.Encode.{encode_frame}
use svdc.Wire.Encode.Safe.{Encodes, encode_frame-Encodes}
use svdc.Wire.Decode.{decode_frame}
use svdc.Wire.RoundTrip.{IsSendable, Arrives, decoded_frame, decode_frame-encode_frame}
use svdc.Wire.Utf8.{IsAscii}
use svdc.Pcap.{
  IoError, write_all, PcapWriter, global_header, record_header, then_frame, count_written,
  write_frame, Stream, clamp_smp_rate, asdu_of, expect, write_built, then_rest, capture,
  capture_all, run_pcap, new, created,
}
use svdc.Pcap.Reader.{
  Packet, push_packet, read_packets, read_file, read_packets-record, read_packets-nil,
}

-- the writer after a frame that had room
abbrev after_frame : ℕ → List ℕ → PcapWriter → PcapWriter
after_frame ts frame w = record {
  inner = record {
    bytes = w.inner.bytes ++ (record_header ts frame ++ frame);
    room = w.inner.room - 16 - length frame;
  };
  frames_written = w.frames_written + 1;
}

write_frame_lem :
    (ts : ℕ) (frame : List ℕ) (w : PcapWriter)
    → 16 + length frame ≤ w.inner.room
    → write_frame ts frame w ≡ (ok tt, after_frame ts frame w)
unfolding write_frame write_all then_frame count_written
write_frame_lem ts frame w h =
    let head : leb 16 w.inner.room ≡ true = ground arith in
    let body : leb (length frame) (w.inner.room - 16) ≡ true = ground arith in
    rw (head, body, append_assoc {A = ℕ} w.inner.bytes (record_header ts frame) frame) refl

-- what a stream needs to be sent
pub record IsStream (s : Stream) : Type 0 where
  pub params : IsFrameParams s.params
  pub conf_rev : IsU32 s.conf_rev
  pub ascii : All IsAscii s.sv_id
  pub short : length s.sv_id ≤ 191
  pub samples : (i : ℕ) → IsSampleData (s.sample i)

ascii-bytes : (xs : List ℕ) → All IsAscii xs → All IsU8 xs
ascii-bytes [] h = tt
ascii-bytes (x ∷ xs) h = (omega (arith, h.0), ascii-bytes xs (h.1))

clamp_smp_rate-IsU16 : (rate : ℕ) → IsU16 (clamp_smp_rate rate)
unfolding clamp_smp_rate
clamp_smp_rate-IsU16 rate = ground arith

asdu_of-IsSendable : (s : Stream) (i : ℕ) → IsStream s → IsSendable s.params (asdu_of s i)
unfolding asdu_of
asdu_of-IsSendable s i v = record {
  params = v.params;
  fields = (
    ascii-bytes s.sv_id v.ascii,
    omega arith,
    v.conf_rev,
    omega arith,
    clamp_smp_rate-IsU16 s.sample_rate,
    v.samples i,
  );
  ascii = v.ascii;
  short = omega (arith, v.short);
}

-- the packet of frame `i`: its time in microseconds, and the fields that its bytes decode to
pub record IsPacket (s : Stream) (interval i : ℕ) (p : Packet) : Type 0 where
  pub time : p.ts_sec * 1000000 + p.ts_usec ≡ i * interval
  pub frame :
      decode_frame p.bytes
      ≡ ok (decoded_frame s.params.dst_mac s.params.src_mac s.params (asdu_of s i))

-- the packets of the frames `i` to `i + n`, and no other
abbrev pub ArePackets : Stream → ℕ → ℕ → ℕ → List Packet → Type 0
ArePackets s interval zero i [] = Unit
ArePackets s interval zero i (p ∷ ps) = ⊥
ArePackets s interval (suc n) i [] = ⊥
ArePackets s interval (suc n) i (p ∷ ps) =
    IsPacket s interval i p × ArePackets s interval n (i + 1) ps

-- `n` rounds of the reader more
abbrev more : ℕ → ℕ → ℕ
more zero fuel = fuel
more (suc n) fuel = suc (more n fuel)

more_add : (n fuel : ℕ) → more n fuel ≡ n + fuel
more_add zero fuel = omega arith
more_add (suc n) fuel = omega (arith, more_add n fuel)

record Captures (s : Stream) (interval n i : ℕ) (w : PcapWriter)
    (r : Outcome IoError (Unit {0}) × PcapWriter) : Type 0 where
  packets : List Packet
  body : List ℕ
  finished : r.0 ≡ ok tt
  written : r.1.inner.bytes ≡ w.inner.bytes ++ body
  count : r.1.frames_written ≡ w.frames_written + n
  size : n ≤ length body
  read : (fuel : ℕ) → read_packets (more n fuel) body ≡ some packets
  are : ArePackets s interval n i packets

mul-le : (i d c : ℕ) → d ≤ c → i * d ≤ i * c
mul-le zero d c h = omega arith
mul-le (suc i) d c h = omega (arith, mul-le i d c h)

split_time :
    (i d : ℕ)
    → i < 2 ^ 32
    → d ≤ 1000000
    → i * d / 1000000 % 2 ^ 32 * 1000000 + i * d % 1000000 ≡ i * d
split_time i d h k = omega (arith, mul-le i d 1000000 k)

write_built_lem :
    (ts n : ℕ) (buf : List ℕ) (w : PcapWriter)
    → n ≤ length buf
    → n ≤ 320
    → 336 ≤ w.inner.room
    → write_built ts (some n) buf w ≡ (ok tt, after_frame ts (take n buf) w)
unfolding write_built
write_built_lem ts n buf w h k room =
    let fits : leb n (length buf) ≡ true = ground arith in
    rw fits (write_frame_lem ts (take n buf) w (omega (arith, length-take {A = ℕ} n buf)))

encode_frame-size :
    (p : FrameParams) (a : AsduFields) (buf : List ℕ) (n : ℕ)
    → (encode_frame p a buf).0 ≡ ok n
    → (n ≤ length buf) × (length (encode_frame p a buf).1 ≡ length buf)
encode_frame-size p a buf n e = sizes (encode_frame p a buf) (encode_frame-Encodes p a buf) e
  where
    sizes :
        (r : Outcome EncodeError ℕ × List ℕ)
        → Encodes (length buf) r
        → r.0 ≡ ok n
        → (n ≤ length buf) × (length (r.1) ≡ length buf)
    sizes (ok m, out) (h, k) q = let same = ok-injective m n q in (omega arith, k)
    sizes (err f, out) h q = absurd (err-ne-ok f n q)
    sizes (panic, out) h q = absurd (panic-ne-ok n q)

expect-ok : (n : ℕ) → expect (ok n) ≡ some n
unfolding expect
expect-ok n = refl

asdu_of-short : (s : Stream) (i : ℕ) → IsStream s → length (asdu_of s i).sv_id ≤ 191
unfolding asdu_of
asdu_of-short s i v = v.short

first-Captures :
    (s : Stream) (interval n i : ℕ) (w : PcapWriter) (buf : List ℕ)
    → interval ≤ 1000000
    → i < 2 ^ 32
    → length buf ≡ 320
    → suc n * 336 ≤ w.inner.room
    → Arrives s.params (asdu_of s i) (encode_frame s.params (asdu_of s i) buf)
    → ((w' : PcapWriter) (buf' : List ℕ)
        → length buf' ≡ 320
        → n * 336 ≤ w'.inner.room
        → Captures s interval n (i + 1) w' (capture s interval n (i + 1) w' buf'))
    → Captures s interval (suc n) i w (capture s interval (suc n) i w buf)
unfolding capture then_rest
first-Captures s interval n i w buf hd hi hb hr arrives rest =
    let sent = encode_frame s.params (asdu_of s i) buf in
    let m = arrives.n in
    let sizes = encode_frame-size s.params (asdu_of s i) buf m arrives.returned in
    let frame : List ℕ = take m (sent.1) in
    let bound : m ≤ 320 = omega (arith, sizes.0, hb) in
    let len : length frame ≤ 320 = omega (arith, length-take {A = ℕ} m (sent.1), bound) in
    let w' : PcapWriter = after_frame (i * interval) frame w in
    let step : write_built (i * interval) (expect (sent.0)) (sent.1) w ≡ (ok tt, w') =
      rw (arrives.returned, expect-ok m)
        (write_built_lem (i * interval) m (sent.1) w (omega (arith, sizes.0, sizes.1)) bound
          (omega arith)) in
    let packet : Packet = record {
      ts_sec = i * interval / 1000000 % 2 ^ 32;
      ts_usec = i * interval % 1000000;
      bytes = frame;
    } in
    let later = rest w' (sent.1) (omega (arith, sizes.1, hb)) (omega arith) in
    rw step (record {
      packets = packet ∷ later.packets;
      body = record_header (i * interval) frame ++ (frame ++ later.body);
      finished = later.finished;
      written =
          later.written
          ∙ append_assoc {A = ℕ} w.inner.bytes (record_header (i * interval) frame ++ frame)
              later.body;
      count = omega (arith, later.count);
      size = omega (arith, length-append {A = ℕ} frame later.body, later.size);
      read = λ fuel.
          read_packets-record (more n fuel) (i * interval) frame later.body (omega arith)
          ∙ ap (push_packet packet) (later.read fuel);
      are = (
        record { time = split_time i interval (omega arith) hd; frame = arrives.on_wire },
        later.are,
      );
    })

capture-Captures :
    (s : Stream) (interval n i : ℕ) (w : PcapWriter) (buf : List ℕ)
    → IsStream s
    → interval ≤ 1000000
    → i + n ≤ 2 ^ 32
    → length buf ≡ 320
    → n * 336 ≤ w.inner.room
    → Captures s interval n i w (capture s interval n i w buf)
unfolding capture
capture-Captures s interval zero i w buf v hd hi hb hr = record {
  packets = [];
  body = [];
  finished = refl;
  written = sym (append-nil w.inner.bytes);
  count = omega arith;
  size = omega arith;
  read = read_packets-nil;
  are = tt;
}
capture-Captures s interval (suc n) i w buf v hd hi hb hr =
    first-Captures s interval n i w buf hd (omega arith) hb hr
      (decode_frame-encode_frame s.params (asdu_of s i) buf (asdu_of-IsSendable s i v)
        (omega (arith, asdu_of-short s i v)))
      (λ w' buf' e r. capture-Captures s interval n (i + 1) w' buf' v hd (omega arith) e r)

-- a finished capture of that many frames: the header of the format, and behind it one packet for each
pub record Captured (s : Stream) (frames : ℕ) (r : Outcome IoError (Unit {0}) × PcapWriter)
    : Type 0 where
  pub finished : r.0 ≡ ok tt
  pub count : r.1.frames_written ≡ frames
  pub header : take 24 r.1.inner.bytes ≡ global_header
  pub packets : List Packet
  pub read : read_file r.1.inner.bytes ≡ some packets
  pub are : ArePackets s (1000000 / s.sample_rate) frames 0 packets

-- For a stream in range with a positive rate, and a new file with room for 336 bytes a frame behind its
-- header, `run_pcap` finishes. A reader of the format finds in the file exactly one packet for each frame,
-- in order: the time of packet `i` is `i` sample intervals in whole microseconds, and its bytes decode to
-- the fields of frame `i`.
pub run_pcap-Captured :
    (s : Stream) (frames room : ℕ)
    → IsStream s
    → 0 < s.sample_rate
    → frames < 2 ^ 32
    → 24 + frames * 336 ≤ room
    → Captured s frames (run_pcap s frames (record { bytes = []; room = room }))
unfolding run_pcap new write_all created capture_all read_file
run_pcap-Captured s frames room v hs hf hr =
    let fits : leb 24 room ≡ true = ground arith in
    let nonzero : (s.sample_rate == 0) ≡ false = ground arith in
    let start : PcapWriter = record {
      inner = record { bytes = global_header; room = room - 24 };
      frames_written = 0;
    } in
    let c =
      capture-Captures s (1000000 / s.sample_rate) frames 0 start (replicate max_frame_bytes 0) v
        (omega arith) (omega arith) (length-replicate {A = ℕ} max_frame_bytes 0) (omega arith) in
    let fuel : more frames (length c.body - frames) ≡ length c.body =
      omega (arith, more_add frames (length c.body - frames), c.size) in
    rw (fits, nonzero)
      (record {
        finished = c.finished;
        count = omega (arith, c.count);
        header = rw c.written refl;
        packets = c.packets;
        read = rw (c.written, ← fuel) (c.read (length c.body - frames));
        are = c.are;
      })
