-- ===== src/Align/Ticks.antt =====
-- What the aligner of crates/svdc-aligner/src/lib.rs makes of frames.
use svdc.Base.{
  ℕ, suc, ◌+◌, ◌%◌, ◌^◌, ◌≤◌, ◌<◌, min, true, List, [], ◌∷◌, ◌++◌, ◌≡◌, refl, sym, ap, ◌∙◌, arith,
  length, take, map, drop, replicate, ok, append_assoc, take-length-append, set-length-append,
  length-append, take-min-length, length-drop, length-take, u16,
}
use svdc.Wire.Frame.{ChannelSample}
use svdc.Core.Tick.{
  TickRecord, Sample, IntegrityViolation, max_channels, blank, complete, has_flag, set_flag,
  live_samples, stamp_crc, verify_crc,
}
use svdc.Core.Tick
use svdc.Core.Tick.Integrity.{verify_crc-stamp_crc}
use svdc.Ingress.{IngressFrame, DecodedSample}
use svdc.Align.{Aligner, to_sample, copy_channels, copy_first, process_frame}

copy_channels_lem :
    (channels : List ChannelSample) (i : ℕ) (front back : List Sample)
    → length front ≡ i
    → length channels ≤ length back
    → copy_channels i channels (front ++ back)
      ≡ front ++ (map to_sample channels ++ drop (length channels) back)
unfolding copy_channels
copy_channels_lem [] i front back e h = refl
copy_channels_lem (ch ∷ channels) i front [] e h = absurd (omega arith)
copy_channels_lem (ch ∷ channels) i front (b ∷ back) e h =
    let v = to_sample ch in
    let next : length (front ++ (v ∷ [])) ≡ i + 1 =
      omega (arith, e, length-append front (v ∷ [])) in
    let rest = copy_channels_lem channels (i + 1) (front ++ (v ∷ [])) back next (omega arith) in
    rw (
      ← e,
      set-length-append front b back v,
      ← append_assoc front (v ∷ []) back,
      e,
      rest,
      append_assoc front (v ∷ []) (map to_sample channels ++ drop (length channels) back),
    )

length-map : {A B : Type 0} (f : A → B) (xs : List A) → length (map f xs) ≡ length xs
length-map f [] = refl
length-map f (x ∷ xs) = ap suc (length-map f xs)

-- the channels that reach the tick: the first element's, up to the size of the array
abbrev pub channels_of : List DecodedSample → List ChannelSample
channels_of [] = []
channels_of (asdu ∷ _) = take max_channels asdu.samples.channels

-- a tick that carries `channels`, live and in order, under an intact CRC
pub record IsLiveTick (id ns : ℕ) (channels : List ChannelSample) (t : TickRecord) : Type 0 where
  pub tick_id : t.tick_id ≡ id
  pub ts_utc_ns : t.ts_utc_ns ≡ ns
  pub n_channels : t.n_channels ≡ length channels
  pub live : live_samples t ≡ map to_sample channels
  pub is_complete : has_flag t complete ≡ true
  pub intact : verify_crc t ≡ ok tt
  pub size : length t.samples ≡ max_channels

-- Up to 64 channels copied into blank samples.
copied :
    (cs : List ChannelSample) (k : ℕ)
    → length cs ≤ max_channels
    → k ≡ length cs
    → (take k (copy_channels 0 cs (replicate max_channels blank)) ≡ map to_sample cs)
      × (length (copy_channels 0 cs (replicate max_channels blank)) ≡ max_channels)
copied cs k h e =
    let blanks : List Sample = replicate max_channels blank in
    let shape : copy_channels 0 cs blanks ≡ map to_sample cs ++ drop (length cs) blanks =
      copy_channels_lem cs 0 [] blanks refl (omega arith) in
    let k' : k ≡ length (map to_sample cs) = omega (arith, e, length-map to_sample cs) in
    (
      rw (shape, k') (take-length-append (map to_sample cs) (drop (length cs) blanks)),
      rw shape (
          omega (
            arith,
            h,
            length-append (map to_sample cs) (drop (length cs) blanks),
            length-map to_sample cs,
            length-drop (length cs) blanks,
          )),
    )

copy_first_lem :
    (samples : List DecodedSample) (t : TickRecord)
    → t.samples ≡ replicate max_channels blank
    → t.n_channels ≡ 0
    → ((copy_first samples t).n_channels ≡ length (channels_of samples))
      × ((live_samples (copy_first samples t) ≡ map to_sample (channels_of samples))
          × (length (copy_first samples t).samples ≡ max_channels))
unfolding copy_first live_samples
copy_first_lem [] t e z =
    let none : min t.n_channels max_channels ≡ 0 = omega (arith, z) in (z, (rw none, rw e))
copy_first_lem (asdu ∷ _) t e z =
    let cs = asdu.samples.channels in
    let same : take (min (length cs) max_channels) cs ≡ take max_channels cs =
      take-min-length (min (length cs) max_channels) cs
      ∙ ap (λ j. take j cs) (omega arith)
      ∙ sym (take-min-length max_channels cs) in
    let len = length-take max_channels cs in
    let n : u16 (min (length cs) max_channels) ≡ length (take max_channels cs) =
      omega (arith, len) in
    let k : min (u16 (min (length cs) max_channels)) max_channels ≡ length (take max_channels cs) =
      omega (arith, len) in
    let both = copied (take max_channels cs) _ (omega (arith, len)) k in (n, rw (same, e) both)

copy_first-keeps :
    (samples : List DecodedSample) (t : TickRecord)
    → ((copy_first samples t).tick_id ≡ t.tick_id)
      × (((copy_first samples t).ts_utc_ns ≡ t.ts_utc_ns)
          × ((copy_first samples t).flags ≡ t.flags))
unfolding copy_first
copy_first-keeps [] t = (refl, (refl, refl))
copy_first-keeps (asdu ∷ _) t = (refl, (refl, refl))

-- the tick before it is stamped
abbrev filled : ℕ → ℕ → List DecodedSample → TickRecord
filled id ns samples = copy_first samples (set_flag (Tick.empty id ns) complete)

filled-IsLiveTick :
    (id ns : ℕ) (samples : List DecodedSample)
    → IsLiveTick id ns (channels_of samples) (stamp_crc (filled id ns samples))
unfolding stamp_crc set_flag has_flag live_samples
filled-IsLiveTick id ns samples =
    let t : TickRecord = set_flag (Tick.empty id ns) complete in
    let (n, (live, size)) = copy_first_lem samples t refl refl in
    let (same_id, (same_ts, same_flags)) = copy_first-keeps samples t in
    record {
      tick_id = same_id;
      ts_utc_ns = same_ts;
      n_channels = n;
      live = live;
      is_complete = rw same_flags;
      intact = (verify_crc-stamp_crc (copy_first samples t)).0;
      size = size;
    }

-- `process_frame` emits exactly one tick for any frame: it has the next id and the frame's time, it
-- carries the channels of the frame's first ASDU (64 of them at most) as live samples in order, it is
-- complete and its CRC verifies. The aligner goes on to the next id.
pub process_frame_lem :
    (aligner : Aligner) (frame : IngressFrame)
    → (t : TickRecord) × ((process_frame aligner frame
          ≡ (t ∷ [], record aligner { next_tick_id = (aligner.next_tick_id + 1) % 2 ^ 64 }))
        × IsLiveTick aligner.next_tick_id frame.timestamp.unix_ns (channels_of frame.samples) t)
unfolding process_frame
process_frame_lem aligner frame =
    let tick = filled aligner.next_tick_id frame.timestamp.unix_ns frame.samples in
    (
      stamp_crc tick,
      (refl, filled-IsLiveTick aligner.next_tick_id frame.timestamp.unix_ns frame.samples),
    )

-- the frames popped off the ring, one after the other
abbrev pub process_frames : Aligner → List IngressFrame → List TickRecord × Aligner
process_frames aligner [] = ([], aligner)
process_frames aligner (frame ∷ frames) =
    let (ticks, next) = process_frame aligner frame in
    let (more, last) = process_frames next frames in (ticks ++ more, last)

-- ticks that carry the frames, in order, under consecutive ids from `id` on
abbrev pub IsStream : ℕ → List IngressFrame → List TickRecord → Type 0
IsStream id [] [] = Unit
IsStream id [] (t ∷ ticks) = ⊥
IsStream id (frame ∷ frames) [] = ⊥
IsStream id (frame ∷ frames) (t ∷ ticks) =
    IsLiveTick id frame.timestamp.unix_ns (channels_of frame.samples) t
    × IsStream (id + 1) frames ticks

-- From frames in any number, as long as the ids stay below 2 ^ 64, the aligner emits one tick per
-- frame, in order, under consecutive ids, each with its frame's channels and an intact CRC, and its
-- next id is the one after them.
pub process_frames-IsStream :
    (aligner : Aligner) (frames : List IngressFrame)
    → aligner.next_tick_id + length frames < 2 ^ 64
    → IsStream aligner.next_tick_id frames (process_frames aligner frames).0
      × ((process_frames aligner frames).1.next_tick_id ≡ aligner.next_tick_id + length frames)
process_frames-IsStream aligner [] h = (tt, omega arith)
process_frames-IsStream aligner (frame ∷ frames) h =
    let (t, (emitted, live)) = process_frame_lem aligner frame in
    let id = aligner.next_tick_id in
    let next : Aligner = record aligner { next_tick_id = id + 1 } in
    let inside : (id + 1) % 2 ^ 64 ≡ id + 1 = omega arith in
    let (rest, last) = process_frames-IsStream next frames (omega arith) in
    rw (emitted, inside) ((live, rest), omega (arith, last))
