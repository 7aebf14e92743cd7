-- ===== src/Wire/Frame/Payload.antt =====
-- `SampleData::pack` and `SampleData::unpack`: the layout of the payload, and the round trip.
use svdc.Base.{
  ℕ, ◌+◌, ◌*◌, List, [], ◌∷◌, ◌++◌, ◌≡◌, refl, sym, ap, ap₂, ◌∙◌, arith, length, take, drop, slice,
  copy_from_slice, All, u32_be_bytes, from_be_bytes, append_assoc, length-append, length-drop,
  drop-drop, drop-length-append, copy_from_slice-append, from_be_bytes-u32_be_bytes,
}
use svdc.Wire.Frame.{
  ChannelSample, SampleData, pack_from, pack, unpack_from, unpack, sample_payload_bytes,
  num_channels, IsChannelSample, IsSampleData,
}

abbrev pub channel_bytes : ChannelSample → List ℕ
channel_bytes c = u32_be_bytes c.value ++ u32_be_bytes c.quality

-- the channels one after the other
abbrev pub channels_bytes : List ChannelSample → List ℕ
channels_bytes [] = []
channels_bytes (c ∷ cs) = channel_bytes c ++ channels_bytes cs

pub length-channels_bytes : (cs : List ChannelSample) → length (channels_bytes cs) ≡ 8 * length cs
length-channels_bytes [] = refl
length-channels_bytes (c ∷ cs) = omega (arith, length-channels_bytes cs)

copy_at :
    (front rest bytes : List ℕ) (base : ℕ)
    → base ≡ length front
    → copy_from_slice (front ++ rest) base bytes ≡ (front ++ bytes) ++ drop (length bytes) rest
copy_at front rest bytes base e = rw e (copy_from_slice-append front rest bytes)

drop_exact : (rest : List ℕ) → length rest ≡ 0 → rest ≡ []
drop_exact [] h = refl
drop_exact (x ∷ rest) h = absurd (omega arith)

pack_from_lem :
    (cs : List ChannelSample) (i : ℕ) (front rest : List ℕ)
    → length front ≡ i * 8
    → length rest ≡ 8 * length cs
    → pack_from i cs (front ++ rest) ≡ front ++ channels_bytes cs
unfolding pack_from
pack_from_lem [] i front rest hf hr = rw (drop_exact rest hr)
pack_from_lem (c ∷ cs) i front rest hf hr =
    let four : length (front ++ u32_be_bytes c.value) ≡ i * 8 + 4 =
      omega (arith, length-append front (u32_be_bytes c.value)) in
    let eight : length (front ++ channel_bytes c) ≡ (i + 1) * 8 =
      omega (arith, length-append front (channel_bytes c)) in
    let left : length (drop 8 rest) ≡ 8 * length cs = omega (arith, length-drop 8 rest) in
    rw
      (
        copy_at front rest (u32_be_bytes c.value) (i * 8) (sym hf),
        copy_at (front ++ u32_be_bytes c.value) (drop 4 rest) (u32_be_bytes c.quality) (i * 8 + 4)
            (sym four),
        drop-drop 4 4 rest,
        append_assoc front (u32_be_bytes c.value) (u32_be_bytes c.quality),
        pack_from_lem cs (i + 1) (front ++ channel_bytes c) (drop 8 rest) eight left,
      )
      (append_assoc front (channel_bytes c) (channels_bytes cs))

-- `pack` fills the 64 bytes with the eight channels in order, whatever was there before.
pub pack_lem :
    (s : SampleData) (out : List ℕ)
    → length s.channels ≡ num_channels
    → length out ≡ sample_payload_bytes
    → pack s out ≡ channels_bytes s.channels
unfolding pack
pack_lem s out hc ho = pack_from_lem s.channels 0 [] out refl (omega arith)

slice-append :
    (front xs back : List ℕ) (base : ℕ)
    → base ≡ length front
    → slice (front ++ (xs ++ back)) base (length xs) ≡ xs
slice-append front xs back base e = rw (e, drop-length-append front (xs ++ back)) (take_lem xs back)
  where
    take_lem : (xs back : List ℕ) → take (length xs) (xs ++ back) ≡ xs
    take_lem [] back = refl
    take_lem (x ∷ xs) back = ap (◌∷◌ x) (take_lem xs back)

unpack_from_lem :
    (cs : List ChannelSample) (i : ℕ) (front : List ℕ)
    → All IsChannelSample cs
    → length front ≡ i * 8
    → unpack_from (length cs) i (front ++ channels_bytes cs) ≡ cs
unfolding unpack_from
unpack_from_lem [] i front v hf = refl
unpack_from_lem (c ∷ cs) i front (vc, vs) hf =
    let back = channels_bytes cs in
    let four : length (front ++ u32_be_bytes c.value) ≡ i * 8 + 4 =
      omega (arith, length-append front (u32_be_bytes c.value)) in
    let eight : length (front ++ channel_bytes c) ≡ (i + 1) * 8 =
      omega (arith, length-append front (channel_bytes c)) in
    let low : slice (front ++ (channel_bytes c ++ back)) (i * 8) 4 ≡ u32_be_bytes c.value =
      slice-append front (u32_be_bytes c.value) (u32_be_bytes c.quality ++ back) (i * 8) (sym hf) in
    let high : slice (front ++ (channel_bytes c ++ back)) (i * 8 + 4) 4 ≡ u32_be_bytes c.quality =
      rw (append_assoc front (u32_be_bytes c.value) (u32_be_bytes c.quality ++ back)) at (
        slice-append (front ++ u32_be_bytes c.value) (u32_be_bytes c.quality) back (i * 8 + 4)
          (sym four)) in
    let rest : unpack_from (length cs) (i + 1) (front ++ (channel_bytes c ++ back)) ≡ cs =
      rw (append_assoc front (channel_bytes c) back) at
        (unpack_from_lem cs (i + 1) (front ++ channel_bytes c) vs eight) in
    let value = ap from_be_bytes low ∙ from_be_bytes-u32_be_bytes c.value vc.0 in
    let quality = ap from_be_bytes high ∙ from_be_bytes-u32_be_bytes c.quality vc.1 in
    ap₂ ◌∷◌ (λ j. record { value = value j; quality = quality j }) rest

-- Unpacking the bytes of eight channels gives the channels back.
pub unpack-channels_bytes :
    (s : SampleData) → IsSampleData s → unpack (channels_bytes s.channels) ≡ s
unfolding unpack
unpack-channels_bytes s (eight, valid) =
    ap (λ (cs : List ChannelSample). record { channels = cs })
      (rw eight at (unpack_from_lem s.channels 0 [] valid refl))

-- For eight channels in range, `unpack` reads back what `pack` wrote over any 64-byte array.
unpack-pack :
    (s : SampleData) (out : List ℕ)
    → IsSampleData s
    → length out ≡ sample_payload_bytes
    → unpack (pack s out) ≡ s
unpack-pack s out v ho = rw (pack_lem s out v.0 ho) (unpack-channels_bytes s v)
