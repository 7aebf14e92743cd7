-- ===== src/Wire/Encode/Layout.antt =====
-- The frame that `encode_frame` of crates/ssiec-sv-publisher/src/lib.rs leaves in the buffer.
pub mod Patch
use svdc.Base.{
  ℕ, zero, suc, ◌+◌, ◌-◌, ◌/◌, ◌%◌, ◌<◌, ◌≤◌, ltb, List, [], ◌∷◌, ◌++◌, ◌≡◌, refl, sym, ap, ◌∙◌,
  arith, length, take, drop, set, Outcome, ok, err, u16_be_bytes, length-append, length-drop,
  drop-drop, append_assoc, le→not_ltb, lt→ltb, set-length-append, false, true,
}
use svdc.Wire.Frame.{FrameParams, AsduFields, num_channels}
use svdc.Wire.Encode.{
  Cursor, Emit, ◌>>=◌, ◌>>◌, write, reserve_length16, store_length, poke, written_since,
  patch_length16, patch_total, write_frame, encode_frame, encode_int_u16, write_int, write_ethernet,
  write_asdu, position,
}
use svdc.Wire.Encode.Writes.{
  at, Writes, write-Writes, write_ethernet-Writes, write_int-Writes, write_asdu-Writes,
  ethernet_bytes, asdu_bytes, vlan_bytes, tlv_bytes, int_octets, length-asdu_bytes,
}
use svdc.Wire.Frame.{IsFrameParams}
use svdc.Wire.Encode.Writes.{length-int_octets}
use svdc.Wire.Frame.{ethertype_sv}
use svdc.Wire.Encode.Layout.Patch.{
  zeros, layout, patched, patches, length-patched, reserve_length16_lem,
}

-- A write behind `n` bytes of the buffer `out`.
run_at :
    {m : Emit (Unit {0})} {xs : List ℕ} (w : Writes m xs) (bs out : List ℕ) (n : ℕ)
    → n + length xs ≤ length out
    → m (at bs (drop n out)) ≡ (ok tt, at (bs ++ xs) (drop (n + length xs) out))
run_at {xs} w bs out n h =
    w.run bs (drop n out) (omega (arith, length-drop n out)) ∙ rw (drop-drop n (length xs) out)

reserve_at :
    (bs out : List ℕ) (n : ℕ)
    → n + 3 ≤ length out
    → reserve_length16 (at bs (drop n out))
      ≡ (ok (length bs + 1), at (bs ++ (0x82 ∷ 0 ∷ 0 ∷ [])) (drop (n + 3) out))
reserve_at bs out n h =
    reserve_length16_lem bs (drop n out) (omega (arith, length-drop n out)) ∙ rw (drop-drop n 3 out)

abbrev pub frame_head : FrameParams → List ℕ
frame_head p = ethernet_bytes p ++ u16_be_bytes p.appid

-- the whole frame
abbrev pub frame_bytes : FrameParams → AsduFields → List ℕ
frame_bytes p a = patched (frame_head p) (asdu_bytes a)

-- The writes of `encode_frame`, over any header `e` and ASDU `f` that its two parts append.
module _ (p : FrameParams) (a : AsduFields) (e f : List ℕ) (we : Writes (write_ethernet p) e)
    (wf : Writes (write_asdu a) f) where
  abbrev head : List ℕ
  head = e ++ u16_be_bytes p.appid

  write_frame_lem :
      (out : List ℕ)
      → length f + 23 ≤ 65535
      → length (patched head f) ≤ length out
      → write_frame p a (at [] out)
        ≡ (ok (length (patched head f)), at (patched head f) (drop (length (patched head f)) out))
  unfolding write_frame encode_int_u16
  write_frame_lem out hn room =
      let n : ℕ = length e + 2 in
      let z = write-Writes zeros in
      let total : length (patched head f) ≡ length e + 2 + length f + 21 =
        omega (arith, length-patched head f, length-append e (u16_be_bytes p.appid)) in
      let b5 = ((head ++ zeros) ++ zeros) ++ zeros in
      let r : List ℕ = 0x82 ∷ 0 ∷ 0 ∷ [] in
      let b7 = (b5 ++ (0x60 ∷ [])) ++ r in
      let b8 = b7 ++ (0x80 ∷ 1 ∷ 1 ∷ []) in
      let b10 = (b8 ++ (0xA2 ∷ [])) ++ r in
      let b12 = (b10 ++ (0x30 ∷ [])) ++ r in
      let consumed : 0 + length e + 2 + 2 + 2 + 2 + 1 + 3 + 3 + 1 + 3 + 1 + 3 + length f
          ≡ length (patched head f) =
        omega (arith, total) in
      let shape : b12 ++ f ≡ layout head f zeros zeros zeros zeros = simp append_assoc in
      rw
        (
          run_at we [] out 0 (omega arith),
          run_at (write-Writes (u16_be_bytes p.appid)) e out (0 + length e) (omega arith),
          run_at z head out (0 + length e + 2) (omega arith),
          run_at z (head ++ zeros) out (0 + length e + 2 + 2) (omega arith),
          run_at z ((head ++ zeros) ++ zeros) out (0 + length e + 2 + 2 + 2) (omega arith),
          run_at (write-Writes (0x60 ∷ [])) b5 out (0 + length e + 2 + 2 + 2 + 2) (omega arith),
          reserve_at (b5 ++ (0x60 ∷ [])) out (0 + length e + 2 + 2 + 2 + 2 + 1) (omega arith),
          run_at (write_int-Writes 0x80 1) b7 out (0 + length e + 2 + 2 + 2 + 2 + 1 + 3)
              (omega arith),
          run_at (write-Writes (0xA2 ∷ [])) b8 out (0 + length e + 2 + 2 + 2 + 2 + 1 + 3 + 3)
              (omega arith),
          reserve_at (b8 ++ (0xA2 ∷ [])) out (0 + length e + 2 + 2 + 2 + 2 + 1 + 3 + 3 + 1)
              (omega arith),
          run_at (write-Writes (0x30 ∷ [])) b10 out
              (0 + length e + 2 + 2 + 2 + 2 + 1 + 3 + 3 + 1 + 3) (omega arith),
          reserve_at (b10 ++ (0x30 ∷ [])) out (0 + length e + 2 + 2 + 2 + 2 + 1 + 3 + 3 + 1 + 3 + 1)
              (omega arith),
          run_at wf b12 out (0 + length e + 2 + 2 + 2 + 2 + 1 + 3 + 3 + 1 + 3 + 1 + 3)
              (omega arith),
          consumed,
          shape,
        )
        (patches head f (drop (length (patched head f)) out) _ _ _ _ _ hn
          (simp length-append (omega arith)) (simp length-append (omega arith))
          (simp length-append (omega arith)) refl (simp length-append (omega arith)))

-- For eight channels, a frame that fits the 16-bit length fields and a buffer with room for it,
-- `encode_frame` returns the frame's length and leaves the laid-out frame in front of the buffer,
-- with the rest of the buffer unchanged.
pub encode_frame_lem :
    (p : FrameParams) (a : AsduFields) (out : List ℕ)
    → length a.samples.channels ≡ num_channels
    → length (asdu_bytes a) + 23 ≤ 65535
    → length (frame_bytes p a) ≤ length out
    → encode_frame p a out
      ≡ (ok (length (frame_bytes p a)), frame_bytes p a ++ drop (length (frame_bytes p a)) out)
unfolding encode_frame
encode_frame_lem p a out hc hn room = rw (
    write_frame_lem p a (ethernet_bytes p) (asdu_bytes a) (write_ethernet-Writes p)
      (write_asdu-Writes a (omega (arith, length-asdu_bytes a hc)) hc) out hn room)

-- How large a frame is at most.
pub length-frame_bytes :
    (p : FrameParams) (a : AsduFields)
    → IsFrameParams p
    → length a.samples.channels ≡ num_channels
    → length (frame_bytes p a) ≤ length a.sv_id + 129
length-frame_bytes p a hp hc =
    let et : List ℕ = u16_be_bytes ethertype_sv in
    grind (
      arith,
      length-patched (frame_head p) (asdu_bytes a),
      length-append (ethernet_bytes p) (u16_be_bytes p.appid),
      length-append p.dst_mac (p.src_mac ++ (vlan_bytes p.vlan ++ et)),
      length-append p.src_mac (vlan_bytes p.vlan ++ et),
      length-append (vlan_bytes p.vlan) et,
      length-asdu_bytes a hc,
      length-int_octets a.smp_rate,
    )
