-- ===== src/Core/Tick/Integrity.antt =====
-- The CRC that a tick record of crates/svdc-core/src/lib.rs carries, against its payload bytes.
use svdc.Base.{
  ℕ, List, [], ◌∷◌, ◌++◌, ◌≡◌, ◌≢◌, refl, sym, ap, ◌∙◌, arith, IsU8, ok, err, u16_le_bytes,
  u32_le_bytes, ==_self, true,
}
use svdc.Base.Bits.{bit_and-bit_or}
use svdc.Core.Crc
use svdc.Core.Crc.{Crc32}
use svdc.Core.Crc.Detect.{update-append, crc32_ieee_byte_change}
use svdc.Core.Tick.{
  Sample, TickRecord, has_flag, set_flag, live_samples, update_sample, update_samples, compute_crc,
  stamp_crc, verify_crc,
}

-- the eight bytes of one sample, as the data model lays them out
abbrev pub sample_bytes : Sample → List ℕ
sample_bytes s = u32_le_bytes s.value_q ++ ((s.quality ∷ s.origin ∷ []) ++ u16_le_bytes s.reserved)

abbrev pub samples_bytes : List Sample → List ℕ
samples_bytes [] = []
samples_bytes (s ∷ rest) = sample_bytes s ++ samples_bytes rest

-- the bytes that the CRC covers
abbrev pub payload : TickRecord → List ℕ
payload r = samples_bytes (live_samples r)

update_sample_lem : (c : Crc32) (s : Sample) → update_sample c s ≡ Crc.update c (sample_bytes s)
unfolding update_sample
update_sample_lem c s = sym (
    update-append c (u32_le_bytes s.value_q)
      ((s.quality ∷ s.origin ∷ []) ++ u16_le_bytes s.reserved)
    ∙ update-append (Crc.update c (u32_le_bytes s.value_q)) (s.quality ∷ s.origin ∷ [])
        (u16_le_bytes s.reserved))

update_samples_lem :
    (c : Crc32) (ss : List Sample) → update_samples c ss ≡ Crc.update c (samples_bytes ss)
unfolding update_samples
update_samples_lem c [] = unfold Crc.update Crc.feed in refl
update_samples_lem c (s ∷ rest) =
    update_samples_lem (update_sample c s) rest
    ∙ ap (λ k. Crc.update k (samples_bytes rest)) (update_sample_lem c s)
    ∙ sym (update-append c (sample_bytes s) (samples_bytes rest))

-- The CRC of a record is the one-shot CRC-32 of the bytes of its populated samples.
compute_crc_lem : (r : TickRecord) → compute_crc r ≡ Crc.crc32_ieee (payload r)
unfolding compute_crc Crc.crc32_ieee
compute_crc_lem r = ap Crc.finalize (update_samples_lem Crc.new (live_samples r))

-- A record verifies right after it is stamped, and stamping changes nothing but the CRC.
pub verify_crc-stamp_crc :
    (r : TickRecord)
    → (verify_crc (stamp_crc r) ≡ ok tt) × (record (stamp_crc r) { crc = r.crc } ≡ r)
unfolding verify_crc stamp_crc live_samples
verify_crc-stamp_crc r = (rw ==_self, refl)

-- A record whose payload bytes differ in exactly one byte from those that its CRC was stamped for
-- is reported, with its tick id, the stored CRC and the recomputed one.
pub verify_crc-tampered :
    (r t : TickRecord) (front back : List ℕ) (x y : ℕ)
    → IsU8 x
    → IsU8 y
    → x ≢ y
    → payload r ≡ front ++ (x ∷ back)
    → payload t ≡ front ++ (y ∷ back)
    → t.crc ≡ (stamp_crc r).crc
    → verify_crc t ≡ err (record { tick_id = t.tick_id; stored = t.crc; computed = compute_crc t })
unfolding verify_crc stamp_crc
verify_crc-tampered r t front back x y hx hy ne pr pt e =
    ground (arith, crc32_ieee_byte_change front back x y, stored, computed, differ)
  where
    stored : t.crc ≡ Crc.crc32_ieee (front ++ (x ∷ back))
    stored = e ∙ compute_crc_lem r ∙ ap Crc.crc32_ieee pr

    computed : compute_crc t ≡ Crc.crc32_ieee (front ++ (y ∷ back))
    computed = compute_crc_lem t ∙ ap Crc.crc32_ieee pt

    differ : compute_crc t ≢ t.crc
    differ p = ne (crc32_ieee_byte_change front back x y hx hy (sym stored ∙ sym p ∙ computed))

-- `set_flag` sets exactly what `has_flag` then sees, for every non-zero flag word.
pub has_flag-set_flag :
    (r : TickRecord) (flag : ℕ) → flag ≢ 0 → has_flag (set_flag r flag) flag ≡ true
unfolding has_flag set_flag
has_flag-set_flag r flag h = ground (arith, bit_and-bit_or r.flags flag)
