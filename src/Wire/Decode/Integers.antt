-- ===== src/Wire/Decode/Integers.antt =====
-- `decode_int` of crates/ssiec-sv-publisher/src/lib.rs, against the number that the bytes denote,
-- and against `encode_int_u16`.
use svdc.Base.{
  ℕ, ◌+◌, ◌*◌, ◌%◌, ◌^◌, ◌<◌, bit_or, List, [], ◌∷◌, ◌≡◌, ◌∙◌, arith, All, IsU8, IsU16,
  from_be_bytes, from_be_bytes_onto,
}
use svdc.Base.Bits.{bit_or_below, bit_and_low_byte}
use svdc.Wire.Encode.{encode_int_u16}
use svdc.Wire.Encode.Writes.{int_octets}
use svdc.Wire.Decode.{decode_int_onto, decode_int}

-- Only the residue of the accumulator matters for the residue of the result.
from_be_bytes_onto-mod :
    (bs : List ℕ) (x y : ℕ)
    → x % 2 ^ 32 ≡ y % 2 ^ 32
    → from_be_bytes_onto x bs % 2 ^ 32 ≡ from_be_bytes_onto y bs % 2 ^ 32
from_be_bytes_onto-mod [] x y h = h
from_be_bytes_onto-mod (b ∷ bs) x y h =
    from_be_bytes_onto-mod bs (x * 256 + b) (y * 256 + b) (omega arith)

shift_or : (v b : ℕ) → IsU8 b → bit_or (v * 256 % 2 ^ 32) b ≡ v * 256 % 2 ^ 32 + b
shift_or v b h =
    let e : v * 256 % 2 ^ 32 ≡ 2 ^ 8 * (v % 2 ^ 24) = omega arith in
    rw e (bit_or_below 8 (v % 2 ^ 24) b h)

decode_int_onto_lem :
    (bs : List ℕ) (v : ℕ)
    → All IsU8 bs
    → v < 2 ^ 32
    → decode_int_onto v bs ≡ from_be_bytes_onto v bs % 2 ^ 32
unfolding decode_int_onto
decode_int_onto_lem [] v hb hv = omega arith
decode_int_onto_lem (b ∷ bs) v hb hv =
    let next = v * 256 % 2 ^ 32 + b in
    rw (shift_or v b hb.0) (
      decode_int_onto_lem bs next hb.1 (omega arith)
      ∙ from_be_bytes_onto-mod bs next (v * 256 + b) (omega arith))

-- On any number of bytes `decode_int` is their big-endian value, reduced to 32 bits.
pub decode_int_lem : (bs : List ℕ) → All IsU8 bs → decode_int bs ≡ from_be_bytes bs % 2 ^ 32
unfolding decode_int
decode_int_lem bs h = decode_int_onto_lem bs 0 h (omega arith)

-- `decode_int` reads back every `u16` from its BER octets.
pub decode_int-encode_int_u16 : (v : ℕ) → IsU16 v → decode_int (int_octets v) ≡ v
unfolding encode_int_u16
decode_int-encode_int_u16 v h = decode_int_lem (int_octets v) octets ∙ value
  where
    octets : All IsU8 (int_octets v)
    octets = ground (arith, bit_and_low_byte v)

    value : from_be_bytes (int_octets v) % 2 ^ 32 ≡ v
    value = ground (arith, bit_and_low_byte v)
