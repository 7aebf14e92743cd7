-- ===== src/Core/Crc/Detect.antt =====
-- What the CRC of crates/svdc-core/src/integrity.rs catches, and that it can be fed in pieces.
use native.Mathlib.Nat.{pow-suc}
use svdc.Base.{
  ℕ, zero, suc, ◌+◌, ◌/◌, ◌%◌, ◌^◌, ◌≤◌, ◌<◌, bit_xor, List, [], ◌∷◌, ◌++◌, ◌≡◌, ◌≢◌, refl, sym, ap,
  ◌∙◌, arith, IsU8, IsU32,
}
use svdc.Base.Bits.{
  bit_xor_cancel, bit_xor_high, bit_xor_comm, bit_xor_swap, bit_xor-zero, bit_xor-lt,
  bit_xor_lowest, bit_and_one,
}
use svdc.Core.Crc.{crc32_ieee_poly, Crc32, lsb, next, rounds, feed, update, crc32_ieee}

lsb_lem : (crc byte : ℕ) → lsb crc byte ≡ (crc + byte) % 2
unfolding lsb
lsb_lem crc byte =
    omega (arith, bit_and_one (bit_xor (crc % 256) byte), bit_xor_lowest (crc % 256) byte)

poly_high :
    (a : ℕ) → a < 2 ^ 31 → (2 ^ 31 ≤ bit_xor a crc32_ieee_poly) × IsU32 (bit_xor a crc32_ieee_poly)
poly_high a h = bit_xor_high 31 a crc32_ieee_poly h (omega arith) (omega arith)

next-IsU32 : (crc byte : ℕ) → IsU32 crc → IsU32 (next crc byte)
unfolding next
next-IsU32 crc byte h = ground (arith, poly_high (crc / 2) (omega arith))

-- One round can be undone: the top bit tells whether the polynomial was mixed in.
next_injective : (a b byte : ℕ) → IsU32 a → IsU32 b → next a byte ≡ next b byte → a ≡ b
unfolding next
next_injective a b byte p q e = ground (
  arith,
  lsb_lem a byte,
  lsb_lem b byte,
  poly_high (a / 2) (omega arith),
  poly_high (b / 2) (omega arith),
  bit_xor_cancel (a / 2) crc32_ieee_poly,
  bit_xor_cancel (b / 2) crc32_ieee_poly,
)

rounds-IsU32 : (n crc byte : ℕ) → IsU32 crc → IsU32 (rounds n crc byte)
unfolding rounds
rounds-IsU32 zero crc byte h = h
rounds-IsU32 (suc n) crc byte h = rounds-IsU32 n (next crc byte) (byte / 2) (next-IsU32 crc byte h)

rounds_injective : (n a b byte : ℕ) → IsU32 a → IsU32 b → rounds n a byte ≡ rounds n b byte → a ≡ b
unfolding rounds
rounds_injective zero a b byte p q e = e
rounds_injective (suc n) a b byte p q e = next_injective a b byte p q (
    rounds_injective n (next a byte) (next b byte) (byte / 2) (next-IsU32 a byte p)
      (next-IsU32 b byte q) e)

next_folded : (crc x : ℕ) → next (bit_xor crc x) 0 ≡ bit_xor (next crc x) (x / 2)
unfolding next
next_folded crc x = ground (
  arith,
  lsb_lem (bit_xor crc x) 0,
  lsb_lem crc x,
  bit_xor_lowest crc x,
  bit_xor_swap (crc / 2) (x / 2) crc32_ieee_poly,
)

-- Only the xor of the register and the byte matters.
rounds_folded : (n crc x : ℕ) → x < 2 ^ n → rounds n crc x ≡ rounds n (bit_xor crc x) 0
unfolding rounds
rounds_folded zero crc x h = let e : x ≡ 0 = omega arith in rw (e, bit_xor-zero)
rounds_folded (suc n) crc x h =
    rounds_folded n (next crc x) (x / 2) (omega (arith, pow-suc 2 n))
    ∙ ap (λ k. rounds n k 0) (sym (next_folded crc x))

-- From one register two different bytes lead to two different registers.
rounds_byte_injective :
    (crc x y : ℕ) → IsU32 crc → IsU8 x → IsU8 y → rounds 8 crc x ≡ rounds 8 crc y → x ≡ y
rounds_byte_injective crc x y hc hx hy e =
    let folded : rounds 8 (bit_xor crc x) 0 ≡ rounds 8 (bit_xor crc y) 0 =
      sym (rounds_folded 8 crc x hx) ∙ e ∙ rounds_folded 8 crc y hy in
    let same : bit_xor crc x ≡ bit_xor crc y =
      rounds_injective 8 (bit_xor crc x) (bit_xor crc y) 0 (bit_xor-lt 32 crc x hc (omega arith))
        (bit_xor-lt 32 crc y hc (omega arith)) folded in
    cc (same, bit_xor_comm crc x, bit_xor_comm crc y, bit_xor_cancel x crc, bit_xor_cancel y crc)

feed-IsU32 : (crc : ℕ) (bytes : List ℕ) → IsU32 crc → IsU32 (feed crc bytes)
unfolding feed
feed-IsU32 crc [] h = h
feed-IsU32 crc (b ∷ bytes) h = feed-IsU32 (rounds 8 crc b) bytes (rounds-IsU32 8 crc b h)

feed_injective :
    (a b : ℕ) (bytes : List ℕ) → IsU32 a → IsU32 b → feed a bytes ≡ feed b bytes → a ≡ b
unfolding feed
feed_injective a b [] p q e = e
feed_injective a b (x ∷ bytes) p q e = rounds_injective 8 a b x p q (
    feed_injective (rounds 8 a x) (rounds 8 b x) bytes (rounds-IsU32 8 a x p) (rounds-IsU32 8 b x q)
      e)

feed-append : (crc : ℕ) (xs ys : List ℕ) → feed crc (xs ++ ys) ≡ feed (feed crc xs) ys
unfolding feed
feed-append crc [] ys = refl
feed-append crc (x ∷ xs) ys = feed-append (rounds 8 crc x) xs ys

-- Feeding two slices one after the other is feeding their concatenation.
pub update-append : (c : Crc32) (xs ys : List ℕ) → update c (xs ++ ys) ≡ update (update c xs) ys
unfolding update
update-append c xs ys = ap (λ s. record { state = s }) (feed-append c.state xs ys)

pub crc32_ieee-IsU32 : (bytes : List ℕ) → IsU32 (crc32_ieee bytes)
unfolding crc32_ieee
crc32_ieee-IsU32 bytes = omega arith

-- Two messages that agree except at one byte have the same CRC-32 only if that byte is the same.
pub crc32_ieee_byte_change :
    (front back : List ℕ) (x y : ℕ)
    → IsU8 x
    → IsU8 y
    → crc32_ieee (front ++ (x ∷ back)) ≡ crc32_ieee (front ++ (y ∷ back))
    → x ≡ y
unfolding crc32_ieee feed
crc32_ieee_byte_change front back x y hx hy e =
    let mid = feed 0xFFFF_FFFF front in
    let hm : IsU32 mid = feed-IsU32 0xFFFF_FFFF front (omega arith) in
    let px = rounds-IsU32 8 mid x hm in
    let py = rounds-IsU32 8 mid y hm in
    let states : feed 0xFFFF_FFFF (front ++ (x ∷ back)) ≡ feed 0xFFFF_FFFF (front ++ (y ∷ back)) =
      omega (
        arith,
        feed-IsU32 0xFFFF_FFFF (front ++ (x ∷ back)) (omega arith),
        feed-IsU32 0xFFFF_FFFF (front ++ (y ∷ back)) (omega arith),
      ) in
    let tails : feed (rounds 8 mid x) back ≡ feed (rounds 8 mid y) back =
      sym (feed-append 0xFFFF_FFFF front (x ∷ back))
      ∙ states
      ∙ feed-append 0xFFFF_FFFF front (y ∷ back) in
    rounds_byte_injective mid x y hm hx hy (feed_injective _ _ back px py tails)

-- Two messages that differ in exactly one byte, wherever it stands and whatever the other bytes are,
-- have different CRC-32s.
pub crc32_ieee-differs :
    (front back : List ℕ) (x y : ℕ)
    → IsU8 x
    → IsU8 y
    → x ≢ y
    → crc32_ieee (front ++ (x ∷ back)) ≢ crc32_ieee (front ++ (y ∷ back))
crc32_ieee-differs front back x y hx hy ne e = ne (crc32_ieee_byte_change front back x y hx hy e)
