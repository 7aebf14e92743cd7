-- ===== src/Core/Crc.antt =====
-- crates/svdc-core/src/integrity.rs: the bit-at-a-time CRC-32 (IEEE, reflected).
-- A `u32` is a number below 2 ^ 32; `>> 1` is `/ 2`, `as u8` is `% 256`.
pub mod Detect
use svdc.Base.{
  ℕ, zero, suc, ◌+◌, ◌-◌, ◌/◌, ◌%◌, ◌^◌, bit_and, bit_xor, ◌==◌, if◌then◌else◌, List, [], ◌∷◌,
}

abbrev pub crc32_ieee_poly : ℕ
crc32_ieee_poly = 0xEDB8_8320

pub record Crc32 : Type 0 where
  pub state : ℕ

abbrev pub new : Crc32
new = record { state = 0xFFFF_FFFF }

-- the lowest bit of `(crc as u8) ^ byte`
unfoldable pub lsb : ℕ → ℕ → ℕ
lsb crc byte = bit_and (bit_xor (crc % 256) byte) 1

-- one round of the inner loop on `crc`; the byte is shifted by the caller
unfoldable pub next : ℕ → ℕ → ℕ
unfolding lsb
next crc byte = if lsb crc byte == 0 then crc / 2 else bit_xor (crc / 2) crc32_ieee_poly

-- `for _ in 0..8`, by the rounds left
unfoldable pub rounds : ℕ → ℕ → ℕ → ℕ
unfolding next
rounds zero crc byte = crc
rounds (suc n) crc byte = rounds n (next crc byte) (byte / 2)

-- `for &b in bytes`
unfoldable pub feed : ℕ → List ℕ → ℕ
unfolding rounds
feed crc [] = crc
feed crc (b ∷ bytes) = feed (rounds 8 crc b) bytes

unfoldable pub update : Crc32 → List ℕ → Crc32
unfolding feed
update c bytes = record { state = feed c.state bytes }

-- `!self.state`
unfoldable pub finalize : Crc32 → ℕ
finalize c = 2 ^ 32 - 1 - c.state

unfoldable pub crc32_ieee : List ℕ → ℕ
unfolding update finalize
crc32_ieee bytes = finalize (update new bytes)
