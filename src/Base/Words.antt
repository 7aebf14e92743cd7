-- ===== src/Base/Words.antt =====
-- Machine words as bounded numbers, and their byte orders.
use Prim.Native.Nat.{ℕ, ◌+◌, ◌*◌, ◌/◌, ◌%◌, ◌^◌, ◌<◌}
use mathlib.Core.Path.{◌≡◌}
use mathlib.Core.List.{List, [], ◌∷◌}
use native.Mathlib.Omega.{arith}

abbrev pub IsU8 : ℕ → Type 0
IsU8 b = b < 256

abbrev pub IsU16 : ℕ → Type 0
IsU16 v = v < 2 ^ 16

abbrev pub IsU32 : ℕ → Type 0
IsU32 v = v < 2 ^ 32

abbrev pub IsU64 : ℕ → Type 0
IsU64 v = v < 2 ^ 64

-- `as u8` and `as u16`
abbrev pub u8 : ℕ → ℕ
u8 v = v % 256

abbrev pub u16 : ℕ → ℕ
u16 v = v % 2 ^ 16

-- u16::to_be_bytes, u32::to_be_bytes
abbrev pub u16_be_bytes : ℕ → List ℕ
u16_be_bytes v = v / 256 % 256 ∷ v % 256 ∷ []

abbrev pub u32_be_bytes : ℕ → List ℕ
u32_be_bytes v = v / 2 ^ 24 % 256 ∷ v / 2 ^ 16 % 256 ∷ v / 2 ^ 8 % 256 ∷ v % 256 ∷ []

-- u16::to_le_bytes, u32::to_le_bytes
abbrev pub u16_le_bytes : ℕ → List ℕ
u16_le_bytes v = v % 256 ∷ v / 256 % 256 ∷ []

abbrev pub u32_le_bytes : ℕ → List ℕ
u32_le_bytes v = v % 256 ∷ v / 2 ^ 8 % 256 ∷ v / 2 ^ 16 % 256 ∷ v / 2 ^ 24 % 256 ∷ []

-- from_be_bytes, of any number of bytes
abbrev pub from_be_bytes_onto : ℕ → List ℕ → ℕ
from_be_bytes_onto acc [] = acc
from_be_bytes_onto acc (b ∷ bs) = from_be_bytes_onto (acc * 256 + b) bs

abbrev pub from_be_bytes : List ℕ → ℕ
from_be_bytes bs = from_be_bytes_onto 0 bs

pub from_be_bytes-u16_be_bytes : (v : ℕ) → IsU16 v → from_be_bytes (u16_be_bytes v) ≡ v
from_be_bytes-u16_be_bytes v h = omega arith

pub from_be_bytes-u32_be_bytes : (v : ℕ) → IsU32 v → from_be_bytes (u32_be_bytes v) ≡ v
from_be_bytes-u32_be_bytes v h = omega arith
