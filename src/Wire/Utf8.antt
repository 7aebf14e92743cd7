-- ===== src/Wire/Utf8.antt =====
-- `String::from_utf8_lossy` of the standard library, which crates/ssiec-sv-publisher/src/lib.rs
-- applies to the svID: each maximal ill-formed part becomes U+FFFD. A string is its UTF-8 bytes.
use svdc.Base.{
  ℕ, ◌-◌, ◌<◌, ltb, leb, ◌==◌, ◌&&◌, if◌then◌else◌, List, [], ◌∷◌, ◌++◌, ◌≡◌, refl, ap, All, lt→ltb,
}

abbrev pub replacement : List ℕ
replacement = 0xEF ∷ 0xBF ∷ 0xBD ∷ []

-- A sequence under way: the bytes so far, how many are missing, the range of the next one.
pub data Partial : Type 0 where
  idle : Partial
  within : (seen : List ℕ) (missing lo hi : ℕ) → Partial

-- the first byte of a character
unfoldable pub lead : ℕ → List ℕ × Partial
lead b =
    if ltb b 0x80
    then (b ∷ [], idle)
    else if leb 0xC2 b && leb b 0xDF
    then ([], within (b ∷ []) 1 0x80 0xBF)
    else if b == 0xE0
    then ([], within (b ∷ []) 2 0xA0 0xBF)
    else if b == 0xED
    then ([], within (b ∷ []) 2 0x80 0x9F)
    else if leb 0xE1 b && leb b 0xEF
    then ([], within (b ∷ []) 2 0x80 0xBF)
    else if b == 0xF0
    then ([], within (b ∷ []) 3 0x90 0xBF)
    else if b == 0xF4
    then ([], within (b ∷ []) 3 0x80 0x8F)
    else if leb 0xF1 b && leb b 0xF3
    then ([], within (b ∷ []) 3 0x80 0xBF)
    else (replacement, idle)

-- one byte: what is put out, and the sequence then under way
unfoldable pub accept : Partial → ℕ → List ℕ × Partial
unfolding lead
accept idle b = lead b
accept (within seen missing lo hi) b =
    if leb lo b && leb b hi
    then (if missing == 1
        then (seen ++ (b ∷ []), idle)
        else ([], within (seen ++ (b ∷ [])) (missing - 1) 0x80 0xBF))
    else (replacement ++ (lead b).0, (lead b).1)

unfoldable pub lossy : Partial → List ℕ → List ℕ
unfolding accept
lossy idle [] = []
lossy (within seen missing lo hi) [] = replacement
lossy p (b ∷ bs) = (accept p b).0 ++ lossy (accept p b).1 bs

unfoldable pub from_utf8_lossy : List ℕ → List ℕ
unfolding lossy
from_utf8_lossy bytes = lossy idle bytes

abbrev pub IsAscii : ℕ → Type 0
IsAscii b = b < 0x80

-- ASCII comes through unchanged.
pub from_utf8_lossy-ascii : (bytes : List ℕ) → All IsAscii bytes → from_utf8_lossy bytes ≡ bytes
unfolding from_utf8_lossy
from_utf8_lossy-ascii [] h = refl
from_utf8_lossy-ascii (b ∷ bs) (h, hs) =
    rw (lt→ltb b 0x80 h) (ap (◌∷◌ b) (from_utf8_lossy-ascii bs hs))
