-- ===== src/Base/Texts.antt =====
-- Texts as the bytes that the code writes: literals and decimal numbers.
use Prim.Native.Char.{code}
use Prim.Native.String.{String}
use Prim.Native.Nat.{ℕ, zero, suc, ◌+◌, ◌/◌, ◌%◌}
use mathlib.Core.Bool.{Bool, true, false, ◌&&◌}
use mathlib.Core.List.{List, [], ◌∷◌}
use svdc.Base.Tests.{ltb, leb, ◌==◌, if◌then◌else◌}

-- the bytes of an ASCII literal
abbrev pub codes : String → List ℕ
codes String.[] = []
codes (String.◌∷◌ c s) = code c ∷ codes s

-- the digits of a number in front of `rest`; ten times ten to the fuel bounds the number
unfoldable pub digits_onto : ℕ → ℕ → List ℕ → List ℕ
digits_onto zero n rest = (48 + n % 10) ∷ rest
digits_onto (suc fuel) n rest =
    let more = digits_onto fuel (n / 10) ((48 + n % 10) ∷ rest) in
    if ltb n 10 then (48 + n % 10) ∷ rest else more

-- `{}` of an unsigned integer of up to 64 bits, which has at most 20 digits
unfoldable pub decimal : ℕ → List ℕ
unfolding digits_onto
decimal n = digits_onto 19 n []

-- `to_ascii_lowercase` of a byte
abbrev pub lower : ℕ → ℕ
lower c = if leb b'A' c && leb c b'Z' then c + 32 else c

abbrev pub same_text : List ℕ → List ℕ → Bool
same_text [] [] = true
same_text [] (y ∷ ys) = false
same_text (x ∷ xs) [] = false
same_text (x ∷ xs) (y ∷ ys) = (x == y) && same_text xs ys

-- `starts_with`
abbrev pub starts : List ℕ → List ℕ → Bool
starts s [] = true
starts [] (c ∷ cs) = false
starts (x ∷ s) (c ∷ cs) = (x == c) && starts s cs
