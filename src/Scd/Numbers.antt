-- ===== src/Scd/Numbers.antt =====
-- The numbers in the attributes of an SCD file: `parse::<u32>`, `u16::from_str_radix` and `parse_mac` of
-- crates/svdc-console/src/scd/mod.rs, over the characters of a text.
use svdc.Base.{
  ℕ, ◌+◌, ◌-◌, ◌*◌, leb, ltb, ◌==◌, if◌then◌else◌, Bool, true, false, ◌&&◌, ◌||◌, Option, none,
  some, List, [], ◌∷◌, reverse, length,
}

unfoldable pub digit : ℕ → Option ℕ
digit c =
    if leb b'0' c && leb c b'9'
    then some (c - b'0')
    else if leb b'a' c && leb c b'f'
    then some (c - b'a' + 10)
    else if leb b'A' c && leb c b'F'
    then some (c - b'A' + 10)
    else none

-- the value after one more digit, if it is one of the radix and the value fits
unfoldable pub push_digit : ℕ → ℕ → ℕ → Option ℕ → Option ℕ
push_digit radix bound value none = none
push_digit radix bound value (some d) =
    if ltb d radix && ltb (value * radix + d) bound then some (value * radix + d) else none

-- the digits from left to right
unfoldable pub digits_from : ℕ → ℕ → ℕ → List ℕ → Option ℕ
unfolding push_digit digit
digits_from radix bound value [] = some value
digits_from radix bound value (c ∷ cs) = elim (push_digit radix bound value (digit c)) [
  | none ↦ none
  | some v ↦ digits_from radix bound v cs
]

-- an unsigned integer below `bound`: digits, with a plus sign in front or none
unfoldable pub from_str_radix : ℕ → ℕ → List ℕ → Option ℕ
unfolding digits_from
from_str_radix radix bound [] = none
from_str_radix radix bound (c ∷ []) = if c == b'+' then none else digits_from radix bound 0 (c ∷ [])
from_str_radix radix bound (c ∷ d ∷ cs) =
    if c == b'+' then digits_from radix bound 0 (d ∷ cs) else digits_from radix bound 0 (c ∷ d ∷ cs)

abbrev is_digit : Option ℕ → Bool
is_digit none = false
is_digit (some d) = true

-- `s.chars().filter(|c| c.is_ascii_hexdigit())`
unfoldable pub hex_digits : List ℕ → List ℕ
unfolding digit
hex_digits [] = []
hex_digits (c ∷ cs) = let rest = hex_digits cs in if is_digit (digit c) then c ∷ rest else rest

-- the loop over the pairs of digits; a pair that is no number ends it
unfoldable pub pairs_from : List ℕ → Option (List ℕ)
unfolding from_str_radix
pairs_from [] = some []
pairs_from (c ∷ []) = none
pairs_from (c ∷ d ∷ cs) =
    let rest = pairs_from cs in
    elim (from_str_radix 16 256 (c ∷ d ∷ [])) [
      | none ↦ none
      | some b ↦ elim rest [ none ↦ none | some bs ↦ some (b ∷ bs) ]
    ]

-- `none` is `ScdError::Malformed`
unfoldable pub parse_mac : List ℕ → Option (List ℕ)
unfolding hex_digits pairs_from
parse_mac s =
    let cleaned = hex_digits s in if length cleaned == 12 then pairs_from cleaned else none

-- a character of Unicode's `White_Space`
abbrev is_white : ℕ → Bool
is_white c =
    (leb 9 c && leb c 13)
    || ((c == 32)
        || ((c == 0x85)
            || ((c == 0xA0)
                || ((c == 0x1680)
                    || ((leb 0x2000 c && leb c 0x200A)
                        || ((c == 0x2028)
                            || ((c == 0x2029)
                                || ((c == 0x202F) || ((c == 0x205F) || (c == 0x3000))))))))))

unfoldable pub trim_start : List ℕ → List ℕ
trim_start [] = []
trim_start (c ∷ cs) = if is_white c then trim_start cs else c ∷ cs

unfoldable pub trim : List ℕ → List ℕ
unfolding trim_start
trim s = reverse (trim_start (reverse (trim_start s)))
