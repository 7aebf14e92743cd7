-- ===== src/OpcUa/Quality/Severity.antt =====
-- How severe the status codes of crates/svdc-opcua/src/quality.rs are.
use svdc.Base.{
  ℕ, ◌/◌, ◌^◌, ◌≤◌, ◌<◌, bit_and, ltb, ◌==◌, if◌then◌else◌, Bool, true, false, Bool-cases, ◌≡◌, ◌⊎◌,
  inl, inr, refl, arith, IsU32,
}
use svdc.Base.Bits.{bit_and_below, bit_and_above}
use svdc.OpcUa.QBits
use svdc.OpcUa.StatusCodes
use svdc.OpcUa.Quality.{iec61850_to_opcua_status, apply_origin_override}

-- what can be wrong with a sample
pub data Cause : Type 0 where
  failure invalid overflow questionable : Cause

-- what is reported, by the code's four tests on the byte
abbrev pub reported : (no_failure is_invalid no_overflow is_questionable : Bool) → Cause → Bool
reported f i o d failure = if f then false else true
reported f i o d invalid = i
reported f i o d overflow = if o then false else true
reported f i o d questionable = d

abbrev pub raised : ℕ → Cause → Bool
raised q =
    let validity = bit_and q QBits.validity_mask in
    reported (bit_and q QBits.failure == 0) (validity == QBits.validity_invalid)
      (bit_and q QBits.overflow == 0) (validity == QBits.validity_questionable)

abbrev pub code : Cause → ℕ
code failure = StatusCodes.bad_no_communication
code invalid = StatusCodes.bad_no_data
code overflow = StatusCodes.bad_out_of_range
code questionable = StatusCodes.uncertain_last_usable_value

-- the order of precedence, lowest first
abbrev pub rank : Cause → ℕ
rank questionable = 1
rank overflow = 2
rank invalid = 3
rank failure = 4

-- `status` is the code of the cause reported that comes first, or good where there is none
pub data IsDominant (r : Cause → Bool) (status : ℕ) : Type 0 where
  clear : status ≡ StatusCodes.good → ((c : Cause) → r c ≡ false) → IsDominant r status
  dominant :
      (c : Cause)
      → status ≡ code c
      → r c ≡ true
      → ((d : Cause) → (r d ≡ false) ⊎ (rank d ≤ rank c))
      → IsDominant r status

-- Where the causes above a rank are not reported, those reported have at most that rank.
module _ (r : Cause → Bool) where
  at_most_4 : (d : Cause) → (r d ≡ false) ⊎ (rank d ≤ 4)
  at_most_4 failure = inr (omega arith)
  at_most_4 invalid = inr (omega arith)
  at_most_4 overflow = inr (omega arith)
  at_most_4 questionable = inr (omega arith)

  at_most_3 : r failure ≡ false → (d : Cause) → (r d ≡ false) ⊎ (rank d ≤ 3)
  at_most_3 f failure = inl f
  at_most_3 f invalid = inr (omega arith)
  at_most_3 f overflow = inr (omega arith)
  at_most_3 f questionable = inr (omega arith)

  at_most_2 : r failure ≡ false → r invalid ≡ false → (d : Cause) → (r d ≡ false) ⊎ (rank d ≤ 2)
  at_most_2 f i failure = inl f
  at_most_2 f i invalid = inl i
  at_most_2 f i overflow = inr (omega arith)
  at_most_2 f i questionable = inr (omega arith)

  at_most_1 :
      r failure ≡ false
      → r invalid ≡ false
      → r overflow ≡ false
      → (d : Cause) → (r d ≡ false) ⊎ (rank d ≤ 1)
  at_most_1 f i o failure = inl f
  at_most_1 f i o invalid = inl i
  at_most_1 f i o overflow = inl o
  at_most_1 f i o questionable = inr (omega arith)

  none_raised :
      r failure ≡ false
      → r invalid ≡ false
      → r overflow ≡ false
      → r questionable ≡ false
      → (c : Cause) → r c ≡ false
  none_raised f i o d failure = f
  none_raised f i o d invalid = i
  none_raised f i o d overflow = o
  none_raised f i o d questionable = d

-- the order in which the code asks
abbrev first_of : (no_failure is_invalid no_overflow is_questionable : Bool) → ℕ
first_of f i o d =
    if f
    then (if i
        then StatusCodes.bad_no_data
        else if o
        then (if d then StatusCodes.uncertain_last_usable_value else StatusCodes.good)
        else StatusCodes.bad_out_of_range)
    else StatusCodes.bad_no_communication

first_of-IsDominant : (f i o d : Bool) → IsDominant (reported f i o d) (first_of f i o d)
first_of-IsDominant false i o d = dominant failure refl refl (at_most_4 (reported false i o d))
first_of-IsDominant true true o d =
    dominant invalid refl refl (at_most_3 (reported true true o d) refl)
first_of-IsDominant true false false d =
    dominant overflow refl refl (at_most_2 (reported true false false d) refl refl)
first_of-IsDominant true false true true =
    dominant questionable refl refl (at_most_1 (reported true false true true) refl refl refl)
first_of-IsDominant true false true false =
    clear refl (none_raised (reported true false true false) refl refl refl refl)

-- For every quality byte, the status is that of the dominant cause among all that the byte reports
-- (failure before invalid before overflow before questionable), and good where it reports none.
pub iec61850_to_opcua_status-IsDominant :
    (q : ℕ) → IsDominant (raised q) (iec61850_to_opcua_status q)
unfolding iec61850_to_opcua_status
iec61850_to_opcua_status-IsDominant q =
    let validity = bit_and q QBits.validity_mask in
    first_of-IsDominant (bit_and q QBits.failure == 0) (validity == QBits.validity_invalid)
      (bit_and q QBits.overflow == 0) (validity == QBits.validity_questionable)

-- the severity field of a status code: good, uncertain or bad
abbrev pub severity : ℕ → ℕ
severity status = status / 2 ^ 30

-- The origin of a sample never makes a status less severe: for any `u32` status, the severity does
-- not decrease; the status either stays as it is or, if it was not bad and the sample is interpolated
-- or estimated, becomes uncertain.
pub apply_origin_override-severity :
    (base origin : ℕ)
    → IsU32 base
    → (severity base ≤ severity (apply_origin_override base origin))
      × ((apply_origin_override base origin ≡ base)
          ⊎ ((severity base < 2)
              × ((severity (apply_origin_override base origin) ≡ 1)
                  × ((origin ≡ 2) ⊎ (origin ≡ 3)))))
unfolding apply_origin_override
apply_origin_override-severity base origin h = elim (Bool-cases (ltb base (2 ^ 31))) [
  | inr e ↦
      let bad : bit_and base (2 ^ 31) ≡ 2 ^ 31 = bit_and_above 31 base (ground arith) h in
      rw bad (omega arith, inl refl)
  | inl e ↦
      let usable : bit_and base (2 ^ 31) ≡ 0 = bit_and_below 31 base (ground arith) in
      let small : base < 2 ^ 31 = ground arith in rw usable (ground arith)
]
