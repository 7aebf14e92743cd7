-- ===== src/Civil/Calendar.antt =====
-- The dates of crates/svdc-console/src/routes/mus_list.rs against the Gregorian calendar.
use svdc.Base.{
  ℕ, zero, suc, ◌+◌, ◌-◌, ◌*◌, ◌/◌, ◌%◌, ◌≤◌, ◌<◌, ◌≡◌, refl, sym, ap, subst, ◌∙◌, ◌==◌, ltb, Bool,
  true, false, Bool-cases, ◌&&◌, ◌||◌, inl, inr, if◌then◌else◌, arith,
}
use svdc.Civil.{Date, yoe_of, doy_of, date_in, civil_from_days, time_of}

abbrev pub is_leap : ℕ → Bool
is_leap y = ((y % 4 == 0) && (if y % 100 == 0 then false else true)) || (y % 400 == 0)

abbrev pub days_in_month : ℕ → ℕ → ℕ
days_in_month y m =
    if m == 2
    then (if is_leap y then 29 else 28)
    else if (m == 4) || ((m == 6) || ((m == 9) || (m == 11)))
    then 30
    else 31

abbrev pub days_in_year : ℕ → ℕ
days_in_year y = if is_leap y then 366 else 365

-- the day after
abbrev pub next_day : Date → Date
next_day d =
    if ltb d.day (days_in_month d.year d.month)
    then record d { day = d.day + 1 }
    else if d.month == 12
    then record { year = d.year + 1; month = 1; day = 1 }
    else record { year = d.year; month = d.month + 1; day = 1 }

-- the date so many days after the epoch
abbrev pub days_on : ℕ → Date
days_on zero = record { year = 1970; month = 1; day = 1 }
days_on (suc n) = next_day (days_on n)

pub record IsDate (d : Date) : Type 0 where
  pub month : (1 ≤ d.month) × (d.month ≤ 12)
  pub day : (1 ≤ d.day) × (d.day ≤ days_in_month d.year d.month)

-- the first day of a year of the era
abbrev start : ℕ → ℕ
start k = 365 * k + k / 4 - k / 100 + k / 400

yoe_of-lt :
    (doe : ℕ)
    → doe < 146_097
    → (start (yoe_of doe) ≤ doe) × (doe < start (yoe_of doe + 1)) × (yoe_of doe < 400)
yoe_of-lt doe h = omega arith

yoe_of_unique : (doe k : ℕ) → k < 400 → start k ≤ doe → doe < start (k + 1) → yoe_of doe ≡ k
yoe_of_unique doe k h a b = omega arith

start-suc : (era k : ℕ) → k < 400 → start (k + 1) ≡ start k + days_in_year (k + era * 400 + 1)
start-suc era k h = ground arith

date_in-IsDate : (y doy : ℕ) → doy < days_in_year (y + 1) → IsDate (date_in y doy)
date_in-IsDate y doy h = record { month = ground arith; day = ground arith }

same_date :
    (y m d y' m' d' : ℕ)
    → y ≡ y'
    → m ≡ m'
    → d ≡ d'
    → Path Date
        (record { year = y; month = m; day = d })
        (record { year = y'; month = m'; day = d' })
same_date y m d y' m' d' p q r = rw (p, q, r) refl

next_day-within :
    (y m d : ℕ)
    → d < days_in_month y m
    → next_day (record { year = y; month = m; day = d })
      ≡ record { year = y; month = m; day = d + 1 }
next_day-within y m d h = let e : ltb d (days_in_month y m) ≡ true = ground arith in rw e refl

next_day-month :
    (y m d : ℕ)
    → days_in_month y m ≤ d
    → m < 12
    → next_day (record { year = y; month = m; day = d })
      ≡ record { year = y; month = m + 1; day = 1 }
next_day-month y m d h l =
    let e : ltb d (days_in_month y m) ≡ false = ground arith in
    let f : (m == 12) ≡ false = ground arith in rw (e, f) refl

next_day-year :
    (y m d : ℕ)
    → days_in_month y m ≤ d
    → m ≡ 12
    → next_day (record { year = y; month = m; day = d })
      ≡ record { year = y + 1; month = 1; day = 1 }
next_day-year y m d h l =
    let e : ltb d (days_in_month y m) ≡ false = ground arith in
    let f : (m == 12) ≡ true = ground arith in rw (e, f) refl

-- the day after in the same year from March on
date_in-suc :
    (y doy : ℕ) → doy + 1 < days_in_year (y + 1) → date_in y (doy + 1) ≡ next_day (date_in y doy)
date_in-suc y doy h =
    let d = date_in y doy in
    let ok = date_in-IsDate y doy (omega arith) in
    elim (Bool-cases (ltb d.day (days_in_month d.year d.month))) [
      | inl e ↦
          same_date _ _ _ d.year d.month (d.day + 1) (ground arith) (ground arith) (ground arith)
          ∙ sym (next_day-within d.year d.month d.day (ground arith))
      | inr e ↦ elim (Bool-cases (d.month == 12)) [
        | inl f ↦
            same_date _ _ _ (d.year + 1) 1 1 (ground arith) (ground arith) (ground arith)
            ∙ sym (next_day-year d.year d.month d.day (ground arith) (ground arith))
        | inr f ↦
            same_date _ _ _ d.year (d.month + 1) 1 (ground arith) (ground arith) (ground arith)
            ∙ sym (next_day-month d.year d.month d.day (ground arith) (ground arith))
      ]
    ]

-- the first of March
date_in-last :
    (y doy : ℕ) → doy + 1 ≡ days_in_year (y + 1) → date_in (y + 1) 0 ≡ next_day (date_in y doy)
date_in-last y doy h =
    let d = date_in y doy in
    same_date _ _ _ d.year (d.month + 1) 1 (ground arith) (ground arith) (ground arith)
    ∙ sym (next_day-month d.year d.month d.day (ground arith) (ground arith))

-- a day by its era, the year of the era and the day of that year
civil_from_days_lem :
    (days era k doy : ℕ)
    → k < 400
    → doy < days_in_year (k + era * 400 + 1)
    → days + 719_468 ≡ era * 146_097 + start k + doy
    → civil_from_days days ≡ date_in (k + era * 400) doy
unfolding civil_from_days
civil_from_days_lem days era k doy h d e =
    let next = start-suc era k h in
    let z = days + 719_468 in
    let inside : start k + doy < 146_097 = omega (arith, next) in
    let same_era : z / 146_097 ≡ era = omega arith in
    let same_doe : z - era * 146_097 ≡ start k + doy = omega arith in
    let same_yoe : yoe_of (start k + doy) ≡ k =
      yoe_of_unique (start k + doy) k h (omega arith) (omega (arith, next)) in
    let same_doy : doy_of (start k + doy) k ≡ doy = omega arith in
    rw (same_era, same_doe, same_yoe, same_doy) refl

-- the parts of any day
record Parts (days : ℕ) : Type 0 where
  era : ℕ
  k : ℕ
  doy : ℕ
  year : k < 400
  inside : doy < days_in_year (k + era * 400 + 1)
  count : days + 719_468 ≡ era * 146_097 + start k + doy

split_days : (days : ℕ) → Parts days
split_days days =
    let era = (days + 719_468) / 146_097 in
    let doe = (days + 719_468) % 146_097 in
    let (low, high, year) = yoe_of-lt doe (omega arith) in
    let next = start-suc era (yoe_of doe) year in
    record {
      era = era;
      k = yoe_of doe;
      doy = doe - start (yoe_of doe);
      year = year;
      inside = omega (arith, low, high, next);
      count = omega (arith, low);
    }

step :
    (days era k doy : ℕ)
    → k < 400
    → doy < days_in_year (k + era * 400 + 1)
    → days + 719_468 ≡ era * 146_097 + start k + doy
    → civil_from_days (days + 1) ≡ next_day (date_in (k + era * 400) doy)
step days era k doy h d e =
    let y = k + era * 400 in
    let next = start-suc era k h in
    elim (Bool-cases (ltb (doy + 1) (days_in_year (y + 1)))) [
      | inl f ↦
          let more : doy + 1 < days_in_year (y + 1) = ground arith in
          civil_from_days_lem (days + 1) era k (doy + 1) h more (omega (arith, e))
          ∙ date_in-suc y doy more
      | inr f ↦
          let last : doy + 1 ≡ days_in_year (y + 1) = ground arith in
          elim (Bool-cases (ltb (k + 1) 400)) [
            | inl g ↦
                let same : k + 1 + era * 400 ≡ y + 1 = omega arith in
                civil_from_days_lem (days + 1) era (k + 1) 0 (ground arith) (ground arith)
                  (omega (arith, e, next, last))
                ∙ ap (λ x. date_in x 0) same
                ∙ date_in-last y doy last
            | inr g ↦
                let end : k ≡ 399 = ground arith in
                let same : 0 + (era + 1) * 400 ≡ y + 1 = omega (arith, end) in
                civil_from_days_lem (days + 1) (era + 1) 0 0 (omega arith) (ground arith)
                  (omega (arith, e, next, last, end))
                ∙ ap (λ x. date_in x 0) same
                ∙ date_in-last y doy last
          ]
    ]

pub civil_from_days-suc : (days : ℕ) → civil_from_days (suc days) ≡ next_day (civil_from_days days)
civil_from_days-suc days =
    let p = split_days days in
    let one : suc days ≡ days + 1 = omega arith in
    ap civil_from_days one
    ∙ step days p.era p.k p.doy p.year p.inside p.count
    ∙ ap next_day (sym (civil_from_days_lem days p.era p.k p.doy p.year p.inside p.count))

civil_from_days-days_on : (days : ℕ) → civil_from_days days ≡ days_on days
unfolding civil_from_days
civil_from_days-days_on zero = refl
civil_from_days-days_on (suc days) =
    civil_from_days-suc days ∙ ap next_day (civil_from_days-days_on days)

-- The fields that a time in milliseconds is printed with: the date is the one that the Gregorian calendar
-- has so many days after 1970-01-01, with the month and the day in their ranges, and the hour, the minute, the
-- second and the milliseconds are in range and make up the time together with the days.
pub time_of-days_on :
    (ms : ℕ)
    → let t = time_of ms in
      let days = ms / 1000 / 86_400 in
      (t.date ≡ days_on days)
      × IsDate t.date
      × (t.hour < 24)
      × (t.minute < 60)
      × (t.second < 60)
      × (t.millis < 1000)
      × (ms ≡ (((days * 24 + t.hour) * 60 + t.minute) * 60 + t.second) * 1000 + t.millis)
unfolding time_of
time_of-days_on ms =
    let p = split_days (ms / 1000 / 86_400) in
    let here = civil_from_days_lem (ms / 1000 / 86_400) p.era p.k p.doy p.year p.inside p.count in
    (
      civil_from_days-days_on (ms / 1000 / 86_400),
      subst IsDate (sym here) (date_in-IsDate (p.k + p.era * 400) p.doy p.inside),
      omega arith,
      omega arith,
      omega arith,
      omega arith,
      omega arith,
    )
