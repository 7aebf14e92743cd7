-- ===== src/Civil.antt =====
-- The times that the console prints without a calendar library: `format_ms` of
-- crates/svdc-console/src/routes/mus_list.rs and `iso8601_from_unix_ms` of
-- crates/svdc-console/src/sse/emitter.rs. A time is a `u64` of milliseconds, so that the seconds as an
-- `i64` are not negative.
pub mod Calendar
mod Tests
use svdc.Base.{
  ℕ, ◌+◌, ◌-◌, ◌*◌, ◌/◌, ◌%◌, ltb, leb, if◌then◌else◌, List, [], ◌∷◌, ◌++◌, length, replicate,
}
use svdc.Base.Texts.{codes, decimal}

pub record Date : Type 0 where
  pub year : ℕ
  pub month : ℕ
  pub day : ℕ

-- the year of the era, by the day of the era
abbrev pub yoe_of : ℕ → ℕ
yoe_of doe = (doe - doe / 1_460 + doe / 36_524 - doe / 146_096) / 365

-- the day of a year that begins in March
abbrev pub doy_of : ℕ → ℕ → ℕ
doy_of doe yoe = doe - (365 * yoe + yoe / 4 - yoe / 100)

-- the month of such a year, from 0
abbrev pub mp_of : ℕ → ℕ
mp_of doy = (5 * doy + 2) / 153

abbrev pub month_of : ℕ → ℕ
month_of doy = if ltb (mp_of doy) 10 then mp_of doy + 3 else mp_of doy - 9

abbrev pub day_of : ℕ → ℕ
day_of doy = doy - (153 * mp_of doy + 2) / 5 + 1

-- the date in the year that begins in March of the year `y`
abbrev pub date_in : (y doy : ℕ) → Date
date_in y doy =
    let m = month_of doy in
    record { year = if leb m 2 then y + 1 else y; month = m; day = day_of doy }

-- the date by the days since the epoch
unfoldable pub civil_from_days : ℕ → Date
civil_from_days days =
    let z = days + 719_468 in
    let era = z / 146_097 in
    let doe = z - era * 146_097 in
    let yoe = yoe_of doe in date_in (yoe + era * 400) (doy_of doe yoe)

pub record Time : Type 0 where
  pub date : Date
  pub hour : ℕ
  pub minute : ℕ
  pub second : ℕ
  pub millis : ℕ

-- the fields of both formats
unfoldable pub time_of : ℕ → Time
unfolding civil_from_days
time_of ms =
    let secs = ms / 1000 in
    let s_of_day = secs % 86_400 in
    record {
      date = civil_from_days (secs / 86_400);
      hour = s_of_day / 3600;
      minute = (s_of_day / 60) % 60;
      second = s_of_day % 60;
      millis = ms % 1000;
    }

-- `{n:0width}`
abbrev pub padded : (width n : ℕ) → List ℕ
padded width n = replicate (width - length (decimal n)) b'0' ++ decimal n

-- the two formats, by what stands between the date and the time and at the end
abbrev pub formatted : (between end : List ℕ) → Time → List ℕ
formatted between end t =
    padded 4 t.date.year
    ++ (b'-' ∷ padded 2 t.date.month
        ++ (b'-' ∷ padded 2 t.date.day
            ++ (between
                ++ (padded 2 t.hour
                    ++ (b':' ∷ padded 2 t.minute
                        ++ (b':' ∷ padded 2 t.second ++ (b'.' ∷ padded 3 t.millis ++ end)))))))

unfoldable pub format_ms : ℕ → List ℕ
unfolding time_of decimal
format_ms ms = formatted (codes " ") [] (time_of ms)

unfoldable pub iso8601_from_unix_ms : ℕ → List ℕ
unfolding time_of decimal
iso8601_from_unix_ms unix_ms = formatted (codes "T") (codes "Z") (time_of unix_ms)
