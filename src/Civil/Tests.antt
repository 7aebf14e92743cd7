-- ===== src/Civil/Tests.antt =====
-- Times of crates/svdc-console/src/routes/mus_list.rs and crates/svdc-console/src/sse/emitter.rs.
use svdc.Base.{◌+◌, ◌*◌, ◌/◌, ◌<◌, ◌≡◌, refl}
use svdc.Base.Texts.{codes}
use svdc.Civil.{time_of, format_ms, iso8601_from_unix_ms}
use svdc.Civil.Calendar.{IsDate, days_on, time_of-days_on}

epoch : format_ms 0 ≡ codes "1970-01-01 00:00:00.000"
unfolding format_ms
epoch = refl

leap_day : iso8601_from_unix_ms 1_709_251_199_007 ≡ codes "2024-02-29T23:59:59.007Z"
unfolding iso8601_from_unix_ms
leap_day = refl

time_of-days_on_example :
    let t = time_of 90_061_007 in
    let days = 90_061_007 / 1000 / 86_400 in
    (t.date ≡ days_on days)
    × IsDate t.date
    × (t.hour < 24)
    × (t.minute < 60)
    × (t.second < 60)
    × (t.millis < 1000)
    × (90_061_007 ≡ (((days * 24 + t.hour) * 60 + t.minute) * 60 + t.second) * 1000 + t.millis)
time_of-days_on_example = time_of-days_on 90_061_007
