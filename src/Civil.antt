-- ===== src/Civil.antt =====
-- `iso8601` and `days_to_ymd` of apps/orbit-openeo/src/job_store.rs: Hinnant's civil calendar.
-- A timestamp is below 2^63, so the code's `i64` is not negative and no cast loses anything.
pub mod Calendar
mod Era
pub mod Dates
mod Tests
use open_eo_ru_stac.Prelude.{
  ℕ, ◌+◌, ◌-◌, ◌*◌, ◌/◌, ◌%◌, String, ltb, leb, if◌then◌else◌, decimal, zero_padded,
}
use Prim.Native.String.{◌++◌}

pub record Ymd : Type 0 where
  pub year : ℕ
  pub month : ℕ
  pub day : ℕ

-- The year within an era of 400, from the day within it.
abbrev pub year_of_era : ℕ → ℕ
year_of_era doe = (doe - doe / 1460 + doe / 36524 - doe / 146096) / 365

-- The day within a year that begins in March.
abbrev pub day_of_year : ℕ → ℕ
day_of_year doe = let yoe = year_of_era doe in doe - (365 * yoe + yoe / 4 - yoe / 100)

-- Month and day, from the day within a year that begins in March.
abbrev pub month_of : ℕ → ℕ
month_of doy = let mp = (5 * doy + 2) / 153 in if ltb mp 10 then mp + 3 else mp - 9

abbrev pub day_of : ℕ → ℕ
day_of doy = let mp = (5 * doy + 2) / 153 in doy - (153 * mp + 2) / 5 + 1

unfoldable pub days_to_ymd : ℕ → Ymd
days_to_ymd days =
    let z = days + 719468 in
    let era = z / 146097 in
    let doe = z - era * 146097 in
    let y = year_of_era doe + era * 400 in
    let doy = day_of_year doe in
    let m = month_of doy in
    record { year = if leb m 2 then y + 1 else y; month = m; day = day_of doy }

unfoldable pub iso8601 : ℕ → String
unfolding days_to_ymd zero_padded
iso8601 secs =
    let date = days_to_ymd (secs / 86400) in
    let secs_of_day = secs % 86400 in
    zero_padded 4 date.year
    ++ "-"
    ++ zero_padded 2 date.month
    ++ "-"
    ++ zero_padded 2 date.day
    ++ "T"
    ++ zero_padded 2 (secs_of_day / 3600)
    ++ ":"
    ++ zero_padded 2 ((secs_of_day / 60) % 60)
    ++ ":"
    ++ zero_padded 2 (secs_of_day % 60)
    ++ "Z"
