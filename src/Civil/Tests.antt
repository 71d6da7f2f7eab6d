-- ===== src/Civil/Tests.antt =====
-- Dates that the source's tests and clients show.
use open_eo_ru_stac.Prelude.{◌+◌, ◌≡◌, refl}
use open_eo_ru_stac.Civil.{days_to_ymd, iso8601}
use open_eo_ru_stac.Civil.Calendar.{day_number, IsDate}
use open_eo_ru_stac.Civil.Dates.{days_to_ymd-IsDate}

epoch : iso8601 0 ≡ "1970-01-01T00:00:00Z"
unfolding iso8601
epoch = refl

leap_day : days_to_ymd 19782 ≡ record { year = 2024; month = 2; day = 29 }
unfolding days_to_ymd
leap_day = refl

-- `days_to_ymd-IsDate` at 29 February 2024.
days_to_ymd-IsDate_example :
    IsDate (days_to_ymd 19782).year (days_to_ymd 19782).month (days_to_ymd 19782).day
    × (day_number (days_to_ymd 19782).year (days_to_ymd 19782).month (days_to_ymd 19782).day
        ≡ 19782 + 719528)
days_to_ymd-IsDate_example = days_to_ymd-IsDate 19782
