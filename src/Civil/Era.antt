-- ===== src/Civil/Era.antt =====
-- The arithmetic of one era of 146097 days.
use open_eo_ru_stac.Prelude.{ℕ, ◌+◌, ◌-◌, ◌*◌, ◌/◌, ◌%◌, ◌≤◌, ◌<◌, ◌≡◌, ◌≢◌, false, arith}
use open_eo_ru_stac.Civil.{year_of_era, day_of_year}
use open_eo_ru_stac.Civil.Calendar.{is_leap}

pub year_of_era-le : (doe : ℕ) → doe < 146097 → year_of_era doe ≤ 399
year_of_era-le doe h = omega arith

pub day_of_year_lem :
    (doe : ℕ)
    → doe < 146097
    → doe ≡ 365 * year_of_era doe + year_of_era doe / 4 - year_of_era doe / 100 + day_of_year doe
day_of_year_lem doe h = omega arith

pub day_of_year-le-365 : (doe : ℕ) → doe < 146097 → day_of_year doe ≤ 365
day_of_year-le-365 doe h = omega arith

common_4 : (doe : ℕ) → doe < 146097 → (year_of_era doe + 1) % 4 ≢ 0 → day_of_year doe ≤ 364
common_4 doe h c = omega arith

common_100 :
    (doe : ℕ)
    → doe < 146097
    → (year_of_era doe + 1) % 100 ≡ 0
    → (year_of_era doe + 1) % 400 ≢ 0
    → day_of_year doe ≤ 364
common_100 doe h c d = omega arith

-- The last day of February is there only where the year that follows is a leap year.
pub day_of_year-le :
    (doe : ℕ) → doe < 146097 → is_leap (year_of_era doe + 1) ≡ false → day_of_year doe ≤ 364
day_of_year-le doe h c = ground (arith, common_4 doe h, common_100 doe h)
