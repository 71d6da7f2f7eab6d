-- ===== src/Civil/Calendar.antt =====
-- The Gregorian calendar, stated on its own: leap years, the lengths of months, and the number of
-- a day counted from 0000-01-01.
use open_eo_ru_stac.Prelude.{
  ℕ, zero, suc, ◌+◌, ◌-◌, ◌*◌, ◌/◌, ◌%◌, ◌≤◌, ◌<◌, ◌≡◌, Bool, ◌&&◌, ◌||◌, not, arith, ◌==◌,
  if◌then◌else◌,
}

abbrev pub is_leap : ℕ → Bool
is_leap y = (y % 4 == 0) && (not (y % 100 == 0) || (y % 400 == 0))

abbrev pub days_in_month : ℕ → ℕ → ℕ
days_in_month y m =
    let february = if is_leap y then 29 else 28 in
    let has_thirty = (m == 4) || (m == 6) || (m == 9) || (m == 11) in
    if m == 2 then february else if has_thirty then 30 else 31

unfoldable pub days_before_year : ℕ → ℕ
days_before_year zero = 0
days_before_year (suc y) = days_before_year y + (if is_leap y then 366 else 365)

-- The days of the months before the k-th month after January.
unfoldable pub days_before_month : ℕ → ℕ → ℕ
days_before_month y zero = 0
days_before_month y (suc k) = days_before_month y k + days_in_month y (suc k)

-- Days from 0000-01-01 to the given date.
unfoldable pub day_number : ℕ → ℕ → ℕ → ℕ
unfolding days_before_year days_before_month
day_number y m d = days_before_year y + days_before_month y (m - 1) + (d - 1)

pub record IsDate (y m d : ℕ) : Type 0 where
  pub month_pos : 1 ≤ m
  pub month_le : m ≤ 12
  pub day_pos : 1 ≤ d
  pub day_le : d ≤ days_in_month y m

-- The leap years before a year, counted without a loop.
pub days_before_year_closed :
    (y : ℕ) → days_before_year y + (y + 99) / 100 ≡ 365 * y + (y + 3) / 4 + (y + 399) / 400
unfolding days_before_year
days_before_year_closed zero = omega arith
days_before_year_closed (suc y) = ground (arith, days_before_year_closed y)

-- From March on a month begins where the five-month cycle of 153 days puts it.
pub days_before_month_closed :
    (y mp : ℕ)
    → mp < 10
    → days_before_month y (mp + 2) ≡ (153 * mp + 2) / 5 + (if is_leap y then 60 else 59)
unfolding days_before_month
days_before_month_closed y zero h = ground arith
days_before_month_closed y (suc zero) h = ground arith
days_before_month_closed y (suc (suc zero)) h = ground arith
days_before_month_closed y (suc (suc (suc zero))) h = ground arith
days_before_month_closed y (suc (suc (suc (suc zero)))) h = ground arith
days_before_month_closed y (suc (suc (suc (suc (suc zero))))) h = ground arith
days_before_month_closed y (suc (suc (suc (suc (suc (suc zero)))))) h = ground arith
days_before_month_closed y (suc (suc (suc (suc (suc (suc (suc zero))))))) h = ground arith
days_before_month_closed y (suc (suc (suc (suc (suc (suc (suc (suc zero)))))))) h = ground arith
days_before_month_closed y (suc (suc (suc (suc (suc (suc (suc (suc (suc mp))))))))) h =
    let e : mp ≡ 0 = omega arith in rw e (ground arith)
