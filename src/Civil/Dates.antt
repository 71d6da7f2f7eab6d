-- ===== src/Civil/Dates.antt =====
-- `days_to_ymd` against the calendar.
use open_eo_ru_stac.Prelude.{
  ℕ, zero, suc, ◌+◌, ◌-◌, ◌*◌, ◌/◌, ◌%◌, ◌≤◌, ◌<◌, ◌≡◌, refl, sym, ◌∙◌, inl, inr, false, arith, ltb,
  leb, ltb→lt, ge_of_ltb, Bool-cases, if◌then◌else◌,
}
use open_eo_ru_stac.Civil.{Ymd, year_of_era, day_of_year, month_of, day_of, days_to_ymd}
use open_eo_ru_stac.Civil.Calendar.{
  is_leap, days_in_month, days_before_year, day_number, IsDate, days_before_year_closed,
  days_before_month_closed,
}
use open_eo_ru_stac.Civil.Era.{year_of_era-le, day_of_year_lem, day_of_year-le-365, day_of_year-le}

days_before_year-add_one :
    (y : ℕ) → days_before_year (y + 1) ≡ days_before_year y + (if is_leap y then 366 else 365)
days_before_year-add_one y =
    let e : y + 1 ≡ suc y = omega arith in rw e (unfold days_before_year in refl)

-- The date of a day in a year that begins in March of year `y`.
march_date : ℕ → ℕ → Ymd
march_date y doy =
    let m = month_of doy in
    record { year = if leb m 2 then y + 1 else y; month = m; day = day_of doy }

spring-number :
    (y mp r : ℕ)
    → mp < 10
    → day_number y (mp + 3) (r + 1) + 306 ≡ days_before_year (y + 1) + (153 * mp + 2) / 5 + r
unfolding day_number
spring-number y mp r h =
    let third : mp + 3 - 1 ≡ mp + 2 = omega arith in
    rw (third, days_before_month_closed y mp h, days_before_year-add_one y) (ground arith)

winter-number : (y k r : ℕ) → k < 2 → day_number y (k + 1) (r + 1) ≡ days_before_year y + 31 * k + r
unfolding day_number
winter-number y zero r h = omega arith
winter-number y (suc zero) r h = ground arith
winter-number y (suc (suc k)) r h = absurd (omega arith)

-- From March to December, and in January and February.
march_date-spring :
    (y doy : ℕ)
    → (5 * doy + 2) / 153 < 10
    → march_date y doy ≡ record {
      year = y;
      month = (5 * doy + 2) / 153 + 3;
      day = doy - (153 * ((5 * doy + 2) / 153) + 2) / 5 + 1;
    }
unfolding march_date
march_date-spring y doy h = ground arith

march_date-winter :
    (y doy : ℕ)
    → doy ≤ 365
    → 10 ≤ (5 * doy + 2) / 153
    → march_date y doy ≡ record {
      year = y + 1;
      month = (5 * doy + 2) / 153 - 10 + 1;
      day = doy - (153 * ((5 * doy + 2) / 153) + 2) / 5 + 1;
    }
unfolding march_date
march_date-winter y doy h k = ground arith

march_date-number :
    (y doy : ℕ)
    → doy ≤ 365
    → day_number (march_date y doy).year (march_date y doy).month (march_date y doy).day + 306
      ≡ days_before_year (y + 1) + doy
march_date-number y doy h = elim (Bool-cases (ltb ((5 * doy + 2) / 153) 10)) [
  | inl e ↦ rw (march_date-spring y doy (ltb→lt _ _ e)) (
      omega (
        arith,
        spring-number y ((5 * doy + 2) / 153) (doy - (153 * ((5 * doy + 2) / 153) + 2) / 5)
            (ltb→lt _ _ e),
      ))
  | inr e ↦ rw (march_date-winter y doy h (ge_of_ltb _ _ e)) (
      omega (
        arith,
        ge_of_ltb _ _ e,
        winter-number (y + 1) ((5 * doy + 2) / 153 - 10)
            (doy - (153 * ((5 * doy + 2) / 153) + 2) / 5) (omega arith),
      ))
]

-- A day within its month: the division by 153 leaves less than the month is long.
spring-day :
    (y mp d : ℕ)
    → mp < 10
    → 5 * d + 2 < 153 * mp + 153
    → d + 1 ≤ (153 * mp + 2) / 5 + days_in_month y (mp + 3)
spring-day y mp d h k = ground arith

winter-day :
    (y mp d : ℕ)
    → 10 ≤ mp
    → mp < 12
    → d ≤ 365
    → (is_leap y ≡ false → d ≤ 364)
    → 5 * d + 2 < 153 * mp + 153
    → d + 1 ≤ (153 * mp + 2) / 5 + days_in_month y (mp - 10 + 1)
winter-day y mp d h k year leap m = ground arith

march_date-IsDate :
    (y doy : ℕ)
    → doy ≤ 365
    → (is_leap (y + 1) ≡ false → doy ≤ 364)
    → IsDate (march_date y doy).year (march_date y doy).month (march_date y doy).day
march_date-IsDate y doy h leap = elim (Bool-cases (ltb ((5 * doy + 2) / 153) 10)) [
  | inl e ↦
      let mp = ltb→lt _ _ e in
      rw (march_date-spring y doy mp) (record {
        month_pos = omega arith;
        month_le = omega arith;
        day_pos = omega arith;
        day_le = omega (arith, spring-day y ((5 * doy + 2) / 153) doy mp (omega arith));
      })
  | inr e ↦
      let mp = ge_of_ltb _ _ e in
      rw (march_date-winter y doy h mp) (record {
        month_pos = omega arith;
        month_le = omega arith;
        day_pos = omega arith;
        day_le = omega (
          arith,
          winter-day (y + 1) ((5 * doy + 2) / 153) doy mp (omega arith) h leap (omega arith),
        );
      })
]

is_leap-add_era : (a e : ℕ) → is_leap (a + e * 400 + 1) ≡ is_leap (a + 1)
is_leap-add_era a e =
    let four : (a + e * 400 + 1) % 4 ≡ (a + 1) % 4 = omega arith in
    let hundred : (a + e * 400 + 1) % 100 ≡ (a + 1) % 100 = omega arith in
    let era : (a + e * 400 + 1) % 400 ≡ (a + 1) % 400 = omega arith in rw (four, hundred, era)

-- The date that the code computes is that of a March year.
days_to_ymd-march_date :
    (days : ℕ)
    → days_to_ymd days ≡ (
        let z = days + 719468 in
        let doe = z % 146097 in march_date (year_of_era doe + z / 146097 * 400) (day_of_year doe))
unfolding days_to_ymd march_date
days_to_ymd-march_date days =
    let e : days + 719468 - (days + 719468) / 146097 * 146097 ≡ (days + 719468) % 146097 =
      omega arith in
    rw e refl

-- Every day that `days_to_ymd` is given, counted from 1970-01-01, gets a date of the Gregorian
-- calendar: a month from 1 to 12, a day within the length of that month in that year, and the date
-- whose number, counted from 0000-01-01 by the lengths of years and months, is that day's.
pub days_to_ymd-IsDate :
    (days : ℕ)
    → IsDate (days_to_ymd days).year (days_to_ymd days).month (days_to_ymd days).day
      × (day_number (days_to_ymd days).year (days_to_ymd days).month (days_to_ymd days).day
          ≡ days + 719528)
days_to_ymd-IsDate days =
    let z = days + 719468 in
    let doe = z % 146097 in
    let era = z / 146097 in
    let small : doe < 146097 = omega arith in
    let doy = day_of_year doe in
    let y = year_of_era doe + era * 400 in
    rw (days_to_ymd-march_date days) (
      march_date-IsDate y doy (day_of_year-le-365 doe small)
          (λ c. day_of_year-le doe small (sym (is_leap-add_era (year_of_era doe) era) ∙ c)),
      omega (
        arith,
        march_date-number y doy (day_of_year-le-365 doe small),
        days_before_year_closed (y + 1),
        day_of_year_lem doe small,
        year_of_era-le doe small,
      ),
    )
