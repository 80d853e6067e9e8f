-- ===== src/Time/Calendar.antt =====
-- The proleptic Gregorian calendar of Go's `time`: dates and day numbers, from 0 for 0000-01-01.
pub mod Laws
use go_cron.Prelude.{
  ℕ, suc, ◌+◌, ◌-◌, ◌*◌, ◌/◌, ◌%◌, ◌≤◌, ◌<◌, ◌≡◌, ◌∙◌, Bool, not, ◌&&◌, ◌||◌, ltb, leb, ◌==◌,
  if◌then◌else◌, arith,
}

pub record Date : Type 0 where
  pub year : ℕ
  pub month : ℕ
  pub day : ℕ

unfoldable pub is_leap : ℕ → Bool
is_leap y = (y % 4 == 0) && (not (y % 100 == 0) || (y % 400 == 0))

unfoldable pub days_before_year : ℕ → ℕ
days_before_year y = 365 * y + (y + 3) / 4 + (y + 399) / 400 - (y + 99) / 100

-- The days of year `y` before month `m`; before month 13 that is the whole year.
unfoldable pub days_before_month : ℕ → ℕ → ℕ
days_before_month y m =
    let leap : ℕ = if is_leap y then 1 else 0 in
    if leb m 1
    then 0
    else if m == 2
    then 31
    else if m == 3
    then 59 + leap
    else if m == 4
    then 90 + leap
    else if m == 5
    then 120 + leap
    else if m == 6
    then 151 + leap
    else if m == 7
    then 181 + leap
    else if m == 8
    then 212 + leap
    else if m == 9
    then 243 + leap
    else if m == 10
    then 273 + leap
    else if m == 11
    then 304 + leap
    else if m == 12
    then 334 + leap
    else 365 + leap

-- The year of day `d`, from an estimate that is off by at most one.
unfoldable pub pick_year : ℕ → ℕ → ℕ
pick_year guess d =
    if leb (days_before_year (guess + 1)) d
    then guess + 1
    else if ltb d (days_before_year guess)
    then guess - 1
    else guess

unfoldable pub year_of : ℕ → ℕ
unfolding pick_year
year_of d = pick_year (400 * d / 146097) d

-- The month of the n-th day of year `y`, from 0.
unfoldable pub month_of : ℕ → ℕ → ℕ
month_of y n =
    if ltb n (days_before_month y 2)
    then 1
    else if ltb n (days_before_month y 3)
    then 2
    else if ltb n (days_before_month y 4)
    then 3
    else if ltb n (days_before_month y 5)
    then 4
    else if ltb n (days_before_month y 6)
    then 5
    else if ltb n (days_before_month y 7)
    then 6
    else if ltb n (days_before_month y 8)
    then 7
    else if ltb n (days_before_month y 9)
    then 8
    else if ltb n (days_before_month y 10)
    then 9
    else if ltb n (days_before_month y 11)
    then 10
    else if ltb n (days_before_month y 12)
    then 11
    else 12

unfoldable pub civil : ℕ → Date
civil d =
    let y = year_of d in
    let n = d - days_before_year y in
    let m = month_of y n in record { year = y; month = m; day = n - days_before_month y m + 1 }

-- `time.Date` for month 13 at most and any day: it normalises a month or a day out of range.
unfoldable pub days_of : ℕ → ℕ → ℕ → ℕ
days_of y m d =
    let y' = if ltb 12 m then y + 1 else y in
    let m' = if ltb 12 m then m - 12 else m in days_before_year y' + days_before_month y' m' + d - 1

-- `Weekday`, from 0 for Sunday; 0000-01-01 was a Saturday.
unfoldable pub weekday : ℕ → ℕ
weekday d = (d + 6) % 7
