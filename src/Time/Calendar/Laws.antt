-- ===== src/Time/Calendar/Laws.antt =====
-- The day number determines the date and the date the day number.
use native.Mathlib.Nat.{le_refl}
use native.Mathlib.Decide.{dec_lt}
use go_cron.Prelude.{
  ℕ, zero, suc, ◌+◌, ◌-◌, ◌*◌, ◌/◌, ◌≤◌, ◌<◌, ◌≡◌, ◌≢◌, refl, ap, ◌∙◌, ◌⊎◌, inl, inr, arith,
}
use go_cron.Time.Calendar.{
  Date, is_leap, days_before_year, days_before_month, pick_year, year_of, month_of, civil, days_of,
}

year_length : (y : ℕ) → days_before_year (y + 1) ≡ days_before_year y + days_before_month y 13
unfolding days_before_year days_before_month is_leap
year_length y = ground arith

year_estimate :
    (y : ℕ)
    → (146097 * y ≤ 400 * days_before_year y + 396)
      × (400 * days_before_year y ≤ 146097 * y + 699)
      × (days_before_year y ≤ 366 * y)
unfolding days_before_year
year_estimate y = omega arith

abbrev IsYearOf : ℕ → ℕ → Type 0
IsYearOf y d = (days_before_year y ≤ d) × (d < days_before_year (y + 1))

pick_year-IsYearOf :
    (g d : ℕ) → 146097 * g ≤ 400 * d → 400 * d < 146097 * (g + 1) → IsYearOf (pick_year g d) d
unfolding pick_year
pick_year-IsYearOf zero d lo hi =
    ground
      (arith, year_estimate 0, year_estimate 1, year_estimate (0 + 1), year_estimate (0 + 1 + 1))
pick_year-IsYearOf (suc g) d lo hi =
    let e : suc g - 1 + 1 ≡ suc g = omega arith in
    ground (
      arith,
      ap days_before_year e,
      year_estimate (suc g),
      year_estimate (suc g + 1),
      year_estimate (suc g + 1 + 1),
      year_estimate (suc g - 1),
    )

-- `year_of d` is the year that holds day `d`.
pub year_of_bounds : (d : ℕ) → IsYearOf (year_of d) d
unfolding year_of
year_of_bounds d = pick_year-IsYearOf (400 * d / 146097) d (omega arith) (omega arith)

pub days_before_year_mono : (y z : ℕ) → y ≤ z → days_before_year y ≤ days_before_year z
unfolding days_before_year
days_before_year_mono y z h = omega arith

year_of_unique : (y d : ℕ) → IsYearOf y d → year_of d ≡ y
year_of_unique y d (lo, hi) =
    let (lo', hi') = year_of_bounds d in
    let no_less : y + 1 ≤ year_of d → ⊥ =
      λ h. omega (arith, days_before_year_mono (y + 1) (year_of d) h) in
    let no_more : year_of d + 1 ≤ y → ⊥ =
      λ h. omega (arith, days_before_year_mono (year_of d + 1) y h) in
    omega arith

abbrev pub IsMonth : ℕ → Type 0
IsMonth m = (1 ≤ m) × (m ≤ 12)

abbrev pub IsMonthOf : ℕ → ℕ → ℕ → Type 0
IsMonthOf y m n = (days_before_month y m ≤ n) × (n < days_before_month y (m + 1))

month_le : (y m n : ℕ) → m ≤ n → days_before_month y m ≤ days_before_month y n
unfolding days_before_month
month_le y m n h = ground arith

month_of_bounds :
    (y n : ℕ) → n < days_before_month y 13 → IsMonth (month_of y n) × IsMonthOf y (month_of y n) n
unfolding month_of days_before_month
month_of_bounds y n h = ground arith

month_of_unique : (y m n : ℕ) → IsMonth m → IsMonthOf y m n → month_of y n ≡ m
unfolding month_of days_before_month
month_of_unique y m n h b = ground arith

-- The dates of one month follow one another.
pub civil_in_month :
    (y m d : ℕ)
    → IsMonth m
    → days_before_year y + days_before_month y m ≤ d
    → d < days_before_year y + days_before_month y (m + 1)
    → civil d
      ≡ record { year = y; month = m; day = d - (days_before_year y + days_before_month y m) + 1 }
unfolding civil
civil_in_month y m d h lo hi =
    let in_year : days_before_month y (m + 1) ≤ days_before_month y 13 =
      month_le y (m + 1) 13 (omega arith) in
    let y_is = year_of_unique y d (omega arith, omega (arith, year_length y)) in
    let m_is = month_of_unique y m (d - days_before_year y) h (omega arith, omega arith) in
    let d_is : d - days_before_year y - days_before_month y m + 1
        ≡ d - (days_before_year y + days_before_month y m) + 1 =
      omega arith in
    rw (y_is, m_is, d_is)

-- `c` is the date of day `d`.
pub record IsDateOf (d : ℕ) (c : Date) : Type 0 where
  pub month_in : (1 ≤ c.month) × (c.month ≤ 12)
  pub day_in : 1 ≤ c.day
  pub day_number : days_before_year c.year + days_before_month c.year c.month + c.day ≡ d + 1
  pub in_month : d < days_before_year c.year + days_before_month c.year (c.month + 1)
  pub in_year : (days_before_year c.year ≤ d) × (d < days_before_year (c.year + 1))

pub civil-IsDateOf : (d : ℕ) → IsDateOf d (civil d)
unfolding civil
civil-IsDateOf d =
    let y = year_of_bounds d in
    let m =
      month_of_bounds (year_of d) (d - days_before_year (year_of d))
        (omega (arith, year_length (year_of d))) in
    record {
      month_in = m.0;
      day_in = omega arith;
      day_number = omega (arith, m.1);
      in_month = omega (arith, m.1);
      in_year = y;
    }

pub days_in_month_range :
    (y m : ℕ)
    → IsMonth m
    → (days_before_month y m + 28 ≤ days_before_month y (m + 1))
      × (days_before_month y (m + 1) ≤ days_before_month y m + 31)
unfolding days_before_month
days_in_month_range y m h = ground arith

-- `days_of` undoes `civil`, also for the day after.
pub days_of-civil : (d k : ℕ) → days_of (civil d).year (civil d).month ((civil d).day + k) ≡ d + k
unfolding days_of
days_of-civil d k = let c = civil-IsDateOf d in ground (arith, c.month_in, c.day_number, c.day_in)

first_month : (y m : ℕ) → m ≤ 1 → days_before_month y m ≡ 0
unfolding days_before_month
first_month y m h = ground arith

twelve : (y m : ℕ) → m ≡ 12 → days_before_month y (m + 1) ≡ days_before_month y 13
twelve y m e = ap (λ (k : ℕ). days_before_month y (k + 1)) e

-- The first day of the next month.
pub days_of_next_month :
    (y m : ℕ) → IsMonth m → days_of y (m + 1) 1 ≡ days_before_year y + days_before_month y (m + 1)
unfolding days_of
days_of_next_month y m h =
    ground (arith, year_length y, first_month (y + 1) (m + 1 - 12), twelve y m)

pub days_of_year_start : (y : ℕ) → days_of y 1 1 ≡ days_before_year y
unfolding days_of days_before_month
days_of_year_start y = ground arith

abbrev pub date : ℕ → ℕ → ℕ → Date
date y m d = record { year = y; month = m; day = d }

-- The first day after month `m` of year `y`.
abbrev pub month_end : ℕ → ℕ → ℕ
month_end y m = days_before_year y + days_before_month y (m + 1)

pub civil-month_end :
    (y m : ℕ)
    → IsMonth m
    → (m < 12) × (civil (month_end y m) ≡ date y (m + 1) 1)
      ⊎ (m ≡ 12) × (civil (month_end y m) ≡ date (y + 1) 1 1)
civil-month_end y m h = elim (dec_lt m 12) [
  | yes lt ↦ inl (
    lt,
    civil_in_month y (m + 1) (month_end y m) (omega arith) (le_refl _)
          (omega (arith, days_in_month_range y (m + 1) (omega arith)))
        ∙ ap (date y (m + 1)) (omega arith),
  )
  | no ge ↦
      let last : m ≡ 12 = omega arith in
      let day : month_end y m ≡ days_before_year (y + 1) + days_before_month (y + 1) 1 =
        omega (arith, year_length y, twelve y m last, first_month (y + 1) 1 (omega arith)) in
      inr (
        last,
        ap civil day
            ∙ civil_in_month (y + 1) 1 _ (omega arith) (le_refl _)
                (omega (arith, days_in_month_range (y + 1) 1 (omega arith)))
            ∙ ap (date (y + 1) 1) (omega arith),
      )
]

first_day : (y m : ℕ) → IsMonth m → (civil (month_end y m)).day ≡ 1
first_day y m h = elim (civil-month_end y m h) [
  | inl (lt, e) ↦ ap (λ (c : Date). c.day) e
  | inr (last, e) ↦ ap (λ (c : Date). c.day) e
]

-- The date of the next day.
pub civil-suc :
    (d : ℕ)
    → (civil (d + 1) ≡ date (civil d).year (civil d).month ((civil d).day + 1))
      ⊎ (28 ≤ (civil d).day) × (d + 1 ≡ month_end (civil d).year (civil d).month)
civil-suc d =
    let c = civil-IsDateOf d in
    let y = (civil d).year in
    let m = (civil d).month in
    elim (dec_lt (d + 1) (month_end y m)) [
      | yes lt ↦ inl (
          civil_in_month y m (d + 1) c.month_in (omega (arith, c.day_number, c.day_in)) lt
          ∙ ap (date y m) (omega (arith, c.day_number, c.day_in)))
      | no ge ↦
          let e : d + 1 ≡ month_end y m = omega (arith, c.in_month) in
          inr (omega (arith, c.day_number, days_in_month_range y m c.month_in), e)
    ]

pub day-suc : (d : ℕ) → (civil (d + 1)).day ≢ (civil d).day
day-suc d = elim (civil-suc d) [
  | inl e ↦ λ same. absurd (omega (arith, ap (λ (c : Date). c.day) e))
  | inr (long, e) ↦
      let first : (civil (d + 1)).day ≡ 1 =
        ap (λ (k : ℕ). (civil k).day) e
        ∙ first_day (civil d).year (civil d).month (civil-IsDateOf d).month_in in
      λ same. absurd (omega arith)
]

-- The dates of the days from `d` to the end of its month.
pub same_month :
    (d e : ℕ)
    → d ≤ e
    → e < month_end (civil d).year (civil d).month
    → ((civil e).year ≡ (civil d).year) × ((civil e).month ≡ (civil d).month)
same_month d e le lt =
    let c = civil-IsDateOf d in
    let r =
      civil_in_month (civil d).year (civil d).month e c.month_in
        (omega (arith, c.day_number, c.day_in)) lt in
    (ap (λ (x : Date). x.year) r, ap (λ (x : Date). x.month) r)

pub month-month_end : (y m : ℕ) → IsMonth m → (civil (month_end y m)).month ≢ m
month-month_end y m h = elim (civil-month_end y m h) [
  | inl (lt, e) ↦ λ same. absurd (omega (arith, ap (λ (x : Date). x.month) e))
  | inr (last, e) ↦ λ same. absurd (omega (arith, ap (λ (x : Date). x.month) e))
]

pub month_end-twelve : (y : ℕ) → month_end y 12 ≡ days_before_year (y + 1)
month_end-twelve y = omega (arith, year_length y, twelve y 12 refl)

pub civil-year_start : (y : ℕ) → civil (days_before_year y) ≡ date y 1 1
civil-year_start y =
    civil_in_month y 1 (days_before_year y) (omega arith)
      (omega (arith, first_month y 1 (omega arith)))
      (omega (arith, days_in_month_range y 1 (omega arith)))
    ∙ ap (date y 1) (omega (arith, first_month y 1 (omega arith)))

pub month_end-le : (y m : ℕ) → m ≤ 12 → month_end y m ≤ days_before_year (y + 1)
month_end-le y m h = omega (arith, year_length y, month_le y (m + 1) 13 (omega arith))

pub same_year :
    (d e : ℕ) → d ≤ e → e < days_before_year ((civil d).year + 1) → (civil e).year ≡ (civil d).year
unfolding civil
same_year d e le lt = year_of_unique (year_of d) e (omega (arith, year_of_bounds d), lt)
