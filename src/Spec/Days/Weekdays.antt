-- ===== src/Spec/Days/Weekdays.antt =====
-- The days that the constraints W and LW of spec.go stand for.
use go_cron.Prelude.{
  ℕ, ◌+◌, ◌-◌, ◌%◌, ◌≤◌, ◌≡◌, ◌⊎◌, inl, inr, refl, ap, ◌∙◌, false, ltb, ◌==◌, Bool-cases, ==_iff,
  arith,
}
use go_cron.Prelude.Int.{pos}
use go_cron.Time.Calendar.{Date, days_before_year, days_before_month, days_of, civil, weekday}
use go_cron.Time.Calendar.Laws.{
  IsMonth, civil_in_month, days_in_month_range, days_of_next_month, month_end,
}
use go_cron.Spec.Days.{days_in, weekday_of, nearest_weekday_of, last_weekday_of_month}

-- The day of the month before the next one's first.
pub days_in-eq :
    (y m : ℕ) → IsMonth m → days_in y m + days_before_month y m ≡ days_before_month y (m + 1)
unfolding days_in
days_in-eq y m h =
    let range = days_in_month_range y m h in
    let last = month_end y m - 1 in
    let end : days_of y (m + 1) 0 ≡ last =
      unfold days_of in omega (arith, days_of_next_month y m h) in
    let c = civil_in_month y m last h (omega (arith, range)) (omega (arith, range)) in
    let d : (civil (days_of y (m + 1) 0)).day
        ≡ last - (days_before_year y + days_before_month y m) + 1 =
      ap (λ (n : ℕ). (civil n).day) end ∙ ap (λ (x : Date). x.day) c in
    omega (arith, d, range)

pub days_in_bounds : (y m : ℕ) → IsMonth m → (28 ≤ days_in y m) × (days_in y m ≤ 31)
days_in_bounds y m h = (
  omega (arith, days_in-eq y m h, days_in_month_range y m h),
  omega (arith, days_in-eq y m h, days_in_month_range y m h),
)

-- From Monday to Friday.
abbrev pub IsWeekday : ℕ → ℕ → ℕ → Type 0
IsWeekday y m d = (1 ≤ weekday_of y m d) × (weekday_of y m d ≤ 5)

weekday_of-first :
    (y m d : ℕ)
    → IsMonth m
    → 1 ≤ d
    → weekday_of y m d ≡ (days_before_year y + days_before_month y m + d + 5) % 7
unfolding weekday_of weekday days_of
weekday_of-first y m d h k = ground arith

abbrev pub apart : ℕ → ℕ → ℕ
apart a b = a - b + (b - a)

-- No day of the month from Monday to Friday is nearer to `target` than `n`, which is one.
abbrev pub IsNearest : ℕ → ℕ → ℕ → ℕ → Type 0
IsNearest y m target n =
    (1 ≤ n)
    × (n ≤ days_in y m)
    × IsWeekday y m n
    × ((k : ℕ) → 1 ≤ k → k ≤ days_in y m → IsWeekday y m k → apart target n ≤ apart target k)

module _ (y m target : ℕ) (h : IsMonth m) (lo : 1 ≤ target) (hi : target ≤ days_in y m) where
  near :
      (n : ℕ)
      → 1 ≤ n
      → n ≤ days_in y m
      → (((n ≡ target) × IsWeekday y m target)
          ⊎ (((n + 1 ≡ target) × (weekday_of y m target ≡ 6))
              ⊎ (((n ≡ target + 1) × (weekday_of y m target ≡ 0))
                  ⊎ (((n ≡ target + 2) × ((target ≡ 1) × (weekday_of y m target ≡ 6)))
                      ⊎ ((n + 2 ≡ target)
                          × ((target ≡ days_in y m) × (weekday_of y m target ≡ 0)))))))
      → IsNearest y m target n
  near n a b c =
      let t = weekday_of-first y m target h lo in
      let w = weekday_of-first y m n h a in
      (
        a,
        b,
        (grind (arith, t, w, c), grind (arith, t, w, c)),
        λ k p q e. let x = weekday_of-first y m k h p in grind (arith, t, x, c, e.0, e.1),
      )

  -- `nW`: for a day of a month, `nearestWeekday` returns a day of the month from Monday to Friday,
  -- and none is nearer.
  pub nearest_weekday_of-IsNearest :
      (n : ℕ) × (nearest_weekday_of y m target ≡ pos n) × IsNearest y m target n
  unfolding nearest_weekday_of
  nearest_weekday_of-IsNearest =
      let inside : ltb (days_in y m) target ≡ false = ground arith in
      let long = days_in_bounds y m h in
      let w = weekday_of-first y m target h lo in
      elim (Bool-cases (weekday_of y m target == 6)) [
        | inl sat ↦
            let sat' = (==_iff (weekday_of y m target) 6).0 sat in
            elim (Bool-cases (ltb 1 target)) [
              | inl c ↦ (
                target - 1,
                rw (inside, sat, c) refl,
                near (target - 1) (ground arith) (omega arith) (inr (inl (ground arith, sat'))),
              )
              | inr c ↦ (
                target + 2,
                rw (inside, sat, c) refl,
                near (target + 2) (omega arith) (ground (arith, long))
                    (inr (inr (inr (inl (refl, (ground arith, sat')))))),
              )
            ]
        | inr no_sat ↦ elim (Bool-cases (weekday_of y m target == 0)) [
          | inl sun ↦
              let sun' = (==_iff (weekday_of y m target) 0).0 sun in
              elim (Bool-cases (ltb target (days_in y m))) [
                | inl c ↦ (
                  target + 1,
                  rw (inside, no_sat, sun, c) refl,
                  near (target + 1) (omega arith) (ground arith) (inr (inr (inl (refl, sun')))),
                )
                | inr c ↦ (
                  target - 2,
                  rw (inside, no_sat, sun, c) refl,
                  near (target - 2) (ground (arith, long)) (omega arith)
                      (inr (inr (inr (inr (ground (arith, long), (ground arith, sun')))))),
                )
              ]
          | inr no_sun ↦ (
            target,
            rw (inside, no_sat, no_sun) refl,
            near target lo hi (inl (refl, (ground (arith, w), ground (arith, w)))),
          )
        ]
      ]

-- `LW`: `lastWeekdayOfMonth` returns the last of a month's days from Monday to Friday.
pub last_weekday_of_month-IsWeekday :
    (y m : ℕ)
    → IsMonth m
    → (last_weekday_of_month y m ≤ days_in y m)
      × IsWeekday y m (last_weekday_of_month y m)
      × ((k : ℕ) → 1 ≤ k → k ≤ days_in y m → IsWeekday y m k → k ≤ last_weekday_of_month y m)
unfolding last_weekday_of_month
last_weekday_of_month-IsWeekday y m h =
    let b = days_in_bounds y m h in
    let d = days_in y m in
    let w0 = weekday_of-first y m d h (omega (arith, b)) in
    let w1 = weekday_of-first y m (d - 1) h (omega (arith, b)) in
    let w2 = weekday_of-first y m (d - 2) h (omega (arith, b)) in
    (
      ground arith,
      (ground (arith, b, w0, w1, w2), ground (arith, b, w0, w1, w2)),
      λ k p q e. let x = weekday_of-first y m k h p in ground (arith, b, w0, x, e.0, e.1),
    )
