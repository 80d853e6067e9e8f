-- ===== src/Spec/Search/Years.antt =====
-- `advanceDate` in a location with one UTC offset.
use native.Mathlib.Decide.{dec_le}
use go_cron.Prelude.{
  ℕ, zero, suc, ◌+◌, ◌*◌, ◌/◌, ◌≤◌, ◌<◌, ◌≡◌, refl, sym, ap, ◌∙◌, ◌⊎◌, Bool, true, false, ltb, inl,
  inr, Bool-cases, arith, Option, some,
}
use go_cron.Prelude.Int.{ℤ, pos_part}
use go_cron.Time.Calendar
use go_cron.Time.Calendar.{Date, days_before_year}
use go_cron.Time.Calendar.Laws
use go_cron.Time.Calendar.Laws.{civil-IsDateOf}
use go_cron.Time.Wall
use go_cron.Spec.{SpecSchedule, year_matches}
use go_cron.Spec.Dates.{date_start}
use go_cron.Spec.Fixed
use go_cron.Spec.Fixed.{at, fixed}
use go_cron.Spec.Search.{Searched, exhausted, advance_date}
use go_cron.Spec.Search.Lands.{Skips, Skips-none, Skips-join, Outcome-nest, Skips-both_left, both}
use go_cron.Spec.Search.Dates.{date_at, Finds, Finds-extend, year-at}
use go_cron.Spec.Search.Months.{month_day_test, advance_month-Finds}

module _ (off : ℤ) (s : SpecSchedule) where
  abbrev pub year_test : ℕ → Bool
  year_test u = year_matches (Wall.year (at off u)) s.year

  -- The wall second is on a date that matches.
  abbrev pub date_test : ℕ → Bool
  date_test = both year_test (month_day_test off s)

  -- The search gave up past the second `end`, with no match before.
  pub record IsExhausted (lo end : ℕ) (r : Option Searched) : Type 0 where
    pub wall : ℕ
    pub added : Bool
    pub returns : r ≡ some (record { time = at off wall; added = added; step = exhausted })
    pub past : end ≤ wall
    pub skips : Skips date_test lo wall

  year_keeps :
      (w u : ℕ)
      → pos_part off ≤ w
      → w ≤ u
      → u < days_before_year ((date_at w).year + 1) * 86400
      → year_test u ≡ year_test w
  year_keeps w u h p q =
      let same = Laws.same_year (w / 86400) (u / 86400) (omega arith) (omega arith) in
      ap (λ (k : ℕ). year_matches k s.year)
        (year-at off u (omega arith) ∙ same ∙ sym (year-at off w h))

  next_year-at :
      (w : ℕ)
      → pos_part off ≤ w
      → date_start (Wall.year (at off w) + 1) 1 1 (fixed off) (at off w)
        ≡ at off (days_before_year ((date_at w).year + 1) * 86400)
  next_year-at w h =
      let days : Calendar.days_of (Wall.year (at off w) + 1) 1 1
          ≡ days_before_year ((date_at w).year + 1) =
        Laws.days_of_year_start (Wall.year (at off w) + 1)
        ∙ ap (λ (k : ℕ). days_before_year (k + 1)) (year-at off w h) in
      Fixed.date_start-at off _ _ _ w h (omega (arith, days, (civil-IsDateOf (w / 86400)).in_year))
      ∙ ap (λ (k : ℕ). at off (k * 86400)) days

  pub advance_date-Finds :
      (fuel w limit : ℕ) (added : Bool)
      → pos_part off ≤ w
      → (date_at w).year ≤ limit
      → days_before_year (limit + 1) * 86400 + 1 < w + fuel
      → Finds off date_test w
          (days_before_year (limit + 1) * 86400)
          (advance_date fuel s (at off w) (fixed off) added limit)
        ⊎ IsExhausted w
            (days_before_year (limit + 1) * 86400)
            (advance_date fuel s (at off w) (fixed off) added limit)
  unfolding advance_date
  advance_date-Finds zero w limit added h le f = absurd (
      omega (
        arith,
        (civil-IsDateOf (w / 86400)).in_year,
        Laws.days_before_year_mono ((date_at w).year + 1) (limit + 1) (omega arith),
      ))
  advance_date-Finds (suc fuel) w limit added h le f =
      let c = civil-IsDateOf (w / 86400) in
      let y = (date_at w).year in
      let n = days_before_year (y + 1) * 86400 in
      let hn : pos_part off ≤ n = omega (arith, c.in_year) in
      let fits = Laws.days_before_year_mono (y + 1) (limit + 1) (omega arith) in
      elim (Bool-cases (year_test w)) [
        | inl t ↦
            let l = advance_month-Finds off s fuel w y added h refl (omega (arith, fits)) in
            rw t (
              inl (record {
                wall = l.wall;
                added = l.added;
                wrap = l.wrap;
                returns = l.returns;
                outcome =
                    Outcome-nest year_test (month_day_test off s) w w n _ l.wall l.wrap
                      (omega arith) t (Skips-none year_test w) (omega (arith, fits))
                      (λ u p q. year_keeps w u h p q) l.outcome;
              }))
        | inr t ↦
            let fails : Skips year_test w n = λ u p q. year_keeps w u h p q ∙ t in
            let skip = Skips-both_left year_test (month_day_test off s) w n fails in
            let year_n : (date_at n).year ≡ y + 1 =
              ap (λ (k : ℕ). (Calendar.civil k).year) (omega arith)
              ∙ ap (λ (x : Date). x.year) (Laws.civil-year_start (y + 1)) in
            elim (dec_le (y + 1) limit) [
              | yes more ↦
                  let ok : ltb limit (Wall.year (at off n)) ≡ false =
                    ground (arith, year-at off n hn, year_n) in
                  rw (t, next_year-at w h, ok)
                    (elim (advance_date-Finds fuel n limit true hn (omega arith)
                      (omega (arith, c.in_year))) [
                        | inl l ↦
                            inl
                              (Finds-extend off date_test w n _ _ (omega (arith, c.in_year)) skip l)
                        | inr x ↦ inr (record {
                          wall = x.wall;
                          added = x.added;
                          returns = x.returns;
                          past = x.past;
                          skips = Skips-join date_test w n x.wall skip x.skips;
                        })
                      ])
              | no past ↦
                  let over : ltb limit (Wall.year (at off n)) ≡ true =
                    ground (arith, year-at off n hn, year_n) in
                  rw (t, next_year-at w h, over)
                    (inr (record {
                      wall = n;
                      added = true;
                      returns = refl;
                      past =
                          omega
                            (arith, Laws.days_before_year_mono (limit + 1) (y + 1) (omega arith));
                      skips = skip;
                    }))
            ]
      ]
