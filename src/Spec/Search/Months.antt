-- ===== src/Spec/Search/Months.antt =====
-- The month loop of `advanceDate` in a location with one UTC offset, with `advanceDay` behind it.
use go_cron.Prelude.{
  ℕ, zero, suc, ◌+◌, ◌*◌, ◌/◌, ◌≤◌, ◌<◌, ◌≡◌, refl, sym, ap, ◌∙◌, Bool, true, false, ◌==◌, inl, inr,
  Bool-cases, arith,
}
use go_cron.Prelude.Int.{ℤ, pos_part}
use go_cron.Time.Calendar
use go_cron.Time.Calendar.{Date, days_before_year}
use go_cron.Time.Calendar.Laws
use go_cron.Time.Calendar.Laws.{month_end, civil-IsDateOf, same_month}
use go_cron.Time.Wall
use go_cron.Spec.{SpecSchedule, field_matches}
use go_cron.Spec.Dates.{date_start}
use go_cron.Spec.Fixed
use go_cron.Spec.Fixed.{at, fixed}
use go_cron.Spec.Search.{advance_month}
use go_cron.Spec.Search.Lands.{Skips, Skips-none, Outcome-nest, Skips-both_left, both}
use go_cron.Spec.Search.Dates.{
  date_at, Finds, Finds-extend, Finds-wrap, year-at, month-at, day_test, month_test,
  advance_day-Finds,
}

module _ (off : ℤ) (w : ℕ) (h : pos_part off ≤ w) where
  -- `dateStart` for the month after that of `at w`.
  pub next_month-at :
      date_start (Wall.year (at off w)) (Wall.month (at off w) + 1) 1 (fixed off) (at off w)
      ≡ at off (month_end (date_at w).year (date_at w).month * 86400)
  next_month-at =
      let c = civil-IsDateOf (w / 86400) in
      let days : Calendar.days_of (Wall.year (at off w)) (Wall.month (at off w) + 1) 1
          ≡ month_end (date_at w).year (date_at w).month =
        ap (λ (c : Date). Calendar.days_of c.year (c.month + 1) 1) (Fixed.wall_date-at off w h)
        ∙ Laws.days_of_next_month (date_at w).year (date_at w).month c.month_in in
      Fixed.date_start-at off _ _ _ w h (omega (arith, days, c.in_month))
      ∙ ap (λ (k : ℕ). at off (k * 86400)) days

module _ (off : ℤ) (s : SpecSchedule) where
  abbrev pub month_day_test : ℕ → Bool
  month_day_test = both (month_test off s) (day_test off s)

  month_keeps :
      (w u : ℕ)
      → pos_part off ≤ w
      → w ≤ u
      → u < month_end (date_at w).year (date_at w).month * 86400
      → month_test off s u ≡ month_test off s w
  month_keeps w u h p q =
      let same = same_month (w / 86400) (u / 86400) (omega arith) (omega arith) in
      ap (λ (k : ℕ). field_matches k s.month)
        (month-at off u (omega arith) ∙ same.1 ∙ sym (month-at off w h))

  pub advance_month-Finds :
      (fuel w y : ℕ) (added : Bool)
      → pos_part off ≤ w
      → (date_at w).year ≡ y
      → days_before_year (y + 1) * 86400 < w + fuel
      → Finds off month_day_test w
          (days_before_year (y + 1) * 86400)
          (advance_month fuel s (at off w) (fixed off) added)
  unfolding advance_month
  advance_month-Finds zero w y added h e f =
      let d = (civil-IsDateOf (w / 86400)).in_year.1 in
      let d' = ap (λ (k : ℕ). days_before_year (k + 1)) e in absurd (omega arith)
  advance_month-Finds (suc fuel) w y added h e f =
      let c = civil-IsDateOf (w / 86400) in
      let m = (date_at w).month in
      let end = month_end (date_at w).year m in
      let n = end * 86400 in
      let hn : pos_part off ≤ n = omega (arith, c.in_month) in
      let at_n : date_at n ≡ Calendar.civil end = ap Calendar.civil (omega arith) in
      elim (Bool-cases (month_test off s w)) [
        | inl t ↦
            let fits : end ≤ days_before_year (y + 1) = omega (
              arith,
              Laws.month_end-le (date_at w).year m c.month_in.1,
              ap (λ (k : ℕ). days_before_year (k + 1)) e,
            ) in
            let l = advance_day-Finds off s fuel w end added h refl (omega arith) in
            rw t (record {
              wall = l.wall;
              added = l.added;
              wrap = l.wrap;
              returns = l.returns;
              outcome =
                  Outcome-nest (month_test off s) (day_test off s) w w n _ l.wall l.wrap
                    (omega arith) t (Skips-none (month_test off s) w) (omega arith)
                    (λ u p q. month_keeps w u h p q) l.outcome;
            })
        | inr t ↦
            let fails : Skips (month_test off s) w n = λ u p q. month_keeps w u h p q ∙ t in
            let skip = Skips-both_left (month_test off s) (day_test off s) w n fails in
            elim (Laws.civil-month_end (date_at w).year m c.month_in) [
              | inl (less, first) ↦
                  let year_n : (date_at n).year ≡ y =
                    ap (λ (x : Date). x.year) (at_n ∙ first) ∙ e in
                  let years : (Wall.year (at off n) == Wall.year (at off w)) ≡ true =
                    ground (arith, year-at off n hn, year-at off w h, year_n, e) in
                  rw (t, next_month-at off w h, years)
                    (Finds-extend off month_day_test w n _ _ (omega (arith, c.in_month)) skip
                      (advance_month-Finds fuel n y true hn year_n (omega (arith, c.in_month))))
              | inr (last, first) ↦
                  let year_n : (date_at n).year ≡ y + 1 =
                    ap (λ (x : Date). x.year) (at_n ∙ first) ∙ ap (λ (k : ℕ). k + 1) e in
                  let years : (Wall.year (at off n) == Wall.year (at off w)) ≡ false =
                    ground (arith, year-at off n hn, year-at off w h, year_n, e) in
                  let year_end : end ≡ days_before_year (y + 1) =
                    ap (month_end (date_at w).year) last
                    ∙ Laws.month_end-twelve (date_at w).year
                    ∙ ap (λ (k : ℕ). days_before_year (k + 1)) e in
                  rw (t, next_month-at off w h, years)
                    (Finds-wrap off month_day_test w n _ true (omega (arith, c.in_month))
                      (omega arith) skip)
            ]
      ]
