-- ===== src/Spec/Search/Dates.antt =====
-- The day, month and year loops of the search in a location with one UTC offset.
use native.Mathlib.Decide.{dec_lt}
use go_cron.Prelude.{
  ℕ, zero, suc, ◌+◌, ◌*◌, ◌/◌, ◌≤◌, ◌<◌, ◌≡◌, refl, sym, ap, ◌∙◌, Bool, true, false, ◌==◌, inl, inr,
  Bool-cases, arith, Option, some,
}
use go_cron.Prelude.Int.{ℤ, pos_part}
use go_cron.Time.Calendar
use go_cron.Time.Calendar.{Date, days_before_year}
use go_cron.Time.Calendar.Laws
use go_cron.Time.Calendar.Laws.{month_end, civil-IsDateOf, same_month}
use go_cron.Time.Wall
use go_cron.Spec.{SpecSchedule, field_matches}
use go_cron.Spec.Days.{day_matches}
use go_cron.Spec.Days.Same.{day_matches-same}
use go_cron.Spec.Fixed
use go_cron.Spec.Fixed.{at, fixed}
use go_cron.Spec.Search.{Searched, SearchStep, found, wrapped, advance_day}
use go_cron.Spec.Search.Lands.{Skips, Skips-none, Outcome, Outcome-extend}

abbrev pub step_of : Bool → SearchStep
step_of true = wrapped
step_of false = found

abbrev pub date_at : ℕ → Date
date_at w = Calendar.civil (w / 86400)

module _ (off : ℤ) (test : ℕ → Bool) where
  pub record Finds (lo end : ℕ) (r : Option Searched) : Type 0 where
    pub wall : ℕ
    pub added : Bool
    pub wrap : Bool
    pub returns : r ≡ some (record { time = at off wall; added = added; step = step_of wrap })
    pub outcome : Outcome test lo end wall wrap

  pub Finds-extend :
      (lo mid end : ℕ) (r : Option Searched)
      → lo ≤ mid
      → Skips test lo mid
      → Finds mid end r
      → Finds lo end r
  Finds-extend lo mid end r h k l = record {
    wall = l.wall;
    added = l.added;
    wrap = l.wrap;
    returns = l.returns;
    outcome = Outcome-extend test lo mid end l.wall l.wrap h k l.outcome;
  }

  Finds-here :
      (lo end : ℕ) (added : Bool)
      → lo < end
      → test lo ≡ true
      → Finds lo end (some (record { time = at off lo; added = added; step = found }))
  Finds-here lo end added h e = record {
    wall = lo;
    added = added;
    wrap = false;
    returns = refl;
    outcome = (omega arith, h, e, Skips-none test lo);
  }

  pub Finds-wrap :
      (lo v end : ℕ) (added : Bool)
      → lo < v
      → v ≤ end
      → Skips test lo v
      → Finds lo end (some (record { time = at off v; added = added; step = wrapped }))
  Finds-wrap lo v end added h k s = record {
    wall = v;
    added = added;
    wrap = true;
    returns = refl;
    outcome = (h, k, s);
  }

module _ (off : ℤ) (w : ℕ) (h : pos_part off ≤ w) where
  pub year-at : Wall.year (at off w) ≡ (date_at w).year
  year-at = ap (λ (c : Date). c.year) (Fixed.wall_date-at off w h)

  pub month-at : Wall.month (at off w) ≡ (date_at w).month
  month-at = ap (λ (c : Date). c.month) (Fixed.wall_date-at off w h)

module _ (off : ℤ) (s : SpecSchedule) where
  abbrev pub day_test : ℕ → Bool
  day_test u = day_matches s (at off u)

  abbrev pub month_test : ℕ → Bool
  month_test u = field_matches (Wall.month (at off u)) s.month

  day_fails :
      (w : ℕ) → pos_part off ≤ w → day_test w ≡ false → Skips day_test w ((w / 86400 + 1) * 86400)
  day_fails w h e u p q =
      let d : u / 86400 ≡ w / 86400 = omega arith in
      let k : pos_part off ≤ u = omega arith in
      day_matches-same (at off u) (at off w)
        (record {
          dates =
              Fixed.wall_date-at off u k ∙ ap Calendar.civil d ∙ sym (Fixed.wall_date-at off w h);
          weekdays = omega (arith, Fixed.weekday-at off u k, Fixed.weekday-at off w h);
        })
        s
      ∙ e

  pub advance_day-Finds :
      (fuel w e : ℕ) (added : Bool)
      → pos_part off ≤ w
      → month_end (date_at w).year (date_at w).month ≡ e
      → e * 86400 ≤ w + fuel
      → Finds off day_test w (e * 86400) (advance_day fuel s (at off w) added)
  unfolding advance_day
  advance_day-Finds zero w e added h m f =
      absurd (omega (arith, (civil-IsDateOf (w / 86400)).in_month))
  advance_day-Finds (suc fuel) w e added h m f =
      let d = w / 86400 in
      let n = (d + 1) * 86400 in
      let nd : n / 86400 ≡ d + 1 = omega arith in
      let hn : pos_part off ≤ n = omega arith in
      let inside = (civil-IsDateOf d).in_month in
      elim (Bool-cases (day_test w)) [
        | inl t ↦ rw t (Finds-here off day_test w _ added (omega arith) t)
        | inr t ↦ elim (dec_lt (d + 1) e) [
          | yes lt ↦
              let (same_y, same_m) = same_month d (d + 1) (omega arith) (omega arith) in
              let months : (Wall.month (at off n) == Wall.month (at off w)) ≡ true = ground (
                arith,
                month-at off n hn,
                month-at off w h,
                ap (λ (k : ℕ). (Calendar.civil k).month) nd,
                same_m,
              ) in
              let m' : month_end (date_at n).year (date_at n).month ≡ e =
                ap (λ (k : ℕ). month_end (Calendar.civil k).year (Calendar.civil k).month) nd
                ∙ ap (λ (k : ℕ). month_end k (Calendar.civil (d + 1)).month) same_y
                ∙ ap (λ (k : ℕ). month_end (Calendar.civil d).year k) same_m
                ∙ m in
              rw (t, Fixed.next_day-at off w h, months)
                (Finds-extend off day_test w n _ _ (omega arith) (day_fails w h t)
                  (advance_day-Finds fuel n e true hn m' (omega arith)))
          | no ge ↦
              let end : d + 1 ≡ month_end (date_at w).year (date_at w).month = omega arith in
              let months : (Wall.month (at off n) == Wall.month (at off w)) ≡ false = ground (
                arith,
                month-at off n hn,
                month-at off w h,
                ap (λ (k : ℕ). (Calendar.civil k).month) (nd ∙ end),
                Laws.month-month_end (date_at w).year (date_at w).month (civil-IsDateOf d).month_in,
              ) in
              rw (t, Fixed.next_day-at off w h, months)
                (Finds-wrap off day_test w n _ true (omega arith) (omega arith) (day_fails w h t))
        ]
      ]
