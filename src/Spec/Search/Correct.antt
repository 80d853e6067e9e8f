-- ===== src/Spec/Search/Correct.antt =====
-- `nextExisting` in a location with one UTC offset: the first matching second, if there is one.

use go_cron.Prelude.{
  ℕ, zero, suc, ◌+◌, ◌*◌, ◌/◌, ◌≤◌, ◌<◌, ◌≡◌, refl, sym, ap, ◌∙◌, Bool, true, false, leb, inl, inr,
  Bool-cases, arith, Option, none, some,
}
use go_cron.Prelude.Int.{ℤ, pos_part}
use go_cron.Time.Calendar
use go_cron.Time.Calendar.{Date, days_before_year}
use go_cron.Time.Calendar.Laws
use go_cron.Time.Calendar.Laws.{civil-IsDateOf}
use go_cron.Time.Wall
use go_cron.Time.Wall.{Time}
use go_cron.Spec.{SpecSchedule, field_matches, year_matches}
use go_cron.Spec.Days.{matches_wall}
use go_cron.Spec.Days.Same.{day_matches-same}
use go_cron.Spec.Fixed
use go_cron.Spec.Fixed.{at, fixed}
use go_cron.Spec.Search.{after_time, after_date, search_next}
use go_cron.Spec.Search.Lands.{Skips, Skips-join, Outcome, Outcome-nest, Skips-both_left, both}
use go_cron.Spec.Search.Clock.{time_test, advance_time-Lands}
use go_cron.Spec.Search.Dates.{date_at, year-at, step_of}
use go_cron.Spec.Search.Years.{date_test, advance_date-Finds}

module _ (off : ℤ) (s : SpecSchedule) where
  -- The wall second matches the schedule.
  abbrev pub run_test : ℕ → Bool
  run_test = both (date_test off s) (time_test off s)

  pub run_test-matches_wall : (u : ℕ) → pos_part off ≤ u → run_test u ≡ matches_wall s (at off u)
  unfolding matches_wall
  run_test-matches_wall u h =
      rw (Fixed.hour-at off u h, Fixed.minute-at off u h, Fixed.second-at off u h) (ground arith)

  date_keeps :
      (w u : ℕ)
      → pos_part off ≤ w
      → w ≤ u
      → u < (w / 86400 + 1) * 86400
      → date_test off s u ≡ date_test off s w
  date_keeps w u h p q =
      let k : pos_part off ≤ u = omega arith in
      let d : u / 86400 ≡ w / 86400 = omega arith in
      let dates =
        Fixed.wall_date-at off u k ∙ ap Calendar.civil d ∙ sym (Fixed.wall_date-at off w h) in
      let days =
        day_matches-same (at off u) (at off w)
          (record {
            dates = dates;
            weekdays = omega (arith, Fixed.weekday-at off u k, Fixed.weekday-at off w h);
          })
          s in
      ground (
        arith,
        days,
        ap (λ (c : Date). year_matches c.year s.year) dates,
        ap (λ (c : Date). field_matches c.month s.month) dates,
      )

  -- What the search may answer from the wall second `lo` on: the first one that matches, or none
  -- before `end`.
  abbrev pub IsNext : ℕ → ℕ → Option Time → Type 0
  IsNext lo end none = Skips run_test lo end
  IsNext lo end (some r) =
      (v : ℕ) × (r ≡ at off v) × (lo ≤ v) × (run_test v ≡ true) × Skips run_test lo v

  unfoldable pub Answers : ℕ → ℕ → Option (Option Time) → Type 0
  Answers lo end r = (x : Option Time) × (r ≡ some x) × IsNext lo end x

  Answers-extend :
      (lo mid end : ℕ) (r : Option (Option Time))
      → lo ≤ mid
      → Skips run_test lo mid
      → Answers mid end r
      → Answers lo end r
  unfolding Answers
  Answers-extend lo mid end r h k (none, e, n) = (none, e, Skips-join run_test lo mid end k n)
  Answers-extend lo mid end r h k (some x, e, (v, at_v, p, q, n)) =
      (some x, e, (v, at_v, omega arith, q, Skips-join run_test lo mid v k n))

  module _ (fuel lo end : ℕ) (again : Time → Bool → Option (Option Time))
      (continues : (v : ℕ) (added : Bool)
        → lo < v
        → v ≤ end
        → Answers v end (again (at off v) added)) where
    after_time-at :
        (v : ℕ) (added wrap : Bool)
        → Outcome run_test lo end v wrap
        → Answers lo end
            (after_time again (some (record { time = at off v; added = added; wrap = wrap })))
    unfolding after_time
    after_time-at v added true (p, q, n) =
        Answers-extend lo v end _ (omega arith) n (continues v added p q)
    after_time-at v added false (p, q, t, n) =
        unfold Answers in (some (at off v), refl, (v, refl, p, t, n))

    after_date-at :
        (days v : ℕ) (added wrap : Bool)
        → pos_part off ≤ lo
        → end ≡ days * 86400
        → end ≤ lo + fuel
        → Outcome (date_test off s) lo end v wrap
        → Answers lo end (
            after_date again fuel s
              (some (record { time = at off v; added = added; step = step_of wrap })))
    unfolding after_date
    after_date-at days v added true h e f (p, q, n) =
        Answers-extend lo v end _ (omega arith)
          (Skips-both_left (date_test off s) (time_test off s) lo v n) (continues v added p q)
    after_date-at days v added false h e f (p, q, t, n) =
        let l =
          advance_time-Lands off s fuel v (v / 86400) added (omega arith) refl (omega arith) in
        rw l.returns (
          after_time-at l.wall l.added l.wrap (
            Outcome-nest (date_test off s) (time_test off s) lo v ((v / 86400 + 1) * 86400) end
              l.wall l.wrap p t n (omega arith) (λ u a b. date_keeps v u (omega arith) a b)
              l.outcome))

  pub search_next-Answers :
      (rounds fuel limit w : ℕ) (added : Bool)
      → pos_part off ≤ w
      → days_before_year (limit + 1) * 86400 < w + rounds
      → days_before_year (limit + 1) * 86400 + 1 < w + fuel
      → w ≤ days_before_year (limit + 1) * 86400
      → Answers w
          (days_before_year (limit + 1) * 86400)
          (search_next rounds fuel s (fixed off) limit (at off w) added)
  unfolding search_next
  search_next-Answers zero fuel limit w added h r f le = absurd (omega arith)
  search_next-Answers (suc rounds) fuel limit w added h r f le =
      let end = days_before_year (limit + 1) * 86400 in
      let c = civil-IsDateOf (w / 86400) in
      let again = search_next rounds fuel s (fixed off) limit in
      let continues : (v : ℕ) (a : Bool) → w < v → v ≤ end → Answers v end (again (at off v) a) =
        λ v a p q.
          search_next-Answers rounds fuel limit v a (omega arith) (omega arith) (omega arith) q in
      elim (Bool-cases (leb (Wall.year (at off w)) limit)) [
        | inl t ↦
            let small : (date_at w).year ≤ limit = ground (arith, year-at off w h) in
            rw (t, search_next)
              (elim (advance_date-Finds off s fuel w limit added h small f) [
                | inl l ↦ rw l.returns (
                    after_date-at fuel w end again continues (days_before_year (limit + 1)) l.wall
                      l.added l.wrap h refl (omega arith) l.outcome)
                | inr x ↦ rw x.returns (
                    unfold Answers after_date in
                    (
                      none,
                      refl,
                      λ u p q.
                          Skips-both_left (date_test off s) (time_test off s) w x.wall x.skips u p
                            (omega (arith, x.past)),
                    ))
              ])
        | inr t ↦
            let large : limit + 1 ≤ (date_at w).year = ground (arith, year-at off w h) in
            rw (t, search_next)
              (unfold Answers in
                (
                  none,
                  refl,
                  λ u p q. absurd (
                      omega (
                        arith,
                        c.in_year,
                        Laws.days_before_year_mono (limit + 1) (date_at w).year large,
                      )),
                ))
      ]
