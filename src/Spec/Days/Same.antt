-- ===== src/Spec/Days/Same.antt =====
-- `dayMatches` reads the wall date and the weekday of a time, and nothing else of it.
use go_cron.Prelude.{ℕ, ◌+◌, ◌-◌, ◌/◌, ◌≡◌, refl, ap, List, [], ◌∷◌, ltb, ◌==◌, arith}
use go_cron.Time.Calendar.{Date}
use go_cron.Time.Wall
use go_cron.Time.Wall.{Time}
use go_cron.Spec.{
  SpecSchedule, DomConstraint, DowConstraint, last, last_offset, last_weekday, nearest_weekday,
  field_matches,
}
use go_cron.Spec.Days.{
  days_in, last_weekday_of_month, nearest_weekday_of, last_day_of_month, weekday_occurrence,
  is_last_occurrence, is_pos, dom_constraint_holds, dom_constraint_matches, dow_constraint_matches,
  dom_match, dow_match, day_matches,
}

pub record SameDay (t u : Time) : Type 0 where
  pub dates : Wall.wall_date t ≡ Wall.wall_date u
  pub weekdays : Wall.weekday t ≡ Wall.weekday u

module _ (t u : Time) (e : SameDay t u) where
  dom_constraint_holds-same :
      (c : DomConstraint) → dom_constraint_holds c t ≡ dom_constraint_holds c u
  unfolding dom_constraint_holds last_day_of_month
  dom_constraint_holds-same last = ap (λ (c : Date). c.day == days_in c.year c.month) e.dates
  dom_constraint_holds-same (last_offset n) =
      ap (λ (c : Date). c.day == days_in c.year c.month - n) e.dates
  dom_constraint_holds-same last_weekday =
      ap (λ (c : Date). c.day == last_weekday_of_month c.year c.month) e.dates
  dom_constraint_holds-same (nearest_weekday n) =
      ap (λ (c : Date). is_pos c.day (nearest_weekday_of c.year c.month n)) e.dates

  dom_constraint_matches-same :
      (cs : List DomConstraint) → dom_constraint_matches cs t ≡ dom_constraint_matches cs u
  unfolding dom_constraint_matches
  dom_constraint_matches-same [] = refl
  dom_constraint_matches-same (c ∷ cs) =
      ground (arith, dom_constraint_holds-same c, dom_constraint_matches-same cs)

  weekday_occurrence-same : weekday_occurrence t ≡ weekday_occurrence u
  unfolding weekday_occurrence
  weekday_occurrence-same = ap (λ (c : Date). (c.day - 1) / 7 + 1) e.dates

  is_last_occurrence-same : is_last_occurrence t ≡ is_last_occurrence u
  unfolding is_last_occurrence last_day_of_month
  is_last_occurrence-same = ap (λ (c : Date). ltb (days_in c.year c.month) (c.day + 7)) e.dates

  dow_constraint_matches-same :
      (cs : List DowConstraint) → dow_constraint_matches cs t ≡ dow_constraint_matches cs u
  unfolding dow_constraint_matches
  dow_constraint_matches-same [] = refl
  dow_constraint_matches-same (c ∷ cs) =
      rw (
        e.weekdays,
        weekday_occurrence-same,
        is_last_occurrence-same,
        dow_constraint_matches-same cs,
      )

  pub day_matches-same : (s : SpecSchedule) → day_matches s t ≡ day_matches s u
  unfolding day_matches dom_match dow_match
  day_matches-same s = ground (
    arith,
    ap (λ (c : Date). field_matches c.day s.dom) e.dates,
    ap (λ (w : ℕ). field_matches w s.dow) e.weekdays,
    dom_constraint_matches-same s.dom_constraints,
    dow_constraint_matches-same s.dow_constraints,
  )
