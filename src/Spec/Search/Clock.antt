-- ===== src/Spec/Search/Clock.antt =====
-- `advanceTime` in a location with one UTC offset.
use go_cron.Prelude.{ℕ, ◌+◌, ◌*◌, ◌/◌, ◌≤◌, ◌≡◌, refl, ap, Bool, true, false, Option, some, arith}
use go_cron.Prelude.Int.{ℤ, pos_part}
use go_cron.Spec.{SpecSchedule, field_matches}
use go_cron.Spec.Fixed.{at}
use go_cron.Spec.Search.{Moved, keep_added, then_second, then_minute, advance_time}
use go_cron.Spec.Search.Lands.{Skips-both_left, Outcome, Outcome-nest, Lands, Lands-wrap, both}
use go_cron.Spec.Search.TimeOfDay.{
  hour_test, minute_test, second_test, advance_hour-Lands, advance_minute-Lands,
  advance_second-Lands,
}

module _ (off : ℤ) (s : SpecSchedule) where
  abbrev pub minute_second_test : ℕ → Bool
  minute_second_test = both (minute_test s.minute) (second_test s.second)

  -- The wall second matches the schedule's hour, minute and second.
  abbrev pub time_test : ℕ → Bool
  time_test = both (hour_test s.hour) minute_second_test

  keep_added-Lands :
      (test : ℕ → Bool) (lo end : ℕ) (added : Bool) (r : Option Moved)
      → Lands off test lo end r
      → Lands off test lo end (keep_added added r)
  unfolding keep_added
  keep_added-Lands test lo end added r l =
      rw l.returns (record {
        wall = l.wall;
        added = added;
        wrap = l.wrap;
        returns = refl;
        outcome = l.outcome;
      })

  module _ (fuel lo d : ℕ) (h : pos_part off ≤ lo) where
    then_second-at :
        (v : ℕ) (added wrap : Bool)
        → (d + 1) * 3600 ≤ lo + fuel
        → Outcome (minute_test s.minute) lo ((d + 1) * 3600) v wrap
        → Lands off minute_second_test lo
            ((d + 1) * 3600)
            (then_second fuel s (some (record { time = at off v; added = added; wrap = wrap })))
    unfolding then_second
    then_second-at v added true f (p, q, r) =
        Lands-wrap off minute_second_test lo v _ added p q
          (Skips-both_left (minute_test s.minute) (second_test s.second) lo v r)
    then_second-at v added false f (p, q, t, r) =
        let l =
          advance_second-Lands off s.second fuel v (v / 60) added (omega arith) refl
            (omega arith) in
        keep_added-Lands minute_second_test lo _ added _ (record {
          wall = l.wall;
          added = l.added;
          wrap = l.wrap;
          returns = l.returns;
          outcome =
              Outcome-nest (minute_test s.minute) (second_test s.second) lo v ((v / 60 + 1) * 60) _
                l.wall l.wrap p t r (omega arith)
                (λ u a b. ap (λ (k : ℕ). field_matches k s.minute) (omega arith)) l.outcome;
        })

    then_second-Lands :
        (r : Option Moved)
        → (d + 1) * 3600 ≤ lo + fuel
        → Lands off (minute_test s.minute) lo ((d + 1) * 3600) r
        → Lands off minute_second_test lo ((d + 1) * 3600) (then_second fuel s r)
    then_second-Lands r f l = rw l.returns (then_second-at l.wall l.added l.wrap f l.outcome)

  module _ (fuel lo d : ℕ) (h : pos_part off ≤ lo) where
    then_minute-at :
        (v : ℕ) (added wrap : Bool)
        → (d + 1) * 86400 ≤ lo + fuel
        → Outcome (hour_test s.hour) lo ((d + 1) * 86400) v wrap
        → Lands off time_test lo
            ((d + 1) * 86400)
            (then_minute fuel s (some (record { time = at off v; added = added; wrap = wrap })))
    unfolding then_minute
    then_minute-at v added true f (p, q, r) =
        Lands-wrap off time_test lo v _ added p q
          (Skips-both_left (hour_test s.hour) minute_second_test lo v r)
    then_minute-at v added false f (p, q, t, r) =
        let minutes =
          advance_minute-Lands off s.minute fuel v (v / 3600) added (omega arith) refl
            (omega arith) in
        let l = then_second-Lands fuel v (v / 3600) (omega arith) _ (omega arith) minutes in
        record {
          wall = l.wall;
          added = l.added;
          wrap = l.wrap;
          returns = l.returns;
          outcome =
              Outcome-nest (hour_test s.hour) minute_second_test lo v ((v / 3600 + 1) * 3600) _
                l.wall l.wrap p t r (omega arith)
                (λ u a b. ap (λ (k : ℕ). field_matches k s.hour) (omega arith)) l.outcome;
        }

  -- `advanceTime` finds the first second of the day from `w` on that matches, or goes on from a
  -- later second of the day, or from the next day, with no match before.
  pub advance_time-Lands :
      (fuel w d : ℕ) (added : Bool)
      → pos_part off ≤ w
      → w / 86400 ≡ d
      → (d + 1) * 86400 ≤ w + fuel
      → Lands off time_test w ((d + 1) * 86400) (advance_time fuel s (at off w) added)
  unfolding advance_time
  advance_time-Lands fuel w d added h e f =
      let l = advance_hour-Lands off s.hour fuel w d added h e f in
      rw l.returns (then_minute-at fuel w d h l.wall l.added l.wrap f l.outcome)
