-- ===== src/Spec/Tests.antt =====
-- Runs of spec.go's functions.
use go_cron.Prelude.{
  ℕ, ◌≤◌, ◌+◌, ◌*◌, ◌<◌, ◌≡◌, refl, false, not, ◌&&◌, ◌||◌, ◌==◌, [], Option, none, some, arith,
}
use go_cron.Prelude.Int.{pos}
use go_cron.Time.Calendar
use go_cron.Time.Wall
use go_cron.Time.Wall.{Time, nanos, utc}
use go_cron.Spec.{SpecSchedule, field_matches, year_matches, normalize_dow}
use go_cron.Spec.Sunday.{normalize_dow-test_bit}
use go_cron.Word.Laws.{test_bit}
use go_cron.Spec.Days
use go_cron.Spec.Days.Weekdays.{
  IsNearest, IsWeekday, nearest_weekday_of-IsNearest, last_weekday_of_month-IsWeekday,
}
use go_cron.Spec.Zones
use go_cron.Spec.Dates
use go_cron.Spec.Search
use go_cron.Spec.Search.{schedule_location, next_existing}
use go_cron.Spec.Fixed.{fixed}
use go_cron.Spec.Gap.{next}
use go_cron.Spec.Next.{shown, search_end, IsFirstRun, next-IsFirstRun}

calendar : Unit {0}
unfolding Calendar.year_of Calendar.month_of Calendar.days_before_year Calendar.days_before_month
    Calendar.is_leap Calendar.civil Calendar.days_of Calendar.weekday Wall.wall Wall.wall_date
    Wall.hour Wall.minute Wall.second Wall.nanosecond Wall.weekday Wall.add Wall.sub Wall.truncate
    Wall.date Wall.zone_start Wall.zone_end Wall.zone_offset field_matches year_matches
    Days.day_matches Days.days_in Days.dom_match Days.dow_match Days.dom_constraint_matches
    Days.dow_constraint_matches Zones.earlier_copy Zones.later_copy Zones.zone_end_after
    Zones.next_minute_start Zones.next_full_hour Zones.next_hour_start Zones.wall_day
    Zones.or_change Dates.date_start Dates.date_change_after Dates.next_midnight_or_change
    Dates.next_day Search.advance_hour Search.advance_minute Search.advance_second
    Search.advance_day Search.advance_month Search.advance_date Search.advance_time
    Search.search_next Search.search_span Search.schedule_location Search.prepare_time Wall.unix_sec
    Search.after_time Search.after_date Search.keep_added Search.then_second Search.then_minute
    Search.advance_minutes
calendar = tt

-- 2024-02-28 12:34:56.5
abbrev noon : Time
noon = record { ns = 63876342896500000000; loc = utc }

noon_date : Wall.wall_date noon ≡ record { year = 2024; month = 2; day = 28 }
unfolding Wall.wall_date calendar
noon_date = refl

-- "30 15 3 29 * *": 3:15:30 on the 29th
abbrev early : SpecSchedule
early = record {
  second = 1073741824;
  minute = 32768;
  hour = 8;
  dom = 536870912;
  month = 8190;
  dow = 127;
  year = none;
  location = none;
  max_search_years = pos 0;
  dom_constraints = [];
  dow_constraints = [];
  dow_or_dom = false;
  dst_skip = false;
}

next_run :
    next_existing 100 early noon ≡ some (some (record { ns = 63876395730 * nanos; loc = utc }))
unfolding next_existing calendar
next_run = refl

early_location : schedule_location early noon ≡ fixed (pos 0)
unfolding schedule_location
early_location = refl

-- The search ends with 2029.
early_limit : search_end (pos 0) early noon < shown (pos 0) noon + 200000000
unfolding calendar
early_limit = omega arith

next-IsFirstRun_example :
    (x : Option Time) × (next 200000000 early noon ≡ some x) × IsFirstRun (pos 0) early noon x
unfolding Wall.unix_sec
next-IsFirstRun_example =
    next-IsFirstRun (pos 0) early noon early_location (omega arith) 200000000 early_limit

-- Sunday, 31 March 2024
days_in_march : 31 ≤ Days.days_in 2024 3
unfolding calendar
days_in_march = omega arith

nearest_weekday_of-IsNearest_example :
    (n : ℕ) × (Days.nearest_weekday_of 2024 3 31 ≡ pos n) × IsNearest 2024 3 31 n
nearest_weekday_of-IsNearest_example =
    nearest_weekday_of-IsNearest 2024 3 31 (omega arith, omega arith) (omega arith) days_in_march

nearest_in_march : Days.nearest_weekday_of 2024 3 31 ≡ pos 29
unfolding calendar Days.nearest_weekday_of Days.weekday_of
nearest_in_march = refl

last_weekday_of_month-IsWeekday_example :
    (Days.last_weekday_of_month 2024 3 ≤ Days.days_in 2024 3)
    × IsWeekday 2024 3 (Days.last_weekday_of_month 2024 3)
    × ((k : ℕ)
        → 1 ≤ k
        → k ≤ Days.days_in 2024 3
        → IsWeekday 2024 3 k
        → k ≤ Days.last_weekday_of_month 2024 3)
last_weekday_of_month-IsWeekday_example =
    last_weekday_of_month-IsWeekday 2024 3 (omega arith, omega arith)

-- Sunday as 7 and Saturday
normalize_dow-test_bit_example :
    test_bit 0 (normalize_dow 192)
    ≡ (not (0 == 7) && (test_bit 0 192 || ((0 == 0) && test_bit 7 192)))
normalize_dow-test_bit_example = normalize_dow-test_bit 0 192 (omega arith)
