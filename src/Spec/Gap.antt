-- ===== src/Spec/Gap.antt =====
-- spec.go: `Next`, with the one run per DST spring-forward gap that `gapRun` finds.
use mathlib.Core.Option
use go_cron.Prelude.{
  ℕ, zero, suc, ◌+◌, ◌-◌, ◌*◌, ◌/◌, ◌%◌, Bool, not, ◌&&◌, ◌||◌, ◌==◌, if◌then◌else◌, Option, none,
  some, length,
}
use go_cron.Prelude.Int.{pos_part, ◌-ℤ◌}
use go_cron.Time.Wall
use go_cron.Time.Wall.{Time, Location, nanos, utc}
use go_cron.Spec.{SpecSchedule, field_matches, year_matches}
use go_cron.Spec.Days.{day_matches}
use go_cron.Spec.Zones.{zone_end_after}
use go_cron.Spec.Search.{schedule_location, search_span, next_existing}

-- In nanoseconds; 0 for any transition that does not move the clock forward.
unfoldable pub gap_length : Time → Location → ℕ
gap_length tr l =
    pos_part (
      Wall.zone_offset (Wall.in_location tr l)
      -ℤ Wall.zone_offset (Wall.in_location (Wall.sub tr 1) l))
    * nanos

date_and_minute_match : SpecSchedule → Time → Bool
date_and_minute_match s w =
    year_matches (Wall.year w) s.year
    && (field_matches (Wall.month w) s.month
        && (day_matches s w
            && (field_matches (Wall.hour w) s.hour && field_matches (Wall.minute w) s.minute)))

-- The inner loop of `gapRun`: the first second of the minute of `w` that matches. A minute has at
-- most 60 seconds.
gap_second : ℕ → SpecSchedule → Time → Time → Time → Option Time
gap_second zero s w end sec = none
gap_second (suc rounds) s w end sec =
    let rest = gap_second rounds s w end (Wall.add sec nanos) in
    if (Wall.minute sec == Wall.minute w) && Wall.before sec end
    then (if field_matches (Wall.second sec) s.second then some sec else rest)
    else none

next_full_minute : Time → Time
next_full_minute w = record w { ns = w.ns - w.ns % (60 * nanos) + 60 * nanos }

-- The outer loop, over the minutes that the gap skips.
gap_minute : ℕ → SpecSchedule → Time → Time → Option Time
unfolding date_and_minute_match gap_second next_full_minute
gap_minute zero s end w = none
gap_minute (suc rounds) s end w =
    let rest = gap_minute rounds s end (next_full_minute w) in
    if not (Wall.before w end)
    then none
    else if not (date_and_minute_match s w)
    then rest
    else elim (gap_second 60 s w end w) [ none ↦ rest | some sec ↦ some sec ]

unfoldable pub gap_run : SpecSchedule → Time → Location → Option Time
unfolding gap_minute
gap_run s tr l =
    let gap = gap_length tr l in
    let before = Wall.zone_offset (Wall.in_location (Wall.sub tr 1) l) in
    let start : Time = record { ns = Wall.shift (Wall.unix_sec tr) before * nanos; loc = utc } in
    let end = Wall.add start gap in
    if gap == 0
    then none
    else Option.map (λ sec. Wall.add tr (sec.ns - start.ns))
        (gap_minute (gap / (60 * nanos) + 2) s end start)

-- The loop of `nextGapRun` over the transitions.
gap_runs : ℕ → SpecSchedule → Time → Location → Time → Option Time → Option Time
gap_runs zero s t l limit tr = none
gap_runs (suc rounds) s t l limit none = none
gap_runs (suc rounds) s t l limit (some tr) =
    let rest = gap_runs rounds s t l limit (zone_end_after (Wall.in_location tr l)) in
    if not (Wall.before tr limit) then none else elim (gap_run s tr l) [
      | none ↦ rest
      | some run ↦ if Wall.after run t && Wall.before run limit then some run else rest
    ]

-- The gap that opened the zone in effect at `t`, if its run can still lie after `t`.
opening_gap : Time → Location → Option Time
opening_gap t l =
    let later = zone_end_after (Wall.in_location t l) in
    elim (Wall.zone_start (Wall.in_location t l)) [
      | none ↦ later
      | some tr ↦
          if Wall.after tr t || not (Wall.before t (Wall.add tr (gap_length tr l)))
          then later
          else some tr
    ]

unfoldable pub next_gap_run : SpecSchedule → Time → Option Time → Option Time
unfolding gap_runs opening_gap
next_gap_run s t next =
    let l = schedule_location s t in
    let limit : Time = elim next [
      | none ↦ Wall.date (Wall.year (Wall.in_location t l) + search_span s + 1) 1 1 0 0 0 l
      | some n ↦ n
    ] in
    gap_runs (length l.transitions + 1) s t l limit (opening_gap t l)

-- `Next`; the outer `none` is a search without enough fuel.
unfoldable pub next : ℕ → SpecSchedule → Time → Option (Option Time)
next fuel s t = elim (next_existing fuel s t) [
  | none ↦ none
  | some n ↦ if s.dst_skip then some n else elim (next_gap_run s t n) [
    | none ↦ some n
    | some run ↦ some (some (Wall.in_location run t.loc))
  ]
]
