-- ===== src/Spec/Dates.antt =====
-- spec.go: `dateStart` and the walk to the start of a date across zone changes.
use go_cron.Prelude.{
  ℕ, zero, suc, ◌+◌, ◌*◌, Bool, not, ◌&&◌, ◌||◌, ltb, ◌==◌, if◌then◌else◌, none, some,
}
use go_cron.Time.Calendar
use go_cron.Time.Wall
use go_cron.Time.Wall.{Time, Location, nanos}
use go_cron.Spec.Zones.{earlier_copy, later_copy, zone_end_after, wall_day}

next_midnight : Time → Time
next_midnight t =
    let next = Wall.date (Wall.year t) (Wall.month t) (Wall.day t + 1) 0 0 0 t.loc in
    if Wall.after (earlier_copy next) t then earlier_copy next else next

unfoldable pub next_midnight_or_change : Time → Time
unfolding next_midnight
next_midnight_or_change t =
    let midnight = next_midnight t in
    let next : Time = elim (zone_end_after t) [
      | none ↦ midnight
      | some end ↦ if not (Wall.after midnight t) || Wall.before end midnight then end else midnight
    ] in
    if not (Wall.after next t) then Wall.add t (3600 * nanos) else next

-- `dateChangeAfter` with `rounds` left of its 64.
unfoldable pub date_change_after : ℕ → ℕ → Time → Time
date_change_after zero want t = Wall.add t nanos
date_change_after (suc rounds) want t =
    let next = next_midnight_or_change t in
    let later = date_change_after rounds want next in
    if not (ltb (wall_day next) want) then next else later

is_midnight : ℕ → Time → Bool
is_midnight want m =
    (wall_day m == want) && ((Wall.hour m == 0) && ((Wall.minute m == 0) && (Wall.second m == 0)))

-- The last part of `dateStart`: the walk from two days before the date.
walk_to_date : ℕ → Time → Location → Time → Time
walk_to_date want m l t =
    let from = Wall.in_location t l in
    let early = Wall.sub m (48 * 3600 * nanos) in
    date_change_after 64 want (if Wall.after early from then early else from)

unfoldable pub date_start : ℕ → ℕ → ℕ → Location → Time → Time
unfolding is_midnight walk_to_date
date_start y mo d l t =
    let want = Calendar.days_of y mo d in
    let m = Wall.date y mo d 0 0 0 l in
    let walked = walk_to_date want m l t in
    if is_midnight want m
    then (if Wall.after (earlier_copy m) t
        then earlier_copy m
        else if Wall.after m t
        then m
        else if Wall.after (later_copy m) t
        then later_copy m
        else walked)
    else walked

unfoldable pub next_day : Time → Time
next_day t = date_start (Wall.year t) (Wall.month t) (Wall.day t + 1) t.loc t
