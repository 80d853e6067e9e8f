-- ===== src/Spec/Zones.antt =====
-- spec.go: stepping by the wall clock across zone changes.
use go_cron.Prelude.{
  ℕ, zero, suc, ◌+◌, ◌-◌, ◌*◌, ◌/◌, ◌%◌, Bool, not, ◌&&◌, ◌||◌, ◌==◌, if◌then◌else◌, Option, none,
  some,
}
use go_cron.Prelude.Int.{pos_part, ◌-ℤ◌}
use go_cron.Time.Wall
use go_cron.Time.Wall.{Time, Location, nanos}

-- How long a fall-back from offset `before` to `after` repeats the wall clock, in nanoseconds: 0
-- where the source has zero or less.
repeated : Time → Time → ℕ
repeated before after = pos_part (Wall.zone_offset before -ℤ Wall.zone_offset after) * nanos

unfoldable pub earlier_copy : Time → Time
unfolding repeated
earlier_copy t = elim (Wall.zone_start t) [
  | none ↦ t
  | some start ↦
      let again = repeated (Wall.sub start 1) start in
      if (again == 0) || not (Wall.before t (Wall.add start again)) then t else Wall.sub t again
]

unfoldable pub later_copy : Time → Time
unfolding repeated
later_copy t = elim (Wall.zone_end t) [
  | none ↦ t
  | some end ↦
      let again = repeated t end in
      if (again == 0) || Wall.before t (Wall.sub end again) then t else Wall.add t again
]

zone_end_probe : ℕ → Time → Time → Option Time
zone_end_probe zero t probe = none
zone_end_probe (suc rounds) t probe =
    let later = zone_end_probe rounds t (Wall.add probe (3600 * nanos)) in
    elim (Wall.zone_end probe) [
      | none ↦ none
      | some end ↦ if Wall.after end t then some end else later
    ]

unfoldable pub zone_end_after : Time → Option Time
unfolding zone_end_probe
zone_end_after t = zone_end_probe 48 t t

unfoldable pub next_minute_start : Time → Time
next_minute_start t = Wall.add t (60 * nanos - Wall.second t * nanos - Wall.nanosecond t)

unfoldable pub next_full_hour : Time → ℕ → Time
next_full_hour t want =
    let next = Wall.date (Wall.year t) (Wall.month t) (Wall.day t) (Wall.hour t + 1) 0 0 t.loc in
    let last = Wall.add t (3600 * nanos) in
    if (Wall.hour next == want) && (Wall.minute next == 0)
    then (if Wall.after (earlier_copy next) t
        then earlier_copy next
        else if Wall.after next t
        then next
        else if Wall.after (later_copy next) t
        then later_copy next
        else last)
    else last

-- The last part of `nextHourStart`: a transition that changes the hour comes first.
unfoldable pub or_change : Time → Time → Time
or_change t next = elim (zone_end_after t) [
  | none ↦ next
  | some end ↦ if Wall.before end next && not (Wall.hour end == Wall.hour t) then end else next
]

on_full_hour : Time → Bool
on_full_hour t = (Wall.minute t == 0) && ((Wall.second t == 0) && (Wall.nanosecond t == 0))

unfoldable pub next_hour_start : Time → Time
unfolding on_full_hour
next_hour_start t =
    let want = (Wall.hour t + 1) % 24 in
    let next = Wall.add t (3600 * nanos) in
    if on_full_hour t && ((Wall.hour next == want) && (Wall.minute next == 0))
    then next
    else or_change t (next_full_hour t want)

-- `wallDate` gives a date at midnight UTC; here it is that date's day number.
unfoldable pub wall_day : Time → ℕ
wall_day t = Wall.wall t / 86400
