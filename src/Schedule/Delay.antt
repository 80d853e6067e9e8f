-- ===== src/Schedule/Delay.antt =====
-- constantdelay.go.
pub mod Laws
use go_cron.Prelude.{ℕ, suc, ◌+◌, ◌-◌, ◌*◌, ◌%◌, Bool, ◌&&◌, ◌||◌, ltb, leb, if◌then◌else◌}
use go_cron.Prelude.Int.{ℤ, pos, ◌+ℤ◌, ◌-ℤ◌, rem, ltb_ℤ, leb_ℤ}
use go_cron.Time.Wall
use go_cron.Time.Wall.{Time, nanos}
use go_cron.Schedule.{add_duration}

abbrev pub second : ℤ
second = pos nanos

-- `math.MaxInt64`
abbrev pub max_int64 : ℤ
max_int64 = pos 9223372036854775807

pub record ConstantDelaySchedule : Type 0 where
  pub delay : ℤ

unfoldable pub at_least : ℤ → ℤ → ℤ
at_least duration min_interval =
    if ltb_ℤ (pos 0) min_interval && ltb_ℤ duration min_interval then min_interval else duration

unfoldable pub round_up : ℤ → ℤ → ℤ
round_up duration min_interval =
    let rounded = min_interval -ℤ rem min_interval nanos in
    if ltb_ℤ duration min_interval
    then (if leb_ℤ rounded (max_int64 -ℤ second) then rounded +ℤ second else min_interval)
    else duration

unfoldable pub every_with_min : ℤ → ℤ → ConstantDelaySchedule
every_with_min duration min_interval =
    let d = at_least duration min_interval in
    record {
      delay =
          if leb_ℤ second min_interval || (leb_ℤ min_interval (pos 0) && leb_ℤ second d)
          then round_up (d -ℤ rem d nanos) min_interval
          else d;
    }

unfoldable pub every : ℤ → ConstantDelaySchedule
every duration = every_with_min duration second

unfoldable pub next : ConstantDelaySchedule → Time → Time
next schedule t =
    if leb_ℤ schedule.delay (pos 0)
    then add_duration t second
    else if ltb_ℤ schedule.delay second
    then add_duration t schedule.delay
    else add_duration t (schedule.delay -ℤ pos (Wall.nanosecond t))

unfoldable pub prev : ConstantDelaySchedule → Time → Time
prev schedule t =
    if leb_ℤ schedule.delay (pos 0)
    then add_duration t (pos 0 -ℤ second)
    else if ltb_ℤ schedule.delay second
    then add_duration t (pos 0 -ℤ schedule.delay)
    else add_duration t ((pos 0 -ℤ schedule.delay) +ℤ pos (Wall.nanosecond t))
