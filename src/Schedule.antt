-- ===== src/Schedule.antt =====
-- cron.go: `Schedule`, and the schedules that are not cron expressions. A duration is a signed number of
-- nanoseconds; Go's keeps it within 64 bits.
pub mod Delay
pub mod Aligned
pub mod Union
mod Tests
use go_cron.Prelude.{ℕ, ◌+◌, ◌-◌, Option}
use go_cron.Prelude.Int.{ℤ, pos_part, neg_part}
use go_cron.Time.Wall.{Time}

-- `t.Add(d)` for a duration of either sign.
unfoldable pub add_duration : Time → ℤ → Time
add_duration t d = record t { ns = t.ns + pos_part d - neg_part d }

-- `Schedule`, with `ScheduleWithPrev` where the implementation has it; the zero time is `none`.
pub record Schedule : Type 0 where
  pub next : Time → Option Time
  pub prev : Option (Time → Option Time)
