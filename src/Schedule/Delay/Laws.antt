-- ===== src/Schedule/Delay/Laws.antt =====
-- What the delays and the times of constantdelay.go are.
use go_cron.Prelude.{◌⊎◌, ltb, if◌then◌else◌, ℕ, ◌+◌, ◌-◌, ◌*◌, ◌%◌, ◌≤◌, ◌<◌, ◌≡◌, arith}
use go_cron.Prelude.Int.{ℤ, pos, negsuc, pos_part, ◌+ℤ◌, ◌-ℤ◌, rem}
use go_cron.Time.Wall
use go_cron.Time.Wall.{Time, nanos}
use go_cron.Schedule.{add_duration}
use go_cron.Schedule.Delay
use go_cron.Schedule.Delay.{
  ConstantDelaySchedule, every, every_with_min, at_least, round_up, max_int64,
}

-- The schedule's delay is `n` nanoseconds.
abbrev pub IsWholeDelay : ConstantDelaySchedule → ℕ → Type 0
IsWholeDelay s n = (s.delay ≡ pos n) × (n % nanos ≡ 0)

-- The longer of the duration and the minimum `m`, cut to the second, or the second after where
-- that falls below `m`.
whole_delay : ℕ → ℕ → ℕ
whole_delay d m =
    let longer = if ltb d m then m else d in
    if ltb (longer - longer % nanos) m then m - m % nanos + nanos else longer - longer % nanos

delay-whole_delay :
    (duration : ℤ) (m : ℕ)
    → nanos ≤ m
    → m ≤ 9223372035854775807
    → (every_with_min duration (pos m)).delay ≡ pos (whole_delay (pos_part duration) m)
unfolding every_with_min at_least round_up rem ◌+ℤ◌ ◌-ℤ◌ whole_delay
delay-whole_delay (pos d) m h k = ground arith
delay-whole_delay (negsuc d) m h k = ground arith

whole_delay_bounds :
    (d m : ℕ)
    → nanos ≤ m
    → m ≤ 9223372035854775807
    → (whole_delay d m % nanos ≡ 0)
      × (m ≤ whole_delay d m)
      × (d < whole_delay d m + nanos)
      × ((whole_delay d m ≤ d) ⊎ (whole_delay d m < m + nanos))
unfolding whole_delay
whole_delay_bounds d m h k = ground arith

-- With a minimum of a second or more that can be rounded up within 64 bits, `EveryWithMin`
-- returns whole seconds that are no less than the minimum, within a second of the minimum and
-- the duration, and that never exceed MaxInt64.
pub every_with_min-IsWholeDelay :
    (duration : ℤ) (m : ℕ)
    → nanos ≤ m
    → m ≤ 9223372035854775807
    → pos_part duration ≤ pos_part max_int64
    → (n : ℕ) × IsWholeDelay (every_with_min duration (pos m)) n
      × (m ≤ n)
      × (pos_part duration < n + nanos)
      × ((n ≤ pos_part duration) ⊎ (n < m + nanos))
      × (n ≤ pos_part max_int64)
unfolding every_with_min at_least round_up rem ◌+ℤ◌ ◌-ℤ◌
every_with_min-IsWholeDelay duration m h k b =
    let n = whole_delay (pos_part duration) m in
    let w = whole_delay_bounds (pos_part duration) m h k in
    (n, (delay-whole_delay duration m h k, w.0), w.1, w.2, w.3, ground (arith, w.3, b))

-- The next run is after `t`, whatever the delay.
next-after : (s : ConstantDelaySchedule) (t : Time) → t.ns < (Delay.next s t).ns
unfolding Delay.next add_duration Wall.nanosecond ◌-ℤ◌
next-after s t = elim s.delay as (λ d. t.ns < (Delay.next (record { delay = d }) t).ns) [
  | pos d ↦ ground arith
  | negsuc d ↦ ground arith
]

module _ (s : ConstantDelaySchedule) (n : ℕ) (whole : IsWholeDelay s n) (long : nanos ≤ n) where
  next-ns : (t : Time) → (Delay.next s t).ns ≡ t.ns - t.ns % nanos + n
  unfolding Delay.next add_duration Wall.nanosecond ◌-ℤ◌
  next-ns t = rw (whole.0) (ground arith)

  next-next : (t : Time) → (Delay.next s (Delay.next s t)).ns ≡ (Delay.next s t).ns + n
  next-next t = omega (arith, next-ns t, next-ns (Delay.next s t), whole.1)

  prev-ns : (t : Time) → n ≤ t.ns → (Delay.prev s t).ns ≡ t.ns - n + t.ns % nanos
  unfolding Delay.prev add_duration Wall.nanosecond ◌-ℤ◌ ◌+ℤ◌
  prev-ns t h = rw (whole.0) (ground arith)

  -- For a delay of whole seconds, at least one and no longer than the time since year 0, the
  -- previous run is before `t`, and its nanoseconds are twice those of `t`, modulo a second.
  pub prev-IsBefore :
      (t : Time)
      → n ≤ t.ns
      → ((Delay.prev s t).ns < t.ns) × ((Delay.prev s t).ns % nanos ≡ 2 * (t.ns % nanos) % nanos)
  prev-IsBefore t h = (omega (arith, prev-ns t h), omega (arith, prev-ns t h, whole.1))

-- Runs of `s` that follow one another are `n` nanoseconds apart and start whole seconds.
abbrev pub IsPeriodic : ConstantDelaySchedule → ℕ → Type 0
IsPeriodic s n =
    (t : Time)
    → (t.ns < (Delay.next s t).ns)
      × ((Delay.next s t).ns % nanos ≡ 0)
      × ((Delay.next s (Delay.next s t)).ns ≡ (Delay.next s t).ns + n)

-- For a duration of at most MaxInt64, `Every` runs on whole seconds, each run after the time asked for and a fixed number of whole
-- seconds, at least one, after the run before; the period is within a second of the duration
-- where that is longer.
pub every-IsPeriodic :
    (duration : ℤ)
    → pos_part duration ≤ pos_part max_int64
    → (n : ℕ) × (nanos ≤ n)
      × (pos_part duration < n + nanos)
      × ((n ≤ pos_part duration) ⊎ (n < 2 * nanos))
      × IsPeriodic (every duration) n
unfolding every
every-IsPeriodic duration b =
    let s = every_with_min duration (pos nanos) in
    let w = every_with_min-IsWholeDelay duration nanos (omega arith) (omega arith) b in
    let n = w.0 in
    let whole : IsWholeDelay s n = w.1 in
    let long : nanos ≤ n = w.2 in
    (
      n,
      long,
      w.3,
      ground (arith, w.4),
      λ t. (
        next-after s t,
        omega (arith, next-ns s n whole long t, whole.1),
        next-next s n whole long t,
      ),
    )
