-- ===== src/Schedule/Tests.antt =====
-- Runs of the schedules in constantdelay.go, aligned.go and union.go.
use mathlib.Core.List.{Memᴰ}
use mathlib.Core.List.Memᴰ.{head, tail}
use mathlib.Core.Path.{subst}
use go_cron.Prelude.{
  ℕ, ◌+◌, ◌*◌, ◌%◌, ◌≤◌, ◌<◌, ◌≡◌, refl, sym, ap, ◌⊎◌, ltb, if◌then◌else◌, [], ◌∷◌, Option, none,
  some, arith,
}
use go_cron.Prelude.Int.{pos, pos_part, ◌+ℤ◌, ◌-ℤ◌, rem, to_uint64}
use go_cron.Time.Wall
use go_cron.Time.Wall.{Time, nanos, utc}
use go_cron.Schedule.{Schedule, add_duration}
use go_cron.Schedule.Delay
use go_cron.Schedule.Delay.{ConstantDelaySchedule, every, every_with_min, max_int64}
use go_cron.Schedule.Delay.Laws.{
  IsWholeDelay, IsPeriodic, every_with_min-IsWholeDelay, every-IsPeriodic, prev-IsBefore,
}
use go_cron.Schedule.Aligned
use go_cron.Schedule.Aligned.{AlignedSchedule}
use go_cron.Schedule.Aligned.Laws.{IsAligned, next-IsFirstAligned, prev-IsLastAligned}
use go_cron.Schedule.Union
use go_cron.Schedule.Union.{UnionSchedule}
use go_cron.Schedule.Union.Laws.{IsNextRun, AnyRuns, next-IsNextRun}
use go_cron.Schedule.Union.Backward.{IsLastRun, IsExactBack, prev-IsLastRun}

-- 2024-02-28 12:34:56.2
abbrev lunch : Time
lunch = record { ns = 63876342896200000000; loc = utc }

abbrev five_seconds : ConstantDelaySchedule
five_seconds = record { delay = pos (5 * nanos) }

next_run : (Delay.next five_seconds lunch).ns ≡ 63876342901000000000
unfolding Delay.next add_duration ◌-ℤ◌ Wall.nanosecond
next_run = refl

-- 12:34:51.4, which is no whole second
previous_run : (Delay.prev five_seconds lunch).ns ≡ 63876342891400000000
unfolding Delay.prev add_duration ◌-ℤ◌ ◌+ℤ◌ Wall.nanosecond
previous_run = refl

every_with_min-IsWholeDelay_example :
    (n : ℕ) × IsWholeDelay (every_with_min (pos 1) (pos 1500000000)) n
    × (1500000000 ≤ n)
    × (1 < n + nanos)
    × ((n ≤ 1) ⊎ (n < 1500000000 + nanos))
    × (n ≤ pos_part max_int64)
every_with_min-IsWholeDelay_example =
    every_with_min-IsWholeDelay (pos 1) 1500000000 (omega arith) (omega arith) (omega arith)

every-IsPeriodic_example :
    (n : ℕ) × (nanos ≤ n)
    × (90500000000 < n + nanos)
    × ((n ≤ 90500000000) ⊎ (n < 2 * nanos))
    × IsPeriodic (every (pos 90500000000)) n
every-IsPeriodic_example = every-IsPeriodic (pos 90500000000) (omega arith)

prev-IsBefore_example :
    ((Delay.prev five_seconds lunch).ns < lunch.ns)
    × ((Delay.prev five_seconds lunch).ns % nanos ≡ 2 * (lunch.ns % nanos) % nanos)
prev-IsBefore_example =
    prev-IsBefore five_seconds 5000000000 (refl, omega arith) (omega arith) lunch (omega arith)

abbrev five_minutes : AlignedSchedule
five_minutes = record { interval = pos 300000000000 }

-- 12:35:00
next_aligned : (Aligned.next five_minutes lunch).ns ≡ 63876342900000000000
unfolding Aligned.next add_duration ◌-ℤ◌ Wall.nanosecond Wall.unix_sec Aligned.grid_offset
    Aligned.rem64 to_uint64 Aligned.floor_mod rem Aligned.unix
next_aligned = refl

next-IsFirstAligned_example :
    (lunch.ns < (Aligned.next five_minutes lunch).ns)
    × IsAligned 300000000000 (Aligned.next five_minutes lunch)
    × ((u : Time)
        → lunch.ns < u.ns
        → u.ns < (Aligned.next five_minutes lunch).ns
        → ¬ (IsAligned 300000000000 u))
next-IsFirstAligned_example =
    next-IsFirstAligned five_minutes lunch 300000000000 refl (omega arith) (omega arith)

prev-IsLastAligned_example :
    ((Aligned.prev five_minutes lunch).ns < lunch.ns)
    × IsAligned 300000000000 (Aligned.prev five_minutes lunch)
    × ((u : Time)
        → u.ns < lunch.ns
        → (Aligned.prev five_minutes lunch).ns < u.ns
        → ¬ (IsAligned 300000000000 u))
prev-IsLastAligned_example =
    prev-IsLastAligned five_minutes lunch 300000000000 refl (omega arith) (omega arith)
      (omega arith)

abbrev at : ℕ → Time
at n = record { ns = n; loc = utc }

-- A schedule with one run.
abbrev once : ℕ → Schedule
once n = record {
  next = λ t. if ltb t.ns n then some (at n) else none;
  prev = some (λ t. if ltb n t.ns then some (at n) else none);
}

abbrev RunsOnce : Schedule → Time → Type 0
RunsOnce s u = s.next (at 0) ≡ some u

abbrev early : ℕ
early = 63876342890000000000

abbrev late : ℕ
late = 63876342899000000000

abbrev two_runs : UnionSchedule
two_runs = record { schedules = once late ∷ once early ∷ [] }

runs_late : (u : Time) → RunsOnce (once late) u → u.ns ≡ late
runs_late u e = sym (ap (λ (o : Option Time). elim o [ none ↦ 0 | some v ↦ v.ns ]) e)

runs_early : (u : Time) → RunsOnce (once early) u → u.ns ≡ early
runs_early u e = sym (ap (λ (o : Option Time). elim o [ none ↦ 0 | some v ↦ v.ns ]) e)

next_late : IsNextRun (RunsOnce (once late)) lunch ((once late).next lunch)
next_late = (refl, omega arith, λ u a b e. omega (arith, runs_late u e))

next_early : IsNextRun (RunsOnce (once early)) lunch ((once early).next lunch)
next_early = λ u a e. omega (arith, runs_early u e)

next-IsNextRun_example :
    IsNextRun (AnyRuns RunsOnce two_runs.schedules) lunch (Union.next two_runs lunch)
next-IsNextRun_example = next-IsNextRun RunsOnce two_runs lunch exact
  where
    exact : (s : Schedule) → Memᴰ s two_runs.schedules → IsNextRun (RunsOnce s) lunch (s.next lunch)
    exact s (head e) =
        subst (λ (x : Schedule). IsNextRun (RunsOnce x) lunch (x.next lunch)) (sym e) next_late
    exact s (tail (head e)) =
        subst (λ (x : Schedule). IsNextRun (RunsOnce x) lunch (x.next lunch)) (sym e) next_early
    exact s (tail (tail m)) = elim m [ ]

last_late : IsLastRun (RunsOnce (once late)) lunch none
last_late = λ u a b e. omega (arith, runs_late u e)

last_early : IsLastRun (RunsOnce (once early)) lunch (some (at early))
last_early = (refl, omega arith, λ u a b e. omega (arith, runs_early u e))

prev-IsLastRun_example :
    IsLastRun (AnyRuns RunsOnce two_runs.schedules) lunch (Union.prev two_runs lunch)
prev-IsLastRun_example = prev-IsLastRun RunsOnce two_runs lunch exact
  where
    exact : (s : Schedule) → Memᴰ s two_runs.schedules → IsExactBack RunsOnce lunch s
    exact s (head e) = subst (IsExactBack RunsOnce lunch) (sym e) (_, refl, last_late)
    exact s (tail (head e)) = subst (IsExactBack RunsOnce lunch) (sym e) (_, refl, last_early)
    exact s (tail (tail m)) = elim m [ ]
