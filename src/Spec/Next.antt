-- ===== src/Spec/Next.antt =====
-- spec.go: what `Next` returns where the schedule's location has one UTC offset, as UTC does.
use mathlib.Core.Option
use go_cron.Prelude.{
  ℕ, ◌+◌, ◌-◌, ◌*◌, ◌/◌, ◌≤◌, ◌<◌, ◌≡◌, sym, ap, ◌∙◌, true, false, Option, none, some, arith,
}
use go_cron.Prelude.Int.{ℤ, pos_part, neg_part}
use go_cron.Time.Calendar.{days_before_year}
use go_cron.Time.Calendar.Laws
use go_cron.Time.Calendar.Laws.{civil-IsDateOf}
use go_cron.Time.Wall
use go_cron.Time.Wall.{Time, nanos}
use go_cron.Spec.{SpecSchedule}
use go_cron.Spec.Days.{matches_wall}
use go_cron.Spec.Fixed.{at, fixed}
use go_cron.Spec.Zones.{zone_end_after}
use go_cron.Spec.Search.{search_span, schedule_location, prepare_time, next_existing}
use go_cron.Spec.Search.Dates.{date_at, year-at}
use go_cron.Spec.Search.Correct.{Answers, IsNext, run_test-matches_wall, search_next-Answers}
use go_cron.Spec.Gap.{next_gap_run, next}

-- What the wall clock of a location with UTC offset `off` shows at `t`, in whole seconds.
abbrev pub shown : ℤ → Time → ℕ
shown off t = Wall.unix_sec t + pos_part off - neg_part off

-- The wall second that starts the first year past the search limit.
abbrev pub search_end : ℤ → SpecSchedule → Time → ℕ
search_end off s t = days_before_year ((date_at (shown off t + 1)).year + search_span s + 1) * 86400

-- No second that starts after `t`, before the wall second `hi`, matches.
abbrev pub NoRun : ℤ → SpecSchedule → Time → ℕ → Type 0
NoRun off s t hi = (u : ℕ) → shown off t < u → u < hi → matches_wall s (at off u) ≡ false

-- `r` is the first second after `t` that matches; there is none up to the search limit if `r` is
-- the zero time.
abbrev pub IsFirstRun : ℤ → SpecSchedule → Time → Option Time → Type 0
IsFirstRun off s t none = NoRun off s t (search_end off s t)
IsFirstRun off s t (some r) =
    (v : ℕ) × (r ≡ Wall.in_location (at off v) t.loc)
    × (t.ns < r.ns)
    × (matches_wall s (at off v) ≡ true)
    × NoRun off s t v

module _ (off : ℤ) (s : SpecSchedule) (t : Time) (l : schedule_location s t ≡ fixed off)
    (h : neg_part off ≤ Wall.unix_sec t) where
  prepare_time-at : prepare_time s t ≡ at off (shown off t + 1)
  unfolding prepare_time Wall.add Wall.nanosecond Wall.unix_sec at
  prepare_time-at = rw l (ap (λ (n : ℕ). record { ns = n; loc = fixed off }) (omega arith))

  no_gap : (n : Option Time) → next_gap_run s t n ≡ none
  unfolding next_gap_run zone_end_after Wall.zone_start Wall.zone_end
  no_gap n = rw l

  -- A second that the wall clock shows after `t` lies after `t`.
  at-lt : (v : ℕ) → shown off t < v → t.ns < (at off v).ns
  unfolding at Wall.unix_sec
  at-lt v p = omega arith

  year_limit : Wall.year (prepare_time s t) ≡ (date_at (shown off t + 1)).year
  year_limit = ap Wall.year prepare_time-at ∙ year-at off (shown off t + 1) (omega arith)

  IsNext-IsFirstRun :
      (x : Option Time)
      → IsNext off s (shown off t + 1) (search_end off s t) x
      → IsFirstRun off s t (Option.map (λ r. Wall.in_location r t.loc) x)
  IsNext-IsFirstRun none n =
      λ u p q. sym (run_test-matches_wall off s u (omega arith)) ∙ n u (omega arith) q
  IsNext-IsFirstRun (some r) (v, at_v, p, run, n) = (
    v,
    ap (λ (r : Time). Wall.in_location r t.loc) at_v,
    rw at_v (at-lt v (omega arith)),
    sym (run_test-matches_wall off s v (omega arith)) ∙ run,
    λ u p q. sym (run_test-matches_wall off s u (omega arith)) ∙ n u (omega arith) q,
  )

  next_existing-IsFirstRun :
      (fuel : ℕ)
      → search_end off s t < shown off t + fuel
      → (x : Option Time) × (next_existing fuel s t ≡ some x) × IsFirstRun off s t x
  unfolding next_existing Answers
  next_existing-IsFirstRun fuel f =
      let w = shown off t + 1 in
      let limit = (date_at w).year + search_span s in
      let starts : w ≤ days_before_year (limit + 1) * 86400 = omega (
        arith,
        (civil-IsDateOf (w / 86400)).in_year,
        Laws.days_before_year_mono ((date_at w).year + 1) (limit + 1) (omega arith),
      ) in
      let (x, e, n) =
        search_next-Answers off s fuel fuel limit w false (omega arith) (omega arith) (omega arith)
          starts in
      rw (year_limit, prepare_time-at, l)
        (Option.map (λ r. Wall.in_location r t.loc) x, rw e, IsNext-IsFirstRun x n)

  next-next_existing :
      (fuel : ℕ) (x : Option Time) → next_existing fuel s t ≡ some x → next fuel s t ≡ some x
  unfolding next
  next-next_existing fuel x e = rw (next, e) (rw (no_gap x) (ground arith))

  -- With fuel for the seconds up to the search limit `Next` returns: in a location whose UTC offset
  -- is always `off` the result is the first whole second after `t` that matches every field of the
  -- schedule, in the location of `t`, and the zero time only if no second after `t` and before the
  -- end of the last year searched matches.
  pub next-IsFirstRun :
      (fuel : ℕ)
      → search_end off s t < shown off t + fuel
      → (x : Option Time) × (next fuel s t ≡ some x) × IsFirstRun off s t x
  next-IsFirstRun fuel f =
      let (x, e, n) = next_existing-IsFirstRun fuel f in (x, next-next_existing fuel x e, n)
