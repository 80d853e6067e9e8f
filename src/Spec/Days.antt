-- ===== src/Spec/Days.antt =====
-- spec.go: the day constraints L, L-n, LW, nW, #n and #L, and `dayMatches`.
pub mod Same
pub mod Weekdays
use Prim.Native.Nat.{bit_and}
use go_cron.Prelude.{
  ℕ, zero, ◌+◌, ◌-◌, ◌/◌, Bool, true, false, not, ◌&&◌, ◌||◌, ltb, ◌==◌, if◌then◌else◌, List, [],
  ◌∷◌,
}
use go_cron.Prelude.Int.{ℤ, pos, negsuc}
use go_cron.Time.Calendar
use go_cron.Time.Wall
use go_cron.Time.Wall.{Time}
use go_cron.Spec.{
  DomConstraint, last, last_offset, last_weekday, nearest_weekday, DowConstraint, SpecSchedule,
  star_bit, field_matches, year_matches,
}

-- `time.Date(year, month+1, 0, …, time.UTC).Day()`
unfoldable pub days_in : ℕ → ℕ → ℕ
days_in y m = (Calendar.civil (Calendar.days_of y (m + 1) 0)).day

unfoldable pub weekday_of : ℕ → ℕ → ℕ → ℕ
weekday_of y m d = Calendar.weekday (Calendar.days_of y m d)

unfoldable pub last_day_of_month : Time → ℕ
last_day_of_month t = days_in (Wall.year t) (Wall.month t)

unfoldable pub weekday_occurrence : Time → ℕ
weekday_occurrence t = (Wall.day t - 1) / 7 + 1

unfoldable pub is_last_occurrence : Time → Bool
is_last_occurrence t = ltb (last_day_of_month t) (Wall.day t + 7)

unfoldable pub nearest_weekday_of : ℕ → ℕ → ℕ → ℤ
nearest_weekday_of y m target =
    let last_day = days_in y m in
    if ltb last_day target
    then negsuc 0
    else if weekday_of y m target == 6
    then (if ltb 1 target then pos (target - 1) else pos (target + 2))
    else if weekday_of y m target == 0
    then (if ltb target last_day then pos (target + 1) else pos (target - 2))
    else pos target

unfoldable pub last_weekday_of_month : ℕ → ℕ → ℕ
last_weekday_of_month y m =
    let last_day = days_in y m in
    if weekday_of y m last_day == 6
    then last_day - 1
    else if weekday_of y m last_day == 0
    then last_day - 2
    else last_day

abbrev pub is_pos : ℕ → ℤ → Bool
is_pos n (pos k) = n == k
is_pos n (negsuc k) = false

-- One round of the loop of `domConstraintMatches`. Where `last - n` is negative in the source it
-- is 0 here; neither is a day.
unfoldable pub dom_constraint_holds : DomConstraint → Time → Bool
dom_constraint_holds last t = Wall.day t == last_day_of_month t
dom_constraint_holds (last_offset n) t = Wall.day t == last_day_of_month t - n
dom_constraint_holds last_weekday t =
    Wall.day t == last_weekday_of_month (Wall.year t) (Wall.month t)
dom_constraint_holds (nearest_weekday n) t =
    is_pos (Wall.day t) (nearest_weekday_of (Wall.year t) (Wall.month t) n)

unfoldable pub dom_constraint_matches : List DomConstraint → Time → Bool
dom_constraint_matches [] t = false
dom_constraint_matches (c ∷ cs) t =
    if dom_constraint_holds c t then true else dom_constraint_matches cs t

abbrev pub occurs : ℤ → ℕ → Bool → Bool
occurs (negsuc zero) occ is_last = is_last
occurs n occ is_last = is_pos occ n

unfoldable pub dow_constraint_matches : List DowConstraint → Time → Bool
dow_constraint_matches [] t = false
dow_constraint_matches (c ∷ cs) t =
    if not (c.weekday == Wall.weekday t)
    then dow_constraint_matches cs t
    else if occurs c.n (weekday_occurrence t) (is_last_occurrence t)
    then true
    else dow_constraint_matches cs t

unfoldable pub has_any {ℓ} : {A : Type ℓ} → List A → Bool
has_any [] = false
has_any (x ∷ xs) = true

unfoldable pub starred : SpecSchedule → Bool
starred s = not (bit_and s.dom star_bit == 0) || not (bit_and s.dow star_bit == 0)

-- `domMatch` of `dayMatches`, after the dynamic constraints.
unfoldable pub dom_match : SpecSchedule → Time → Bool
unfolding has_any
dom_match s t =
    if has_any s.dom_constraints && dom_constraint_matches s.dom_constraints t
    then true
    else field_matches (Wall.day t) s.dom

unfoldable pub dow_match : SpecSchedule → Time → Bool
unfolding has_any
dow_match s t =
    if has_any s.dow_constraints && dow_constraint_matches s.dow_constraints t
    then true
    else field_matches (Wall.weekday t) s.dow

unfoldable pub day_matches : SpecSchedule → Time → Bool
unfolding starred
day_matches s t =
    if s.dow_or_dom
    then (if starred s then dom_match s t && dow_match s t else dom_match s t || dow_match s t)
    else dom_match s t && dow_match s t

unfoldable pub matches_wall : SpecSchedule → Time → Bool
matches_wall s t =
    year_matches (Wall.year t) s.year
    && (field_matches (Wall.month t) s.month
        && (day_matches s t
            && (field_matches (Wall.hour t) s.hour
                && (field_matches (Wall.minute t) s.minute
                    && field_matches (Wall.second t) s.second))))
