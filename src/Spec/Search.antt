-- ===== src/Spec/Search.antt =====
-- spec.go: the search of `nextExisting`. Each loop takes fuel; `none` says that it ran out, which
-- `Search.Correct` excludes. The results are the time, `added`, and `wrap` or the search step.
pub mod Lands
pub mod TimeOfDay
pub mod Clock
pub mod Dates
pub mod Months
pub mod Years
pub mod Correct
use mathlib.Core.Option
use go_cron.Prelude.{
  ℕ, zero, suc, ◌+◌, ◌-◌, ◌*◌, Bool, true, false, not, ◌||◌, ltb, leb, ◌==◌, if◌then◌else◌, Option,
  none, some,
}
use go_cron.Prelude.Int.{pos, negsuc}
use go_cron.Time.Wall
use go_cron.Time.Wall.{Time, Location, nanos}
use go_cron.Spec.{SpecSchedule, default_search_years, field_matches, year_matches}
use go_cron.Spec.Days.{day_matches}
use go_cron.Spec.Zones.{zone_end_after, next_minute_start, next_hour_start}
use go_cron.Spec.Dates.{date_start, next_day}

pub record Moved : Type 0 where
  pub time : Time
  pub added : Bool
  pub wrap : Bool

abbrev moved : Time → Bool → Bool → Option Moved
moved t added wrap = some (record { time = t; added = added; wrap = wrap })

unfoldable pub advance_hour : ℕ → Time → ℕ → Bool → Option Moved
advance_hour zero t bits added = none
advance_hour (suc fuel) t bits added =
    let t' = next_hour_start t in
    let rest = advance_hour fuel t' bits true in
    if field_matches (Wall.hour t) bits
    then moved t added false
    else if not (Wall.day t' == Wall.day t)
    then moved t' true true
    else rest

-- The rounds of the loop of `advanceMinute` after the first step.
unfoldable pub advance_minutes : ℕ → Option Time → Time → ℕ → Option Moved
advance_minutes zero change t bits = none
advance_minutes (suc fuel) change t bits =
    let rest = advance_minutes fuel change (Wall.add t (60 * nanos)) bits in
    let reached : Bool = elim change [ none ↦ false | some c ↦ not (Wall.before t c) ] in
    let passed : Bool = elim change [ none ↦ false | some c ↦ Wall.after t c ] in
    let at : Time = elim change [ none ↦ t | some c ↦ c ] in
    if passed
    then moved at true true
    else if (Wall.minute t == 0) || reached
    then moved t true true
    else if field_matches (Wall.minute t) bits
    then moved t true false
    else rest

unfoldable pub advance_minute : ℕ → Time → ℕ → Bool → Option Moved
advance_minute fuel t bits added =
    let stepped = advance_minutes fuel (zone_end_after t) (next_minute_start t) bits in
    if field_matches (Wall.minute t) bits then moved t added false else stepped

unfoldable pub advance_second : ℕ → Time → ℕ → Bool → Option Moved
advance_second zero t bits added = none
advance_second (suc fuel) t bits added =
    let t' = Wall.add (if added then t else Wall.truncate t) nanos in
    let rest = advance_second fuel t' bits true in
    if field_matches (Wall.second t) bits
    then moved t added false
    else if leb (Wall.second t') (Wall.second t)
    then moved t' true true
    else rest

pub data SearchStep : Type 0 where
  found wrapped exhausted : SearchStep

pub record Searched : Type 0 where
  pub time : Time
  pub added : Bool
  pub step : SearchStep

abbrev searched : Time → Bool → SearchStep → Option Searched
searched t added step = some (record { time = t; added = added; step = step })

unfoldable pub advance_day : ℕ → SpecSchedule → Time → Bool → Option Searched
advance_day zero s t added = none
advance_day (suc fuel) s t added =
    let t' = next_day t in
    let rest = advance_day fuel s t' true in
    if day_matches s t
    then searched t added found
    else if not (Wall.month t' == Wall.month t)
    then searched t' true wrapped
    else rest

-- The month loop of `advanceDate`, and the call of `advanceDay` behind it.
unfoldable pub advance_month : ℕ → SpecSchedule → Time → Location → Bool → Option Searched
advance_month zero s t l added = none
advance_month (suc fuel) s t l added =
    let t' = date_start (Wall.year t) (Wall.month t + 1) 1 l t in
    let rest = advance_month fuel s t' l true in
    let days = advance_day fuel s t added in
    if field_matches (Wall.month t) s.month
    then days
    else if not (Wall.year t' == Wall.year t)
    then searched t' true wrapped
    else rest

-- The year loop, and the rest of `advanceDate`.
unfoldable pub advance_date : ℕ → SpecSchedule → Time → Location → Bool → ℕ → Option Searched
advance_date zero s t l added limit = none
advance_date (suc fuel) s t l added limit =
    let t' = date_start (Wall.year t + 1) 1 1 l t in
    let rest = advance_date fuel s t' l true limit in
    let months = advance_month fuel s t l added in
    if year_matches (Wall.year t) s.year
    then months
    else if ltb limit (Wall.year t')
    then searched t' true exhausted
    else rest

-- `advanceTime`, from its last call on: the `added` of `advanceSecond` is dropped.
unfoldable pub keep_added : Bool → Option Moved → Option Moved
keep_added added none = none
keep_added added (some m) = moved m.time added m.wrap

unfoldable pub then_second : ℕ → SpecSchedule → Option Moved → Option Moved
then_second fuel s none = none
then_second fuel s (some m) =
    if m.wrap then some m else keep_added m.added (advance_second fuel m.time s.second m.added)

unfoldable pub then_minute : ℕ → SpecSchedule → Option Moved → Option Moved
then_minute fuel s none = none
then_minute fuel s (some m) =
    if m.wrap then some m else then_second fuel s (advance_minute fuel m.time s.minute m.added)

unfoldable pub advance_time : ℕ → SpecSchedule → Time → Bool → Option Moved
advance_time fuel s t added = then_minute fuel s (advance_hour fuel t s.hour added)

-- A round of the loop of `nextExisting` after `advanceTime`, and after `advanceDate`; `again` is
-- the next round.
unfoldable pub after_time :
    (Time → Bool → Option (Option Time)) → Option Moved → Option (Option Time)
after_time again none = none
after_time again (some m) = elim m.wrap [ true ↦ again m.time m.added | false ↦ some (some m.time) ]

unfoldable pub after_date :
    (Time → Bool → Option (Option Time)) → ℕ → SpecSchedule → Option Searched → Option (Option Time)
after_date again fuel s none = none
after_date again fuel s (some d) = elim d.step [
  | exhausted ↦ some none
  | wrapped ↦ again d.time d.added
  | found ↦ after_time again (advance_time fuel s d.time d.added)
]

-- The loop with `rounds` left; `some none` is the zero time.
unfoldable pub search_next :
    ℕ → ℕ → SpecSchedule → Location → ℕ → Time → Bool → Option (Option Time)
search_next zero fuel s l limit t added = none
search_next (suc rounds) fuel s l limit t added =
    let again = search_next rounds fuel s l limit in
    elim (leb (Wall.year t) limit) [
      | false ↦ some none
      | true ↦ after_date again fuel s (advance_date fuel s t l added limit)
    ]

unfoldable pub search_span : SpecSchedule → ℕ
search_span s = elim s.max_search_years [
  | pos n ↦ if ltb 0 n then n else default_search_years
  | negsuc n ↦ default_search_years
]

unfoldable pub schedule_location : SpecSchedule → Time → Location
schedule_location s t = elim s.location [ none ↦ t.loc | some l ↦ l ]

-- `prepareTimeForSchedule`: the upcoming whole second in the schedule's location.
unfoldable pub prepare_time : SpecSchedule → Time → Time
prepare_time s t = Wall.add (Wall.in_location t (schedule_location s t)) (nanos - Wall.nanosecond t)

unfoldable pub next_existing : ℕ → SpecSchedule → Time → Option (Option Time)
next_existing fuel s t =
    let start = prepare_time s t in
    Option.map (Option.map (λ r. Wall.in_location r t.loc)) (
      search_next fuel fuel s (schedule_location s t) (Wall.year start + search_span s) start false)
