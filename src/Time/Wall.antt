-- ===== src/Time/Wall.antt =====
-- `time.Time` and `time.Location`. A time is a number of nanoseconds since 0000-01-01 UTC (times
-- before that are not represented) with a location; the zero time, where a function of the
-- scheduler returns it to say that there is none, is `none` of an `Option`.
use mathlib.Core.Option
use go_cron.Prelude.{
  ℕ, ◌+◌, ◌-◌, ◌*◌, ◌/◌, ◌%◌, Bool, true, ◌&&◌, ltb, leb, ◌==◌, if◌then◌else◌, List, [], ◌∷◌,
  Option, none, some,
}
use go_cron.Prelude.Int.{ℤ, pos, pos_part, neg_part}
use go_cron.Time.Calendar
use go_cron.Time.Calendar.{Date}

abbrev pub nanos : ℕ
nanos = 1_000_000_000

-- n + z and n - z, never below 0.
unfoldable pub shift : ℕ → ℤ → ℕ
shift n z = n + pos_part z - neg_part z

unfoldable pub unshift : ℕ → ℤ → ℕ
unshift n z = n + neg_part z - pos_part z

pub record Transition : Type 0 where
  pub when : ℕ
  pub offset : ℤ

-- UTC offsets in seconds, and the seconds since 0000-01-01 UTC at which a new one starts.
pub record Location : Type 0 where
  pub first_offset : ℤ
  pub transitions : List Transition

pub record Time : Type 0 where
  pub ns : ℕ
  pub loc : Location

pub record Zone : Type 0 where
  pub offset : ℤ
  pub start : Option ℕ
  pub end : Option ℕ

unfoldable pub lookup_from : ℤ → Option ℕ → List Transition → ℕ → Zone
lookup_from off start [] s = record { offset = off; start = start; end = none }
lookup_from off start (tr ∷ rest) s =
    let later = lookup_from tr.offset (some tr.when) rest s in
    if ltb s tr.when then record { offset = off; start = start; end = some tr.when } else later

unfoldable pub lookup : Location → ℕ → Zone
unfolding lookup_from
lookup l s = lookup_from l.first_offset none l.transitions s

unfoldable pub unix_sec : Time → ℕ
unix_sec t = t.ns / nanos

abbrev pub zone : Time → Zone
zone t = lookup t.loc (unix_sec t)

-- Seconds that the wall clock shows, since 0000-01-01.
unfoldable pub wall : Time → ℕ
unfolding lookup unix_sec shift
wall t = shift (unix_sec t) (zone t).offset

-- The fields that the wall clock of `t` shows.
unfoldable pub wall_date : Time → Date
unfolding wall Calendar.civil
wall_date t = Calendar.civil (wall t / 86400)

abbrev pub year : Time → ℕ
year t = (wall_date t).year

abbrev pub month : Time → ℕ
month t = (wall_date t).month

abbrev pub day : Time → ℕ
day t = (wall_date t).day

unfoldable pub hour : Time → ℕ
unfolding wall
hour t = wall t % 86400 / 3600

unfoldable pub minute : Time → ℕ
unfolding wall
minute t = wall t % 3600 / 60

unfoldable pub second : Time → ℕ
unfolding wall
second t = wall t % 60

unfoldable pub nanosecond : Time → ℕ
nanosecond t = t.ns % nanos

unfoldable pub weekday : Time → ℕ
unfolding wall Calendar.weekday
weekday t = Calendar.weekday (wall t / 86400)

-- `t.In(l)`
abbrev pub in_location : Time → Location → Time
in_location t l = record t { loc = l }

-- `t.Add(d)` for a duration of `d` nanoseconds, and for one that is negative.
unfoldable pub add : Time → ℕ → Time
add t d = record t { ns = t.ns + d }

unfoldable pub sub : Time → ℕ → Time
sub t d = record t { ns = t.ns - d }

-- `t.Truncate(time.Second)`
unfoldable pub truncate : Time → Time
truncate t = record t { ns = t.ns - t.ns % nanos }

abbrev pub before : Time → Time → Bool
before t u = ltb t.ns u.ns

abbrev pub after : Time → Time → Bool
after t u = ltb u.ns t.ns

abbrev pub equal : Time → Time → Bool
equal t u = t.ns == u.ns

at_second : Location → ℕ → Time
at_second l s = record { ns = s * nanos; loc = l }

in_zone : Zone → ℕ → Bool
in_zone z s =
    elim z.start [ none ↦ true | some a ↦ leb a s ] && elim z.end [ none ↦ true | some b ↦ ltb s b ]

-- `time.Date(y, mo, d, h, mi, s, 0, l)` with its guess at the offset.
unfoldable pub date : ℕ → ℕ → ℕ → ℕ → ℕ → ℕ → Location → Time
unfolding at_second in_zone unshift lookup Calendar.days_of
date y mo d h mi s l =
    let unix = Calendar.days_of y mo d * 86400 + h * 3600 + mi * 60 + s in
    let z = lookup l unix in
    let utc = unshift unix z.offset in
    at_second l (unshift unix (if in_zone z utc then z.offset else (lookup l utc).offset))

-- `t.ZoneBounds()`; a bound that does not exist is the zero time.
unfoldable pub zone_start : Time → Option Time
unfolding lookup unix_sec at_second
zone_start t = Option.map (at_second t.loc) (zone t).start

unfoldable pub zone_end : Time → Option Time
unfolding lookup unix_sec at_second
zone_end t = Option.map (at_second t.loc) (zone t).end

-- The offset that `t.Zone()` returns.
unfoldable pub zone_offset : Time → ℤ
unfolding lookup unix_sec
zone_offset t = (zone t).offset

abbrev pub utc : Location
utc = record { first_offset = pos 0; transitions = [] }
