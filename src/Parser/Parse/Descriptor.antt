-- ===== src/Parser/Parse/Descriptor.antt =====
-- parser.go: the descriptors, and `parse` as a whole.
use go_cron.Prelude.{
  ℕ, Bool, true, false, not, ◌&&◌, ◌||◌, ltb, if◌then◌else◌, List, [], ◌∷◌, length, Option, none,
  some,
}
use go_cron.Prelude.Int.{ℤ, pos, ltb_ℤ}
use go_cron.Time.Wall.{Location}
use go_cron.Word.{shl}
use go_cron.Spec.{SpecSchedule, normalize_dow}
use go_cron.Schedule.Delay.{ConstantDelaySchedule, every_with_min}
use go_cron.Schedule.Aligned.{AlignedSchedule, every_aligned_with_min}
use go_cron.Parser.Result.{
  Result, ok, err, ◌>>=◌, ◌>>◌, refuse, empty_spec, spec_too_long, descriptors_disabled,
  unknown_descriptor, bad_duration, duration_too_short,
}
use go_cron.Parser.Text.{Text, same, is_empty, has_prefix, drop, fields}
use go_cron.Parser.Bits.{all_bits}
use go_cron.Parser.Zone.{parse_timezone}
use go_cron.Parser.Parse.{Parser, hours, dom, months, dow, parse_fields}

-- The schedules that a spec can stand for.
pub data Parsed : Type 0 where
  spec : SpecSchedule → Parsed
  delay : ConstantDelaySchedule → Parsed
  aligned : AlignedSchedule → Parsed
  triggered : Parsed

-- `time.LoadLocation` and `time.ParseDuration`.
pub record TimePackage : Type 0 where
  pub load_location : Text → Option Location
  pub parse_duration : Text → Option ℤ

abbrev pub descriptor_yearly : Text
descriptor_yearly = b'@' ∷ b'y' ∷ b'e' ∷ b'a' ∷ b'r' ∷ b'l' ∷ b'y' ∷ []

abbrev pub descriptor_annually : Text
descriptor_annually = b'@' ∷ b'a' ∷ b'n' ∷ b'n' ∷ b'u' ∷ b'a' ∷ b'l' ∷ b'l' ∷ b'y' ∷ []

abbrev pub descriptor_monthly : Text
descriptor_monthly = b'@' ∷ b'm' ∷ b'o' ∷ b'n' ∷ b't' ∷ b'h' ∷ b'l' ∷ b'y' ∷ []

abbrev pub descriptor_weekly : Text
descriptor_weekly = b'@' ∷ b'w' ∷ b'e' ∷ b'e' ∷ b'k' ∷ b'l' ∷ b'y' ∷ []

abbrev pub descriptor_daily : Text
descriptor_daily = b'@' ∷ b'd' ∷ b'a' ∷ b'i' ∷ b'l' ∷ b'y' ∷ []

abbrev pub descriptor_midnight : Text
descriptor_midnight = b'@' ∷ b'm' ∷ b'i' ∷ b'd' ∷ b'n' ∷ b'i' ∷ b'g' ∷ b'h' ∷ b't' ∷ []

abbrev pub descriptor_hourly : Text
descriptor_hourly = b'@' ∷ b'h' ∷ b'o' ∷ b'u' ∷ b'r' ∷ b'l' ∷ b'y' ∷ []

abbrev pub descriptor_every : Text
descriptor_every = b'@' ∷ b'e' ∷ b'v' ∷ b'e' ∷ b'r' ∷ b'y' ∷ b' ' ∷ []

abbrev pub descriptor_every_aligned : Text
descriptor_every_aligned =
    b'@' ∷ b'e' ∷ b'v' ∷ b'e' ∷ b'r' ∷ b'y' ∷ b'_' ∷ b'a' ∷ b'l' ∷ b'i' ∷ b'g' ∷ b'n' ∷ b'e' ∷ b'd'
    ∷ b' ' ∷ []

abbrev pub descriptor_every_start : Text
descriptor_every_start =
    b'@' ∷ b'e' ∷ b'v' ∷ b'e' ∷ b'r' ∷ b'y' ∷ b'_' ∷ b's' ∷ b't' ∷ b'a' ∷ b'r' ∷ b't' ∷ b' ' ∷ []

abbrev pub descriptor_triggered : Text
descriptor_triggered = b'@' ∷ b't' ∷ b'r' ∷ b'i' ∷ b'g' ∷ b'g' ∷ b'e' ∷ b'r' ∷ b'e' ∷ b'd' ∷ []

abbrev pub descriptor_manual : Text
descriptor_manual = b'@' ∷ b'm' ∷ b'a' ∷ b'n' ∷ b'u' ∷ b'a' ∷ b'l' ∷ []

abbrev pub descriptor_none : Text
descriptor_none = b'@' ∷ b'n' ∷ b'o' ∷ b'n' ∷ b'e' ∷ []

abbrev pub any_of : List Text → Text → Bool
any_of [] s = false
any_of (k ∷ rest) s = same k s || any_of rest s

unfoldable pub descriptor_spec : Parser → Option Location → ℕ → ℕ → ℕ → ℕ → SpecSchedule
descriptor_spec p loc hour day month weekday = record {
  second = shl 1 0;
  minute = shl 1 0;
  hour = hour;
  dom = day;
  month = month;
  dow = weekday;
  year = none;
  location = loc;
  max_search_years = p.max_search_years;
  dom_constraints = [];
  dow_constraints = [];
  dow_or_dom = false;
  dst_skip = p.options.dst_skip;
}

unfoldable pub interval_of : Parser → Bool → Bool → ℤ → Result Parsed
interval_of p is_aligned is_plain duration = do
  refuse
      (ltb_ℤ (pos 0) p.min_every_interval
        && (ltb_ℤ duration p.min_every_interval && not p.options.every_round_up))
      duration_too_short
  ok (
      if is_aligned || (is_plain && p.options.align_every)
      then aligned (every_aligned_with_min duration p.min_every_interval)
      else delay (every_with_min duration p.min_every_interval))

unfoldable pub interval_after : TimePackage → Parser → Bool → Bool → Text → Text → Result Parsed
interval_after go p is_aligned is_plain keyword descriptor =
    elim (go.parse_duration (drop (length keyword) descriptor)) [
      | none ↦ err bad_duration
      | some duration ↦ interval_of p is_aligned is_plain duration
    ]

unfoldable pub interval_schedule : TimePackage → Parser → Text → Result Parsed
interval_schedule go p descriptor =
    if has_prefix descriptor descriptor_every_aligned
    then interval_after go p true false descriptor_every_aligned descriptor
    else if has_prefix descriptor descriptor_every_start
    then interval_after go p false false descriptor_every_start descriptor
    else if has_prefix descriptor descriptor_every
    then interval_after go p false true descriptor_every descriptor
    else err unknown_descriptor

abbrev pub all_dow : ℕ
all_dow = normalize_dow (all_bits dow)

unfoldable pub parse_descriptor : TimePackage → Parser → Text → Option Location → Result Parsed
parse_descriptor go p descriptor loc =
    let with = descriptor_spec p loc in
    if any_of (descriptor_yearly ∷ descriptor_annually ∷ []) descriptor
    then ok (spec (with (shl 1 0) (shl 1 1) (shl 1 1) all_dow))
    else if same descriptor_monthly descriptor
    then ok (spec (with (shl 1 0) (shl 1 1) (all_bits months) all_dow))
    else if same descriptor_weekly descriptor
    then ok (spec (with (shl 1 0) (all_bits dom) (all_bits months) (shl 1 0)))
    else if any_of (descriptor_daily ∷ descriptor_midnight ∷ []) descriptor
    then ok (spec (with (shl 1 0) (all_bits dom) (all_bits months) all_dow))
    else if same descriptor_hourly descriptor
    then ok (spec (with (all_bits hours) (all_bits dom) (all_bits months) all_dow))
    else if any_of (descriptor_triggered ∷ descriptor_manual ∷ descriptor_none ∷ []) descriptor
    then ok triggered
    else interval_schedule go p descriptor

abbrev pub max_spec_length : ℕ
max_spec_length = 1024

unfoldable pub parse_named : TimePackage → Parser → Option Location → Text → Result Parsed
parse_named go p loc rest = do
  refuse (not p.options.descriptor) descriptors_disabled
  parse_descriptor go p rest loc

unfoldable pub parse_rest : TimePackage → Parser → Option Location → Text → Result Parsed
parse_rest go p loc rest =
    if has_prefix rest (b'@' ∷ [])
    then parse_named go p loc rest
    else do schedule ← parse_fields p loc (fields rest); ok (spec schedule)

unfoldable pub parse : TimePackage → Parser → Text → Result Parsed
parse go p s = do
  refuse (is_empty s) empty_spec
  refuse (ltb max_spec_length (length s)) spec_too_long
  (loc, rest) ← parse_timezone go.load_location s
  parse_rest go p loc rest
