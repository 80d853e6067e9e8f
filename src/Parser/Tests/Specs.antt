-- ===== src/Parser/Tests/Specs.antt =====
-- Runs of the parser on fields and specs.
use go_cron.Prelude.{
  ◌⊎◌, length, ℕ, ◌<◌, ◌≡◌, refl, true, false, ◌&&◌, List, [], ◌∷◌, none, some, arith,
}
use go_cron.Prelude.Int.{pos}
use go_cron.Time.Wall
use go_cron.Time.Wall.{Time, utc}
use go_cron.Spec.{SpecSchedule, last, field_matches, normalize_dow}
use go_cron.Spec.Days.{day_matches}
use go_cron.Parser.{Bounds}
use go_cron.Parser.Result.{ok, err, wrong_field_count}
use go_cron.Parser.Text
use go_cron.Parser.Text.{Text}
use go_cron.Parser.Range
use go_cron.Parser.Range.{get_range}
use go_cron.Parser.Range.Print.{star, value, span, Item, print_item}
use go_cron.Parser.Range.Items.{IsItem}
use go_cron.Parser.Range.RoundTrip.{get_range-print_item}
use go_cron.Parser.Field
use go_cron.Parser.Field.{get_field_with_hash}
use go_cron.Parser.Field.Within.{get_field_with_hash-IsFieldSet}
use go_cron.Parser.Field.Print.{print_field, has_value, get_field_with_hash-print_field}
use go_cron.Parser.Days
use go_cron.Parser.Year
use go_cron.Parser.Year.{year_range, get_year_field}
use go_cron.Parser.Year.Laws.{
  IsYearRange, year_range-IsYearRange, AreYears, get_year_field-AreYears,
}
use go_cron.Parser.Options
use go_cron.Parser.Options.{ParseOptions, normalize_fields}
use go_cron.Parser.Parse.Create.{try_new_parser, try_new_parser-normalize_fields}
use go_cron.Parser.Options.Count.{accepts, Normalized, normalize_fields-Normalized}
use go_cron.Parser.Parse
use go_cron.Parser.Parse.{Parser, hashing, minutes, dow, day_never_matches, parse_fields}
use go_cron.Parser.Parse.Laws.{IsWellFormed, parse_fields-IsWellFormed}
use go_cron.Parser.Parse.Strict.{Day, day_never_matches-day_matches, day_never_matches-Day}
use go_cron.Parser.Bits.Within.{IsBounds, IsFieldSet}
use go_cron.Word.{shl, complement, and_not}
use go_cron.Word.Laws.{test_bit}
use go_cron.Parser.Bits
use go_cron.Parser.Bits.Laws.{in_steps}

-- The options of a parser with optional seconds and years.
abbrev extended : ParseOptions
extended = record {
  second = false;
  second_optional = true;
  minute = true;
  hour = true;
  dom = true;
  month = true;
  dow = true;
  dow_optional = false;
  descriptor = true;
  year = false;
  year_optional = true;
  hash = true;
  dow_nth = true;
  dow_last = true;
  dom_l = true;
  dom_w = true;
  dow_or_dom = false;
  align_every = false;
  lenient_steps = false;
  strict_days = true;
  step_wildcard = false;
  every_round_up = false;
  dst_skip = false;
  dow_step_to_saturday = false;
}

abbrev parser : Parser
parser = record {
  options = extended;
  min_every_interval = pos 1000000000;
  max_search_years = pos 5;
  hash_key = b'j' ∷ b'o' ∷ b'b' ∷ [];
}

-- "*/15 9-17 L,13 * mon-fri,7 2030-2040/5"
abbrev words : List Text
words =
    (b'*' ∷ b'/' ∷ b'1' ∷ b'5' ∷ [])
    ∷ (b'9' ∷ b'-' ∷ b'1' ∷ b'7' ∷ [])
    ∷ (b'L' ∷ b',' ∷ b'1' ∷ b'3' ∷ [])
    ∷ (b'*' ∷ [])
    ∷ (b'm' ∷ b'o' ∷ b'n' ∷ b'-' ∷ b'f' ∷ b'r' ∷ b'i' ∷ b',' ∷ b'7' ∷ [])
    ∷ (b'2' ∷ b'0' ∷ b'3' ∷ b'0' ∷ b'-' ∷ b'2' ∷ b'0' ∷ b'4' ∷ b'0' ∷ b'/' ∷ b'5' ∷ [])
    ∷ []

run : Unit {0}
unfolding Bits.get_bits Bits.bits_from Bits.get_wraparound_bits Bits.dow_cycle Bits.is_dow_bounds
    Bits.wrap_value Bits.wrap_from Bits.walk_around Text.is_digit Text.scan Text.digits Text.atoi
    Text.split Text.non_empty Text.has_prefix Text.contains_byte Text.cut Text.to_upper
    Text.to_lower Text.upper_byte Text.lower_byte Text.drop Text.init Text.ends_with
    Range.must_parse_int Range.named Range.parse_int_or_name Range.parse_range_bounds Range.two_ends
    Range.validate_range_bounds Range.cyclic_range_size Range.validate_range_params Range.stepped
    Range.range_step Range.range_bits Range.range_of Range.range_parts Range.get_range
    Field.split_list Field.join_items Field.fnv Field.compute_hash Field.step_offset
    Field.hash_step_bits Field.get_hash_step_bits Field.dow_hash_sunday7 Field.hash_value
    Field.get_hash_single_bit Field.hash_range_parts Field.hash_range Field.hash_bits
    Field.hash_parts Field.get_range_with_hash Field.get_field_with_hash Days.parse_occurrence
    Days.parse_dow_constraint Days.dow_part Days.dow_item Days.items_from
    Days.get_dow_field_with_constraints Days.parse_dom_l_constraint Days.parse_dom_w_constraint
    Days.dom_item Days.get_dom_field_with_constraints Days.parse_dom_field Days.parse_dow_field
    Year.year_ends Year.year_step Year.years_from Year.year_range Year.year_parts
    Year.get_year_range Year.year_items Year.get_year_field Year.any_large Year.separated
    Year.looks_like_year Options.process_optional_flags Options.count_configured_fields
    Options.expand Options.add_optional Options.normalize_fields Options.optional_year
    Options.extract_optional_year_field Options.handle_year_extraction Parse.field_bounds
    Parse.dow_bounds Parse.max_days_in_month Parse.any_day Parse.any_month Parse.day_never_matches
    Parse.wildcard_bit Parse.contains_hash_expr Parse.field_at Parse.field Parse.check_hash
    Parse.step_wildcard_bit Parse.year_set Parse.read_clock Parse.read_days Parse.read_schedule
    Parse.parse_fields shl complement and_not normalize_dow
run = tt

-- Minutes 0, 15, 30 and 45, hours 9 to 17, the 13th and the last day, Monday to Friday and Sunday.
abbrev office : SpecSchedule
office = record {
  second = 1;
  minute = 35185445863425;
  hour = 261632;
  dom = 8192;
  month = 9223372036854783998;
  dow = 63;
  year = some (2030 ∷ 2035 ∷ 2040 ∷ []);
  location = none;
  max_search_years = pos 5;
  dom_constraints = last ∷ [];
  dow_constraints = [];
  dow_or_dom = false;
  dst_skip = false;
}

office_read : parse_fields parser none words ≡ ok office
unfolding run
office_read = refl

parse_fields-IsWellFormed_example : IsWellFormed extended office
parse_fields-IsWellFormed_example = parse_fields-IsWellFormed parser none words office office_read

minutes-IsBounds : IsBounds minutes
minutes-IsBounds = record { ordered = omega arith; small = omega arith }

-- "H/20,7" with the key "job"
hashed :
    get_field_with_hash (hashing parser) minutes (b'H' ∷ b'/' ∷ b'2' ∷ b'0' ∷ b',' ∷ b'7' ∷ [])
    ≡ ok 281475245146496
unfolding run
hashed = refl

get_field_with_hash-IsFieldSet_example : IsFieldSet minutes 281475245146496
get_field_with_hash-IsFieldSet_example =
    get_field_with_hash-IsFieldSet (hashing parser) minutes _ 281475245146496 minutes-IsBounds
      hashed

-- "5-50/15"
quarter : IsItem minutes (span 5 50) (some 15)
unfolding run
quarter = record {
  words = refl;
  bounds = minutes-IsBounds;
  ordered = omega arith;
  start_in = omega arith;
  end_in = omega arith;
  step_in = (omega arith, omega arith);
  fits = refl;
}

every_minute : IsItem minutes star none
unfolding run
every_minute = record {
  words = refl;
  bounds = minutes-IsBounds;
  ordered = omega arith;
  start_in = omega arith;
  end_in = omega arith;
  step_in = (omega arith, omega arith);
  fits = refl;
}

-- The weekdays of DowStepToSaturday.
abbrev to_saturday : Bounds
to_saturday = record dow { step_end = 6 }

-- "1/2"
odd_days : IsItem to_saturday (value 1) (some 2)
unfolding run
odd_days = record {
  words = refl;
  bounds = record { ordered = omega arith; small = omega arith };
  ordered = omega arith;
  start_in = omega arith;
  end_in = omega arith;
  step_in = (omega arith, omega arith);
  fits = refl;
}

get_range-print_item_example :
    (bits : ℕ) × (get_range (print_item (value 1) (some 2)) to_saturday ≡ ok bits)
    × ((v : ℕ) → v < 63 → test_bit v bits ≡ in_steps 1 6 2 v)
get_range-print_item_example = get_range-print_item to_saturday (value 1) (some 2) odd_days

abbrev quarters : Item
quarters = record { base = span 5 50; step = some 15 }

abbrev all_minutes : Item
all_minutes = record { base = star; step = none }

get_field_with_hash-print_field_example :
    (bits : ℕ) × (get_field_with_hash
        (hashing parser)
        minutes
        (print_field quarters (all_minutes ∷ []))
      ≡ ok bits)
    × ((v : ℕ) → v < 63 → test_bit v bits ≡ has_value minutes (quarters ∷ all_minutes ∷ []) v)
get_field_with_hash-print_field_example =
    get_field_with_hash-print_field (hashing parser) minutes quarters (all_minutes ∷ [])
      (quarter, (every_minute, tt))

normalize_fields-Normalized_example : Normalized extended words (normalize_fields words extended)
normalize_fields-Normalized_example = normalize_fields-Normalized words extended

-- 30 and 31 February
abbrev late : SpecSchedule
late = record office { dom = 3221225472; month = 4; dom_constraints = [] }

late_never :
    day_never_matches late.dom late.month late.dow late.dom_constraints late.dow_or_dom ≡ true
unfolding run
late_never = refl

abbrev midnight : Time
midnight = record { ns = 63876342896500000000; loc = utc }

day_never_matches-day_matches_example :
    (field_matches (Wall.month midnight) 4 && day_matches late midnight) ≡ false
day_never_matches-day_matches_example = day_never_matches-day_matches late midnight late_never

leap_day : day_never_matches 536870912 4 127 [] false ≡ false
unfolding run
leap_day = refl

day_never_matches-Day_example : Day 536870912 4
day_never_matches-Day_example = day_never_matches-Day 536870912 4 127 false refl leap_day

abbrev decades : Field.Range
decades = record { start = 2030; end = 2055 }

decades_read : year_range decades 10 ≡ ok (2030 ∷ 2040 ∷ 2050 ∷ [])
unfolding run
decades_read = refl

year_range-IsYearRange_example : IsYearRange decades 10 (2030 ∷ 2040 ∷ 2050 ∷ [])
year_range-IsYearRange_example =
    year_range-IsYearRange decades 10 (2030 ∷ 2040 ∷ 2050 ∷ []) decades_read

-- "2030,2040-2041"
years_read :
    get_year_field (
      b'2' ∷ b'0' ∷ b'3' ∷ b'0' ∷ b',' ∷ b'2' ∷ b'0' ∷ b'4' ∷ b'0' ∷ b'-' ∷ b'2' ∷ b'0' ∷ b'4'
      ∷ b'1' ∷ [])
    ≡ ok (some (2030 ∷ 2040 ∷ 2041 ∷ []))
unfolding run
years_read = refl

get_year_field-AreYears_example : AreYears (2030 ∷ 2040 ∷ 2041 ∷ [])
get_year_field-AreYears_example = get_year_field-AreYears _ (2030 ∷ 2040 ∷ 2041 ∷ []) years_read

new_parser :
    try_new_parser extended
    ≡ ok (record {
      options = extended;
      min_every_interval = pos 1000000000;
      max_search_years = pos 0;
      hash_key = [];
    })
unfolding try_new_parser run
new_parser = refl

try_new_parser-normalize_fields_example :
    ((normalize_fields words extended ≡ err wrong_field_count) × (accepts extended words ≡ false))
    ⊎ ((accepts extended words ≡ true)
        × ((l : List Text) × (normalize_fields words extended ≡ ok l) × (length l ≡ 6)))
try_new_parser-normalize_fields_example =
    try_new_parser-normalize_fields extended
      (record {
        options = extended;
        min_every_interval = pos 1000000000;
        max_search_years = pos 0;
        hash_key = [];
      })
      words new_parser
