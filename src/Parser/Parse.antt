-- ===== src/Parser/Parse.antt =====
-- parser.go: `Parser` and `parse`. `time.LoadLocation` and `time.ParseDuration` are parameters.
pub mod Descriptor
pub mod Fields
pub mod Strict
pub mod Create
pub mod Laws
use Prim.Native.Nat.{bit_and, bit_or}
use go_cron.Prelude.{
  ℕ, zero, suc, ◌+◌, ◌-◌, Bool, true, false, not, ◌&&◌, ◌||◌, ltb, leb, ◌==◌, if◌then◌else◌, List,
  [], ◌∷◌, length, get_elem?, Option, none, some,
}
use go_cron.Prelude.Int.{ℤ, pos}
use go_cron.Time.Wall.{Location}
use go_cron.Word.{shl}
use go_cron.Spec.{SpecSchedule, DomConstraint, DowConstraint, star_bit}
use go_cron.Parser.{Bounds}
use go_cron.Parser.Result.{
  Result, ok, err, ◌>>=◌, ◌>>◌, refuse, hash_disabled, hash_key_required, day_never_occurs,
  index_out_of_range,
}
use go_cron.Parser.Text.{Text, is_empty, has_prefix, split}
use go_cron.Parser.Field.{Hashing, get_field_with_hash}
use go_cron.Parser.Days.{Days, parse_dom_field, parse_dow_field}
use go_cron.Parser.Year.{get_year_field}
use go_cron.Parser.Options.{ParseOptions, YearSplit, normalize_fields, handle_year_extraction}

abbrev pub cyclic : ℕ → ℕ → List (Text × ℕ) → Bounds
cyclic low high names = record {
  min = low;
  max = high;
  names = names;
  wraparound = true;
  lenient_steps = false;
  step_end = 0;
}

abbrev pub seconds : Bounds
seconds = cyclic 0 59 []

abbrev pub minutes : Bounds
minutes = cyclic 0 59 []

abbrev pub hours : Bounds
hours = cyclic 0 23 []

abbrev pub dom : Bounds
dom = cyclic 1 31 []

abbrev pub months : Bounds
months = cyclic 1 12 (
    (b'j' ∷ b'a' ∷ b'n' ∷ [], 1)
    ∷ (b'f' ∷ b'e' ∷ b'b' ∷ [], 2)
    ∷ (b'm' ∷ b'a' ∷ b'r' ∷ [], 3)
    ∷ (b'a' ∷ b'p' ∷ b'r' ∷ [], 4)
    ∷ (b'm' ∷ b'a' ∷ b'y' ∷ [], 5)
    ∷ (b'j' ∷ b'u' ∷ b'n' ∷ [], 6)
    ∷ (b'j' ∷ b'u' ∷ b'l' ∷ [], 7)
    ∷ (b'a' ∷ b'u' ∷ b'g' ∷ [], 8)
    ∷ (b's' ∷ b'e' ∷ b'p' ∷ [], 9)
    ∷ (b'o' ∷ b'c' ∷ b't' ∷ [], 10)
    ∷ (b'n' ∷ b'o' ∷ b'v' ∷ [], 11)
    ∷ (b'd' ∷ b'e' ∷ b'c' ∷ [], 12)
    ∷ [])

abbrev pub dow : Bounds
dow = cyclic 0 7 (
    (b's' ∷ b'u' ∷ b'n' ∷ [], 0)
    ∷ (b'm' ∷ b'o' ∷ b'n' ∷ [], 1)
    ∷ (b't' ∷ b'u' ∷ b'e' ∷ [], 2)
    ∷ (b'w' ∷ b'e' ∷ b'd' ∷ [], 3)
    ∷ (b't' ∷ b'h' ∷ b'u' ∷ [], 4)
    ∷ (b'f' ∷ b'r' ∷ b'i' ∷ [], 5)
    ∷ (b's' ∷ b'a' ∷ b't' ∷ [], 6)
    ∷ [])

-- Without the cache.
pub record Parser : Type 0 where
  pub options : ParseOptions
  pub min_every_interval : ℤ
  pub max_search_years : ℤ
  pub hash_key : Text

unfoldable pub field_bounds : Parser → Bounds → Bounds
field_bounds p r = record r { lenient_steps = p.options.lenient_steps }

unfoldable pub dow_bounds : Parser → Bounds
dow_bounds p =
    if p.options.dow_step_to_saturday
    then record (field_bounds p dow) { step_end = 6 }
    else field_bounds p dow

unfoldable pub max_days_in_month : ℕ → ℕ
max_days_in_month m =
    if m == 0
    then 0
    else if m == 2
    then 29
    else if (m == 4) || (m == 6) || (m == 9) || (m == 11)
    then 30
    else 31

-- `for d := 1; d <= n; d++`, from the last day on.
unfoldable pub any_day : ℕ → ℕ → Bool
any_day dom_bits zero = false
any_day dom_bits (suc n) = not (bit_and dom_bits (shl 1 (suc n)) == 0) || any_day dom_bits n

unfoldable pub any_month : ℕ → ℕ → ℕ → Bool
any_month dom_bits month_bits zero = false
any_month dom_bits month_bits (suc m) =
    not (bit_and month_bits (shl 1 (suc m)) == 0) && any_day dom_bits (max_days_in_month (suc m))
    || any_month dom_bits month_bits m

abbrev pub none_left {ℓ} : {A : Type ℓ} → List A → Bool
none_left [] = true
none_left (x ∷ xs) = false

unfoldable pub day_never_matches : ℕ → ℕ → ℕ → List DomConstraint → Bool → Bool
day_never_matches dom_bits month_bits dow_bits constraints dow_or_dom =
    if not (none_left constraints)
    then false
    else if dow_or_dom && ((bit_and dom_bits star_bit == 0) && (bit_and dow_bits star_bit == 0))
    then false
    else not (any_month dom_bits month_bits 12)

unfoldable pub wildcard_bit : Text → ℕ
wildcard_bit field =
    if has_prefix field (b'*' ∷ []) || has_prefix field (b'?' ∷ []) then star_bit else 0

abbrev pub any_hash : List Text → Bool
any_hash [] = false
any_hash (part ∷ rest) = has_prefix part (b'H' ∷ []) || any_hash rest

unfoldable pub contains_hash_expr : List Text → Bool
contains_hash_expr [] = false
contains_hash_expr (f ∷ rest) = any_hash (split b',' f) || contains_hash_expr rest

unfoldable pub field_at : List Text → ℕ → Result Text
field_at fields i = elim (get_elem? fields i) [ none ↦ err index_out_of_range | some f ↦ ok f ]

abbrev pub hashing : Parser → Hashing
hashing p = record { key = p.hash_key; enabled = p.options.hash }

-- `field(fields[i], r)`
unfoldable pub field : Parser → List Text → ℕ → Bounds → Result ℕ
field p fields i r = do f ← field_at fields i; get_field_with_hash (hashing p) (field_bounds p r) f

unfoldable pub check_hash : Parser → List Text → Result (Unit {0})
check_hash p fields =
    if contains_hash_expr fields
    then (do
      refuse (not p.options.hash) hash_disabled
      refuse (is_empty p.hash_key) hash_key_required)
    else ok tt

unfoldable pub step_wildcard_bit : ParseOptions → Text → ℕ
step_wildcard_bit o f = if o.step_wildcard && o.dow_or_dom then wildcard_bit f else 0

unfoldable pub year_set : ParseOptions → Text → Result (Option (List ℕ))
year_set o year_field =
    if (o.year || o.year_optional) && not (is_empty year_field)
    then get_year_field year_field
    else ok none

pub record Clock : Type 0 where
  pub second : ℕ
  pub minute : ℕ
  pub hour : ℕ
  pub month : ℕ

unfoldable pub read_clock : Parser → List Text → Result Clock
read_clock p fields = do
  second ← field p fields 0 seconds
  minute ← field p fields 1 minutes
  hour ← field p fields 2 hours
  month ← field p fields 4 months
  ok (record { second = second; minute = minute; hour = hour; month = month })

pub record DayFields : Type 0 where
  pub month_days : Days DomConstraint
  pub week_days : Days DowConstraint

abbrev pub with_star {ℓ} : {C : Type ℓ} → ParseOptions → Text → Days C → Days C
with_star o f d = record {
  bits = bit_or d.bits (step_wildcard_bit o f);
  constraints = d.constraints;
}

unfoldable pub read_days : Parser → List Text → Result DayFields
read_days p fields = do
  dom_field ← field_at fields 3
  dow_field ← field_at fields 5
  d ← parse_dom_field (hashing p) (field_bounds p dom) p.options.dom_l p.options.dom_w dom_field
  w ← parse_dow_field (hashing p) (dow_bounds p) p.options.dow_nth p.options.dow_last dow_field
  ok (record {
    month_days = with_star p.options dom_field d;
    week_days = with_star p.options dow_field w;
  })

abbrev pub assemble : Parser → Option Location → Clock → DayFields → Option (List ℕ) → SpecSchedule
assemble p loc clock days years = record {
  second = clock.second;
  minute = clock.minute;
  hour = clock.hour;
  dom = days.month_days.bits;
  month = clock.month;
  dow = days.week_days.bits;
  year = years;
  location = loc;
  max_search_years = p.max_search_years;
  dom_constraints = days.month_days.constraints;
  dow_constraints = days.week_days.constraints;
  dow_or_dom = p.options.dow_or_dom;
  dst_skip = p.options.dst_skip;
}

abbrev pub is_refused : ParseOptions → SpecSchedule → Bool
is_refused o s =
    o.strict_days && day_never_matches s.dom s.month s.dow s.dom_constraints s.dow_or_dom

unfoldable pub read_schedule : Parser → Option Location → List Text → Text → Result SpecSchedule
read_schedule p loc fields year_field = do
  clock ← read_clock p fields
  days ← read_days p fields
  years ← year_set p.options year_field
  refuse (is_refused p.options (assemble p loc clock days years)) day_never_occurs
  ok (assemble p loc clock days years)

-- What `parse` does with the fields, when the time zone is off.
unfoldable pub parse_fields : Parser → Option Location → List Text → Result SpecSchedule
parse_fields p loc all = do
  y ← handle_year_extraction all p.options
  fields ← normalize_fields y.fields p.options
  check_hash p fields
  read_schedule p loc fields y.year
