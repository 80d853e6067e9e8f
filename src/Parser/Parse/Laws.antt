-- ===== src/Parser/Parse/Laws.antt =====
-- What `parse` returns: every field of the schedule is a set of that field's values.
use go_cron.Prelude.{
  ℕ, ◌≡◌, ap, sym, ◌∙◌, Bool, true, false, not, ◌&&◌, ◌||◌, ◌==◌, Bool-cases, inl, inr, List, [],
  Option, some, arith,
}
use Prim.Native.Nat.{bit_and}
use mathlib.Core.Path.{subst}
use go_cron.Time.Wall.{Location}
use go_cron.Spec.{SpecSchedule, DomConstraint, star_bit}
use go_cron.Parser.Result.{ok, >>=-ok, refuse-ok, ok_inj, day_never_occurs}
use go_cron.Parser.Text.{Text, is_empty}
use go_cron.Parser.Bits.Within.{IsFieldSet}
use go_cron.Parser.Days.{parse_dow_field, parse_dom_field}
use go_cron.Parser.Days.Within.{IsDays}
use go_cron.Parser.Year.Laws.{AreYears, get_year_field-AreYears}
use go_cron.Parser.Options.{ParseOptions, handle_year_extraction, normalize_fields}
use go_cron.Parser.Parse.{
  Parser, Clock, DayFields, read_clock, read_days, read_schedule, assemble, is_refused, hashing,
  seconds, minutes, hours, dom, months, field_bounds, dow_bounds, field, field_at, year_set,
  check_hash, parse_fields, day_never_matches,
}
use go_cron.Parser.Parse.Strict.{Day, day_never_matches-Day}
use go_cron.Parser.Parse.Fields.{
  weekdays, field-IsFieldSet, dow_bounds-range, parse_dow_field-IsDays, with_star-IsDays,
  cyclic-IsBounds, parse_dom_field-dom,
}

-- Day-of-week may stand in for the day of the month: the OR of the day fields, neither a star.
abbrev pub may_stand_in : SpecSchedule → Bool
may_stand_in s = s.dow_or_dom && ((bit_and s.dom star_bit == 0) && (bit_and s.dow star_bit == 0))

-- The fields of a schedule in their ranges, none empty; a day field may have constraints instead.
-- With the strict option, day and month fields that decide on their own have a day in common.
pub record IsWellFormed (o : ParseOptions) (s : SpecSchedule) : Type 0 where
  pub second : IsFieldSet seconds s.second
  pub minute : IsFieldSet minutes s.minute
  pub hour : IsFieldSet hours s.hour
  pub month : IsFieldSet months s.month
  pub days : IsDays dom (record { bits = s.dom; constraints = s.dom_constraints })
  pub days_of_week : IsDays weekdays (record { bits = s.dow; constraints = s.dow_constraints })
  pub years : (l : List ℕ) → s.year ≡ some l → AreYears l
  pub strict :
      o.strict_days ≡ true → s.dom_constraints ≡ [] → may_stand_in s ≡ false → Day s.dom s.month

record IsClock (c : Clock) : Type 0 where
  second : IsFieldSet seconds c.second
  minute : IsFieldSet minutes c.minute
  hour : IsFieldSet hours c.hour
  month : IsFieldSet months c.month

read_clock-IsClock :
    (p : Parser) (fields : List Text) (c : Clock) → read_clock p fields ≡ ok c → IsClock c
unfolding read_clock
read_clock-IsClock p fields c e =
    let (second, second_read, e1) = >>=-ok (field p fields 0 seconds) _ c e in
    let (minute, minute_read, e2) = >>=-ok (field p fields 1 minutes) _ c e1 in
    let (hour, hour_read, e3) = >>=-ok (field p fields 2 hours) _ c e2 in
    let (month, month_read, e4) = >>=-ok (field p fields 4 months) _ c e3 in
    let sixty = cyclic-IsBounds 0 59 [] (omega arith) (omega arith) in
    subst IsClock (ok_inj _ c e4) (record {
      second = field-IsFieldSet p fields 0 seconds second sixty second_read;
      minute = field-IsFieldSet p fields 1 minutes minute sixty minute_read;
      hour =
          field-IsFieldSet p fields 2 hours hour
            (cyclic-IsBounds 0 23 [] (omega arith) (omega arith)) hour_read;
      month =
          field-IsFieldSet p fields 4 months month
            (cyclic-IsBounds 1 12 months.names (omega arith) (omega arith)) month_read;
    })

record AreDays (d : DayFields) : Type 0 where
  dom_days : IsDays dom d.month_days
  dow_days : IsDays weekdays d.week_days

read_days-AreDays :
    (p : Parser) (fields : List Text) (d : DayFields) → read_days p fields ≡ ok d → AreDays d
unfolding read_days
read_days-AreDays p fields all e =
    let (dom_field, e0, e1) = >>=-ok (field_at fields 3) _ all e in
    let (dow_field, e0, e2) = >>=-ok (field_at fields 5) _ all e1 in
    let (d, d_read, e3) =
      >>=-ok
        (parse_dom_field (hashing p) (field_bounds p dom) p.options.dom_l p.options.dom_w dom_field)
        _ all e2 in
    let (w, w_read, e4) =
      >>=-ok
        (parse_dow_field (hashing p) (dow_bounds p) p.options.dow_nth p.options.dow_last dow_field)
        _ all e3 in
    let range = dow_bounds-range p in
    subst AreDays (ok_inj _ all e4) (record {
      dom_days = with_star-IsDays dom d p dom_field (parse_dom_field-dom p d dom_field d_read);
      dow_days = with_star-IsDays weekdays w p dow_field (
          parse_dow_field-IsDays (hashing p) (dow_bounds p) p.options.dow_nth p.options.dow_last
            dow_field w range.0 range.1 range.2 w_read);
    })

year_set-AreYears :
    (o : ParseOptions) (y : Text) (l : List ℕ) → year_set o y ≡ ok (some l) → AreYears l
unfolding year_set
year_set-AreYears o y l e = elim (Bool-cases ((o.year || o.year_optional) && not (is_empty y))) [
  | inl t ↦ get_year_field-AreYears y l (rw t at e)
  | inr t ↦ cc (rw t at e)
]

is_refused-Day :
    (o : ParseOptions) (s : SpecSchedule)
    → is_refused o s ≡ false
    → o.strict_days ≡ true
    → s.dom_constraints ≡ []
    → may_stand_in s ≡ false
    → Day s.dom s.month
is_refused-Day o s e strict plain alone =
    let passed : day_never_matches s.dom s.month s.dow s.dom_constraints s.dow_or_dom ≡ false =
      ground (arith, e, strict) in
    day_never_matches-Day s.dom s.month s.dow s.dow_or_dom alone (
      ap (λ (l : List DomConstraint). day_never_matches s.dom s.month s.dow l s.dow_or_dom)
        (sym plain)
      ∙ passed)

read_schedule-IsWellFormed :
    (p : Parser) (loc : Option Location) (fields : List Text) (y : Text) (s : SpecSchedule)
    → read_schedule p loc fields y ≡ ok s
    → IsWellFormed p.options s
unfolding read_schedule
read_schedule-IsWellFormed p loc fields y s e =
    let (clock, clock_read, e1) = >>=-ok (read_clock p fields) _ s e in
    let (days, days_read, e2) = >>=-ok (read_days p fields) _ s e1 in
    let (years, years_read, e3) = >>=-ok (year_set p.options y) _ s e2 in
    let (strict, e4) =
      refuse-ok (is_refused p.options (assemble p loc clock days years)) day_never_occurs _ s e3 in
    let c = read_clock-IsClock p fields clock clock_read in
    let d = read_days-AreDays p fields days days_read in
    subst (IsWellFormed p.options) (ok_inj _ s e4) (record {
      second = c.second;
      minute = c.minute;
      hour = c.hour;
      month = c.month;
      days = record { within = d.dom_days.within; has = d.dom_days.has };
      days_of_week = record { within = d.dow_days.within; has = d.dow_days.has };
      years = λ l at. year_set-AreYears p.options y l (years_read ∙ ap ok at);
      strict = is_refused-Day p.options (assemble p loc clock days years) strict;
    })

-- A schedule that parse reads from the fields of a spec has sets of seconds, minutes, hours and months that are in the range of their field and not empty, and its years, if it has a set of them, are at most 100000 from 1 to YearMax; so are its days from 1 to 31 and its days of the week from 0 to 6, unless they have a constraint; and with StrictDays, without a day-of-month constraint and where day-of-week cannot stand in for the day of the month, some day of a leap year is in both its day and its month field.
pub parse_fields-IsWellFormed :
    (p : Parser) (loc : Option Location) (all : List Text) (s : SpecSchedule)
    → parse_fields p loc all ≡ ok s
    → IsWellFormed p.options s
unfolding parse_fields
parse_fields-IsWellFormed p loc all s e =
    let (y, e0, e1) = >>=-ok (handle_year_extraction all p.options) _ s e in
    let (fields, e0, e2) = >>=-ok (normalize_fields y.fields p.options) _ s e1 in
    let (u, e0, e3) = >>=-ok (check_hash p fields) _ s e2 in
    read_schedule-IsWellFormed p loc fields y.year s e3
