-- ===== src/Parser/Options.antt =====
-- parser.go: the options of a parser, a bit each in the source, and the fields that they expect.
pub mod Count
use go_cron.Prelude.{
  ℕ, ◌+◌, ◌-◌, Bool, true, false, not, ◌&&◌, ◌||◌, ltb, leb, ◌==◌, if◌then◌else◌, List, [], ◌∷◌,
  ◌++◌, length, Option, none, some,
}
use go_cron.Parser.Result.{
  Result, ok, err, ◌>>=◌, ◌>>◌, refuse, many_optionals, wrong_field_count, unknown_optional,
  no_year, index_out_of_range,
}
use go_cron.Parser.Text.{Text}
use go_cron.Parser.Year.{looks_like_year}

pub record ParseOptions : Type 0 where
  pub second : Bool
  pub second_optional : Bool
  pub minute : Bool
  pub hour : Bool
  pub dom : Bool
  pub month : Bool
  pub dow : Bool
  pub dow_optional : Bool
  pub descriptor : Bool
  pub year : Bool
  pub year_optional : Bool
  pub hash : Bool
  pub dow_nth : Bool
  pub dow_last : Bool
  pub dom_l : Bool
  pub dom_w : Bool
  pub dow_or_dom : Bool
  pub align_every : Bool
  pub lenient_steps : Bool
  pub strict_days : Bool
  pub step_wildcard : Bool
  pub every_round_up : Bool
  pub dst_skip : Bool
  pub dow_step_to_saturday : Bool

abbrev pub count : Bool → ℕ
count true = 1
count false = 0

-- The options with the optional fields switched on, and how many of them there are.
unfoldable pub process_optional_flags : ParseOptions → Result (ParseOptions × ℕ)
process_optional_flags o = do
  refuse (o.second_optional && o.dow_optional) many_optionals
  ok (
    record o { second = o.second || o.second_optional; dow = o.dow || o.dow_optional },
    count o.second_optional + count o.dow_optional,
  )

unfoldable pub count_configured_fields : ParseOptions → ℕ
count_configured_fields o =
    count o.second + count o.minute + count o.hour + count o.dom + count o.month + count o.dow

abbrev pub zero_text : Text
zero_text = b'0' ∷ []

abbrev pub star_text : Text
star_text = b'*' ∷ []

-- `places` with their `defaults`.
abbrev pub places : ParseOptions → List (Bool × Text)
places o =
    (o.second, zero_text)
    ∷ (o.minute, zero_text)
    ∷ (o.hour, zero_text)
    ∷ (o.dom, star_text)
    ∷ (o.month, star_text)
    ∷ (o.dow, star_text)
    ∷ []

-- The loop that takes a field for each place that is configured; where none is left the source
-- would read past the end of the slice.
unfoldable pub expand : List (Bool × Text) → List Text → Result (List Text)
expand [] fields = ok []
expand ((false, value) ∷ rest) fields = do l ← expand rest fields; ok (value ∷ l)
expand ((true, value) ∷ rest) [] = err index_out_of_range
expand ((true, value) ∷ rest) (field ∷ fields) = do l ← expand rest fields; ok (field ∷ l)

unfoldable pub add_optional : ParseOptions → List Text → Result (List Text)
add_optional o fields =
    if o.dow_optional
    then ok (fields ++ (star_text ∷ []))
    else if o.second_optional
    then ok (zero_text ∷ fields)
    else err unknown_optional

abbrev pub is_between : ℕ → ℕ → ℕ → Bool
is_between low high n = leb low n && leb n high

unfoldable pub normalize_fields : List Text → ParseOptions → Result (List Text)
normalize_fields fields options = do
  (o, optionals) ← process_optional_flags options
  let most = count_configured_fields o
  let least = most - optionals
  refuse (not (is_between least most (length fields))) wrong_field_count
  filled ← if ltb least most && (length fields == least) then add_optional o fields else ok fields
  expand (places o) filled

-- The last field, and those before it.
abbrev pub split_last : Text → List Text → List Text × Text
split_last f [] = ([], f)
split_last f (g ∷ rest) = (f ∷ (split_last g rest).0, (split_last g rest).1)

-- The fields without the year, and the year field; "" where the parser reads no year.
pub record YearSplit : Type 0 where
  pub fields : List Text
  pub year : Text

abbrev pub taken : List Text × Text → YearSplit
taken (fields, year) = record { fields = fields; year = year }

abbrev pub kept : List Text → YearSplit
kept fields = record { fields = fields; year = star_text }

unfoldable pub extract_year_field_ambiguous : Text → List Text → YearSplit
extract_year_field_ambiguous f rest =
    let s = split_last f rest in if not (looks_like_year s.1) then kept (f ∷ rest) else taken s

unfoldable pub last_field : Bool → List Text → Result YearSplit
last_field ambiguous [] = err index_out_of_range
last_field true (f ∷ rest) = ok (extract_year_field_ambiguous f rest)
last_field false (f ∷ rest) = ok (taken (split_last f rest))

unfoldable pub extract_year_field : List Text → ParseOptions → Result YearSplit
extract_year_field fields options = do
  (o, optionals) ← process_optional_flags options
  let most = count_configured_fields o
  let least = most - optionals
  refuse (not (is_between (least + 1) (most + 1) (length fields))) wrong_field_count
  last_field (options.second_optional && (length fields == least + 1)) fields

-- With more fields than the places, or with one to spare.
unfoldable pub optional_year : Bool → Bool → List Text → Result YearSplit
optional_year too_many spare [] = ok (kept [])
optional_year true spare (f ∷ rest) =
    let s = split_last f rest in if not (looks_like_year s.1) then err no_year else ok (taken s)
optional_year false spare (f ∷ rest) =
    let s = split_last f rest in
    if looks_like_year s.1 && spare then ok (taken s) else ok (kept (f ∷ rest))

unfoldable pub extract_optional_year_field : List Text → ParseOptions → Result YearSplit
extract_optional_year_field fields options = do
  (o, optionals) ← process_optional_flags options
  let most = count_configured_fields o
  let least = most - optionals
  refuse (not (is_between least (most + 1) (length fields))) wrong_field_count
  optional_year (ltb most (length fields)) (ltb least (length fields)) fields

unfoldable pub handle_year_extraction : List Text → ParseOptions → Result YearSplit
handle_year_extraction fields o =
    if o.year
    then extract_year_field fields o
    else if o.year_optional
    then extract_optional_year_field fields o
    else ok (record { fields = fields; year = [] })
