-- ===== src/Parser/Year.antt =====
-- parser.go: the year field.
pub mod Laws
use go_cron.Prelude.{
  ℕ, zero, suc, ◌+◌, ◌-◌, ◌/◌, Bool, true, false, ◌||◌, ltb, leb, ◌==◌, if◌then◌else◌, List, [],
  ◌∷◌, ◌++◌, length, Option, none, some,
}
use go_cron.Prelude.Int.{ℤ, pos, negsuc}
use go_cron.Parser.Result.{
  Result, ok, err, ◌>>=◌, ◌>>◌, refuse, too_many_hyphens, too_many_slashes, below_minimum,
  above_maximum, end_before_start, zero_step, too_many_years,
}
use go_cron.Parser.Text.{Text, same, split, atoi, non_empty}
use go_cron.Parser.Range.{must_parse_int, is_star, Ends}
use go_cron.Parser.Field.{Range, split_list}

abbrev pub year_base : ℕ
year_base = 1

abbrev pub year_max : ℕ
year_max = 2147483647

abbrev pub max_years_per_field : ℕ
max_years_per_field = 100000

unfoldable pub year_ends : List Text → Result Range
year_ends [] = err too_many_hyphens
year_ends (low ∷ []) = do n ← must_parse_int low; ok (record { start = n; end = n })
year_ends (low ∷ high ∷ []) = do
  n ← must_parse_int low
  m ← must_parse_int high
  ok (record { start = n; end = m })
year_ends (low ∷ high ∷ more ∷ rest) = do _ ← must_parse_int low; err too_many_hyphens

unfoldable pub year_step : List Text → Result ℕ
year_step [] = ok 1
year_step (step ∷ []) = must_parse_int step
year_step (step ∷ more ∷ rest) = err too_many_slashes

-- `for y := start; y <= end; y += step`, on the number of rounds that it makes at most.
unfoldable pub years_from : ℕ → ℕ → ℕ → ℕ → List ℕ
years_from zero y end step = []
years_from (suc rounds) y end step =
    let rest = years_from rounds (y + step) end step in if leb y end then y ∷ rest else []

unfoldable pub year_range : Range → ℕ → Result (List ℕ)
year_range b step = do
  refuse (ltb b.start year_base) below_minimum
  refuse (ltb year_max b.end) above_maximum
  refuse (ltb b.end b.start) end_before_start
  refuse (step == 0) zero_step
  refuse (ltb max_years_per_field ((b.end - b.start) / step + 1)) too_many_years
  ok (years_from ((b.end - b.start) / step + 1) b.start b.end step)

unfoldable pub year_parts : List Text → Result (List ℕ)
year_parts [] = err too_many_slashes
year_parts (range ∷ steps) = do
  b ← year_ends (split b'-' range)
  step ← year_step steps
  year_range b step

unfoldable pub get_year_range : Text → Result (List ℕ)
get_year_range expr = year_parts (split b'/' expr)

-- The loop of `getYearField`; the set is the list of its members.
unfoldable pub year_items : List Text → ℕ → List ℕ → Result (List ℕ)
year_items [] selected set = ok set
year_items (expr ∷ rest) selected set = get_year_range expr >>= λ years.
    refuse (ltb max_years_per_field (selected + length years)) too_many_years
    >> year_items rest (selected + length years) (set ++ years)

unfoldable pub get_year_field : Text → Result (Option (List ℕ))
get_year_field field =
    if is_star field
    then ok none
    else do items ← split_list field; set ← year_items items 0 []; ok (some set)

-- validate.go: the parts of a field between commas, hyphens and slashes.
abbrev pub is_large : Option ℤ → Bool
is_large none = false
is_large (some (pos n)) = leb 100 n
is_large (some (negsuc n)) = false

unfoldable pub any_large : List Text → Bool
any_large [] = false
any_large (part ∷ rest) = is_large (atoi part) || any_large rest

unfoldable pub separated : ℕ → ℕ → ℕ → Text → Text
separated a b c [] = []
separated a b c (x ∷ s) = (if (x == b) || (x == c) then a else x) ∷ separated a b c s

unfoldable pub looks_like_year : Text → Bool
looks_like_year field =
    if is_star field
    then false
    else any_large (non_empty (split b',' (separated b',' b'-' b'/' field)))
