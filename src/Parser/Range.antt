-- ===== src/Parser/Range.antt =====
-- parser.go: one item of a field, `getRange`.
pub mod Within
pub mod Print
pub mod Items
pub mod Drops
pub mod RoundTrip
use Prim.Native.Nat.{bit_or}
use go_cron.Prelude.{
  ℕ, ◌+◌, ◌-◌, ◌^◌, Bool, true, false, not, ◌&&◌, ◌||◌, ltb, leb, ◌==◌, if◌then◌else◌, List, [],
  ◌∷◌, Option, none, some,
}
use go_cron.Prelude.Int.{ℤ, pos, negsuc}
use go_cron.Word.{and_not}
use go_cron.Spec.{star_bit}
use go_cron.Parser.{Bounds}
use go_cron.Parser.Result.{
  Result, ok, err, ◌>>=◌, ◌>>◌, refuse, not_a_number, negative_number, too_many_hyphens,
  too_many_slashes, starred_range, below_minimum, above_maximum, end_before_start, zero_step,
  step_too_large,
}
use go_cron.Parser.Text.{Text, same, atoi, split, to_lower}
use go_cron.Parser.Bits.{get_bits, get_wraparound_bits}

unfoldable pub must_parse_int : Text → Result ℕ
must_parse_int expr = elim (atoi expr) [
  | none ↦ err not_a_number
  | some (pos n) ↦ ok n
  | some (negsuc n) ↦ err negative_number
]

unfoldable pub named : List (Text × ℕ) → Text → Option ℕ
named [] name = none
named ((k, v) ∷ rest) name = if same k name then some v else named rest name

unfoldable pub parse_int_or_name : Text → List (Text × ℕ) → Result ℕ
parse_int_or_name expr names = elim (named names (to_lower expr)) [
  | none ↦ must_parse_int expr
  | some v ↦ ok v
]

pub record Ends : Type 0 where
  pub start : ℕ
  pub end : ℕ
  pub extra : ℕ

abbrev pub is_star : Text → Bool
is_star expr = same expr (b'*' ∷ []) || same expr (b'?' ∷ [])

abbrev pub one_value : ℕ → Ends
one_value n = record { start = n; end = n; extra = 0 }

unfoldable pub two_ends : ℕ → Text → List Text → Bounds → Result Ends
two_ends n high [] r = do
  m ← parse_int_or_name high r.names
  ok (record { start = n; end = m; extra = 0 })
two_ends n high (more ∷ rest) r = err too_many_hyphens

-- `strings.Split` returns at least one text.
unfoldable pub parse_range_bounds : List Text → Bounds → Result Ends
parse_range_bounds [] r = err too_many_hyphens
parse_range_bounds (low ∷ []) r =
    if is_star low
    then ok (record { start = r.min; end = r.max; extra = star_bit })
    else do n ← parse_int_or_name low r.names; ok (one_value n)
parse_range_bounds (low ∷ high ∷ rest) r =
    if is_star low
    then err starred_range
    else do n ← parse_int_or_name low r.names; two_ends n high rest r

unfoldable pub validate_range_bounds : ℕ → ℕ → Bounds → Result (Unit {0})
validate_range_bounds start end r = do
  refuse (ltb start r.min) below_minimum
  refuse (ltb r.max start) above_maximum
  refuse (ltb end r.min) below_minimum
  refuse (ltb r.max end) above_maximum
  refuse (ltb end start && not r.wraparound) end_before_start

unfoldable pub cyclic_range_size : ℕ → ℕ → Bounds → ℕ
cyclic_range_size start end r =
    if ltb end start then r.max - start + 1 + (end - r.min + 1) else end - start + 1

unfoldable pub validate_range_params : ℕ → ℕ → ℕ → Bounds → Result (Unit {0})
validate_range_params start end step r = do
  validate_range_bounds start end r
  refuse (step == 0) zero_step
  refuse (ltb 1 step && (leb (cyclic_range_size start end r) step && not r.lenient_steps))
      step_too_large

-- What `getRange` knows after it has read the step: `N/step` runs up to the maximum.
pub record Steps : Type 0 where
  pub end : ℕ
  pub step : ℕ
  pub extra : ℕ
  pub dropped : ℕ

abbrev pub single : List Text → Bool
single [] = false
single (low ∷ []) = true
single (low ∷ high ∷ rest) = false

unfoldable pub stepped : Bool → Ends → ℕ → Bounds → Steps
stepped single_digit b step r = record {
  end = if single_digit then r.max else b.end;
  step = step;
  extra = if ltb 1 step then 0 else b.extra;
  dropped =
      if single_digit && (not (r.step_end == 0) && ((b.extra == 0) && leb b.start r.step_end))
      then get_bits (r.step_end + 1) r.max 1
      else 0;
}

unfoldable pub range_step : List Text → Bool → Ends → Bounds → Result Steps
range_step [] single_digit b r = ok (record { end = b.end; step = 1; extra = b.extra; dropped = 0 })
range_step (step ∷ []) single_digit b r = do
  n ← must_parse_int step
  ok (stepped single_digit b n r)
range_step (step ∷ more ∷ rest) single_digit b r = err too_many_slashes

unfoldable pub range_bits : ℕ → Steps → Bounds → ℕ
range_bits start s r =
    if ltb s.end start && r.wraparound
    then bit_or (get_wraparound_bits start s.end s.step r) s.extra
    else bit_or (and_not (get_bits start s.end s.step) s.dropped) s.extra

-- A range from the parts at the hyphens and the parts behind the first slash.
unfoldable pub range_of : List Text → List Text → Bounds → Result ℕ
range_of low_and_high steps r = do
  b ← parse_range_bounds low_and_high r
  s ← range_step steps (single low_and_high) b r
  validate_range_params b.start s.end s.step r
  ok (range_bits b.start s r)

unfoldable pub range_parts : List Text → Bounds → Result ℕ
range_parts [] r = err too_many_slashes
range_parts (range ∷ steps) r = range_of (split b'-' range) steps r

unfoldable pub get_range : Text → Bounds → Result ℕ
get_range expr r = range_parts (split b'/' expr) r
