-- ===== src/Spec.antt =====
-- spec.go: `SpecSchedule`, the bit sets of a cron expression and its dynamic day constraints.
pub mod Days
pub mod Zones
pub mod Dates
pub mod Search
pub mod Gap
pub mod Fixed
pub mod Next
pub mod Sunday
mod Tests
use Prim.Native.Nat.{bit_and, bit_or}
use go_cron.Prelude.{
  ℕ, ◌^◌, Bool, true, false, not, ◌||◌, ◌==◌, if◌then◌else◌, List, [], ◌∷◌, Option, none, some,
}
use go_cron.Prelude.Int.{ℤ}
use go_cron.Time.Wall.{Location}
use go_cron.Word.{shl, and_not}

-- `DomConstraintType` with the `N` of the types that have one.
pub data DomConstraint : Type 0 where
  last : DomConstraint
  last_offset : ℕ → DomConstraint
  last_weekday : DomConstraint
  nearest_weekday : ℕ → DomConstraint

pub record DowConstraint : Type 0 where
  pub weekday : ℕ
  pub n : ℤ

-- `year` is `none` for the nil map, and `location` is `none` for `time.Local`.
pub record SpecSchedule : Type 0 where
  pub second : ℕ
  pub minute : ℕ
  pub hour : ℕ
  pub dom : ℕ
  pub month : ℕ
  pub dow : ℕ
  pub year : Option (List ℕ)
  pub location : Option Location
  pub max_search_years : ℤ
  pub dom_constraints : List DomConstraint
  pub dow_constraints : List DowConstraint
  pub dow_or_dom : Bool
  pub dst_skip : Bool

abbrev pub star_bit : ℕ
star_bit = 2 ^ 63

abbrev pub dow_bit7 : ℕ
dow_bit7 = 2 ^ 7

abbrev pub default_search_years : ℕ
default_search_years = 5

unfoldable pub normalize_dow : ℕ → ℕ
unfolding and_not
normalize_dow bits =
    if not (bit_and bits dow_bit7 == 0) then and_not (bit_or bits 1) dow_bit7 else bits

-- `1<<value & bits != 0`
unfoldable pub field_matches : ℕ → ℕ → Bool
unfolding shl
field_matches value bits = not (bit_and (shl 1 value) bits == 0)

contains : ℕ → List ℕ → Bool
contains y [] = false
contains y (x ∷ xs) = (x == y) || contains y xs

unfoldable pub year_matches : ℕ → Option (List ℕ) → Bool
unfolding contains
year_matches y none = true
year_matches y (some years) = contains y years
