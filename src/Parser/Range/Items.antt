-- ===== src/Parser/Range/Items.antt =====
-- The items of a field that can be written out, and the values that they stand for.
use go_cron.Prelude.{
  ℕ, ◌+◌, ◌-◌, ◌^◌, ◌≤◌, ◌<◌, ◌≡◌, if◌then◌else◌, true, not, ◌&&◌, ◌||◌, ltb, leb, ◌==◌, Option,
  none, some,
}
use go_cron.Spec.{star_bit}
use go_cron.Parser.{Bounds}
use go_cron.Parser.Bits.Within.{IsBounds}
use go_cron.Parser.Range.{Ends, one_value}
use go_cron.Parser.Range.Print.{Base, star, value, span, are_words}

abbrev pub base_ends : Bounds → Base → Ends
base_ends r star = record { start = r.min; end = r.max; extra = star_bit }
base_ends r (value n) = one_value n
base_ends r (span a b) = record { start = a; end = b; extra = 0 }

abbrev pub item_start : Bounds → Base → ℕ
item_start r base = (base_ends r base).start

-- The end that is validated: a number with a step runs to the end of the field.
abbrev pub item_end : Bounds → Base → Option ℕ → ℕ
item_end r (value n) (some step) = r.max
item_end r base step = (base_ends r base).end

-- The last value that an item can have: the steps from a number end at the field's own end for them,
-- if it has one and the number is not past it.
abbrev pub item_last : Bounds → Base → Option ℕ → ℕ
item_last r (value n) (some step) =
    if not (r.step_end == 0) && (leb n r.step_end && leb r.step_end r.max)
    then r.step_end
    else r.max
item_last r base step = (base_ends r base).end

abbrev pub item_step : Option ℕ → ℕ
item_step none = 1
item_step (some step) = step

-- What an item of the field is, where no name of the field is a number.
pub record IsItem (r : Bounds) (base : Base) (step : Option ℕ) : Type 0 where
  pub words : are_words r.names ≡ true
  pub bounds : IsBounds r
  pub ordered : item_start r base ≤ (base_ends r base).end
  pub start_in : r.min ≤ item_start r base
  pub end_in : (base_ends r base).end ≤ r.max
  pub step_in : (1 ≤ item_step step) × (item_step step < 2 ^ 63)
  pub fits :
      (leb (item_step step) 1
        || (ltb (item_step step) (item_end r base step - item_start r base + 1) || r.lenient_steps))
      ≡ true
