-- ===== src/Parser/Tests.antt =====
-- Runs of parser.go's functions.
mod Specs
use go_cron.Prelude.{◌+◌, ◌≡◌, refl, true, ◌&&◌, [], arith}
use go_cron.Spec.{field_matches}
use go_cron.Parser.{Bounds}
use go_cron.Word.{shl}
use go_cron.Parser.Bits
use go_cron.Parser.Bits.{get_bits, get_wraparound_bits, is_dow_bounds}
use go_cron.Parser.Bits.Laws.{
  in_steps, distance, in_field, get_bits-field_matches, get_wraparound_bits-field_matches,
}

abbrev hours : Bounds
hours = record {
  min = 0;
  max = 23;
  names = [];
  wraparound = true;
  lenient_steps = true;
  step_end = 22;
}

-- "22-3/2": 22, 0 and 2
evening : get_wraparound_bits 22 3 2 hours ≡ 4194309
unfolding get_wraparound_bits Bits.dow_cycle is_dow_bounds Bits.wrap_from shl Bits.wrap_value
evening = refl

get_bits-field_matches_example : field_matches 40 (get_bits 5 59 7) ≡ in_steps 5 59 7 40
get_bits-field_matches_example = get_bits-field_matches 5 59 7 40 (omega arith) (omega arith)

get_wraparound_bits-field_matches_example :
    field_matches 2 (get_wraparound_bits 22 3 2 hours)
    ≡ (in_field hours 2 && in_steps 22 27 2 (22 + distance hours 22 2))
unfolding is_dow_bounds
get_wraparound_bits-field_matches_example =
    get_wraparound_bits-field_matches hours 22 3 2 2 refl (omega arith) (omega arith) (omega arith)
      (omega arith) (omega arith)
