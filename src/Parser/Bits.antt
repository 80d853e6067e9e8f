-- ===== src/Parser/Bits.antt =====
-- parser.go: `getBits`, `getWraparoundBits` and what they use.
pub mod Laws
pub mod Within
use Prim.Native.Nat.{bit_and, bit_or}
use go_cron.Prelude.{ℕ, zero, suc, ◌+◌, ◌-◌, ◌%◌, Bool, ◌&&◌, ltb, leb, ◌==◌, if◌then◌else◌}
use go_cron.Word.{max_uint64, shl, complement}
use go_cron.Spec.{star_bit}
use go_cron.Parser.{Bounds}

-- The loop of `getBits`, `for i := low; i <= high; i += step`.
unfoldable pub bits_from : ℕ → ℕ → ℕ → ℕ → ℕ → ℕ
bits_from zero i high step bits = bits
bits_from (suc rounds) i high step bits =
    let rest = bits_from rounds (i + step) high step (bit_or bits (shl 1 i)) in
    if leb i high then rest else bits

-- With a positive step the loop ends within `high + 1` rounds; the callers check the step.
unfoldable pub get_bits : ℕ → ℕ → ℕ → ℕ
get_bits low high step =
    if step == 1
    then bit_and (complement (shl max_uint64 (high + 1))) (shl max_uint64 low)
    else bits_from (high + 1) low high step 0

unfoldable pub is_dow_bounds : Bounds → Bool
is_dow_bounds r = (r.min == 0) && (r.max == 7)

-- `dowCycle`: the new start, end and bounds.
pub record Cycle : Type 0 where
  pub start : ℕ
  pub end : ℕ
  pub bounds : Bounds

unfoldable pub dow_cycle : ℕ → ℕ → Bounds → Cycle
dow_cycle start end r =
    if is_dow_bounds r
    then record {
      start = start % 7;
      end = (if (start == 0) && (end == 7) then 6 else end) % 7;
      bounds = record r { max = 6 };
    }
    else record { start = start; end = end; bounds = r }

-- A value past the field's maximum, taken back to its start.
unfoldable pub wrap_value : Bounds → ℕ → ℕ
wrap_value r i = if ltb r.max i then (i - r.min) % (r.max - r.min + 1) + r.min else i

-- The loop of `getWraparoundBits` and of `getHashStepBits`.
unfoldable pub wrap_from : ℕ → Bounds → ℕ → ℕ → ℕ → ℕ → ℕ
wrap_from zero r i last step bits = bits
wrap_from (suc rounds) r i last step bits =
    let rest = wrap_from rounds r (i + step) last step (bit_or bits (shl 1 (wrap_value r i))) in
    if leb i last then rest else bits

unfoldable pub walk_around : ℕ → ℕ → ℕ → Bounds → ℕ
walk_around start end step r =
    let last = end + (r.max - r.min + 1) in wrap_from (last + 1) r start last step 0

unfoldable pub get_wraparound_bits : ℕ → ℕ → ℕ → Bounds → ℕ
unfolding walk_around
get_wraparound_bits start end step r =
    let c = dow_cycle start end r in
    if ltb 1 step
    then (if leb c.start c.end
        then get_bits c.start c.end step
        else walk_around c.start c.end step c.bounds)
    else walk_around start end step r

unfoldable pub all_bits : Bounds → ℕ
all_bits r = bit_or (get_bits r.min r.max 1) star_bit
