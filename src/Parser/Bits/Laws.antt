-- ===== src/Parser/Bits/Laws.antt =====
-- Which values the bit sets of `Bits` hold.
use Prim.Native.Nat.{bit_and, bit_or}
use native.Mathlib.Nat.{mod-eq_of_lt, mod-eq-sub-mod}
use go_cron.Prelude.{
  ℕ, zero, suc, ◌+◌, ◌-◌, ◌%◌, ◌≤◌, ◌<◌, ◌≡◌, refl, ap, ◌∙◌, Bool, false, not, ◌&&◌, ◌||◌, ltb, leb,
  ◌==◌, if◌then◌else◌, Bool-cases, ==_iff, inl, inr, arith,
}
use go_cron.Word.{max_uint64, shl, complement}
use go_cron.Word.Laws.{
  test_bit, test_bit-or, test_bit-and, test_bit-zero, test_bit-shl, test_bit-shl_one, test_bit-max,
  test_bit-complement, and_pow, shl_lt, shl_one,
}
use go_cron.Spec.{field_matches}
use go_cron.Parser.{Bounds}
use go_cron.Parser.Bits.{
  bits_from, get_bits, wrap_value, wrap_from, get_wraparound_bits, walk_around, is_dow_bounds,
  dow_cycle,
}

-- `v` is one of `low`, `low + step`, … up to `high`.
abbrev pub in_steps : ℕ → ℕ → ℕ → ℕ → Bool
in_steps low high step v = leb low v && (leb v high && ((v - low) % step == 0))

pub field_matches-test_bit : (v bits : ℕ) → v < 64 → field_matches v bits ≡ test_bit v bits
unfolding field_matches
field_matches-test_bit v bits h = rw (shl_one v h) (ground (arith, and_pow v bits))

below_step : (d step : ℕ) → d < step → (d % step == 0) ≡ (d == 0)
below_step d step h = rw (mod-eq_of_lt h)

past_step : (d step : ℕ) → step ≤ d → d % step ≡ (d - step) % step
past_step d step h = mod-eq-sub-mod h

pub in_steps-next :
    (low high step v : ℕ)
    → 1 ≤ step
    → low ≤ high
    → in_steps low high step v ≡ ((v == low) || in_steps (low + step) high step v)
in_steps-next low high step v h k =
    let e : v - low - step ≡ v - (low + step) = omega arith in
    ground (arith, below_step (v - low) step, past_step (v - low) step, ap (λ (d : ℕ). d % step) e)

pub in_steps-past : (low high step v : ℕ) → high < low → in_steps low high step v ≡ false
in_steps-past low high step v h = ground arith

pub bits_from-test_bit :
    (rounds i high step bits v : ℕ)
    → v < 64
    → 1 ≤ step
    → high < i + rounds
    → test_bit v (bits_from rounds i high step bits) ≡ (test_bit v bits || in_steps i high step v)
unfolding bits_from
bits_from-test_bit zero i high step bits v h k f = ground (arith, in_steps-past i high step v)
bits_from-test_bit (suc rounds) i high step bits v h k f = elim (Bool-cases (leb i high)) [
  | inl t ↦
      let ih =
        bits_from-test_bit rounds (i + step) high step (bit_or bits (shl 1 i)) v h k
          (omega arith) in
      rw t (
        ih
        ∙ rw (test_bit-or v bits (shl 1 i), test_bit-shl_one v i h)
            (ground (arith, in_steps-next i high step v)))
  | inr t ↦ rw t (ground (arith, in_steps-past i high step v))
]

all_steps : (d : ℕ) → d % 1 ≡ 0
all_steps d = omega arith

-- For a positive step, of the bits below 64 `getBits` sets those of `low`, `low + step`, … up to `high`, and no other bit.
pub get_bits-field_matches :
    (low high step v : ℕ)
    → v < 64
    → 1 ≤ step
    → field_matches v (get_bits low high step) ≡ in_steps low high step v
unfolding get_bits
get_bits-field_matches low high step v h k = elim (Bool-cases (step == 1)) [
  | inl t ↦
      let one : step ≡ 1 = (==_iff step 1).0 t in
      let below = shl max_uint64 low in
      let above = shl max_uint64 (high + 1) in
      let in_low : test_bit v below ≡ leb low v =
        test_bit-shl v max_uint64 low h ∙ ground (arith, test_bit-max (v - low)) in
      let in_high : test_bit v (complement above) ≡ leb v high =
        test_bit-complement v above h (shl_lt max_uint64 (high + 1))
        ∙ ap not (test_bit-shl v max_uint64 (high + 1) h)
        ∙ ground (arith, test_bit-max (v - (high + 1))) in
      rw
        (
          t,
          field_matches-test_bit v (bit_and (complement above) below) h,
          test_bit-and v (complement above) below,
          in_low,
          in_high,
          one,
        )
        (ground (arith, all_steps (v - low)))
  | inr t ↦ rw (
    t,
    field_matches-test_bit v _ h,
    bits_from-test_bit (high + 1) low high step 0 v h k (omega arith),
    test_bit-zero v,
  )
]

wrapped_once : (d size : ℕ) → d < size → d % size ≡ d
wrapped_once d size h = mod-eq_of_lt h

spread : (a b c d : Bool) → ((a || (b && c)) || (b && d)) ≡ (a || (b && (c || d)))
spread a b c d = ground arith

-- The number of steps from `start` to `v` around the field.
abbrev pub distance : Bounds → ℕ → ℕ → ℕ
distance r start v = if leb start v then v - start else v + (r.max - r.min + 1) - start

abbrev pub in_field : Bounds → ℕ → Bool
in_field r v = leb r.min v && leb v r.max

module _ (r : Bounds) (start : ℕ) (lo : r.min ≤ start) (hi : start ≤ r.max) where
  wrap_value-eq :
      (i v : ℕ)
      → start ≤ i
      → i < start + (r.max - r.min + 1)
      → (v == wrap_value r i) ≡ (in_field r v && (start + distance r start v == i))
  unfolding wrap_value
  wrap_value-eq i v p q =
      let d = i - r.min in
      let size = r.max - r.min + 1 in ground (arith, past_step d size, wrapped_once (d - size) size)

  wrap_from-test_bit :
      (rounds i last step bits v : ℕ)
      → v < 64
      → 1 ≤ step
      → start ≤ i
      → last < start + (r.max - r.min + 1)
      → last < i + rounds
      → test_bit v (wrap_from rounds r i last step bits)
        ≡ (test_bit v bits || (in_field r v && in_steps i last step (start + distance r start v)))
  unfolding wrap_from
  wrap_from-test_bit zero i last step bits v h k p q f =
      ground (arith, in_steps-past i last step (start + distance r start v))
  wrap_from-test_bit (suc rounds) i last step bits v h k p q f = elim (Bool-cases (leb i last)) [
    | inl t ↦
        let i' = i + step in
        let ih =
          wrap_from-test_bit rounds i' last step (bit_or bits (shl 1 (wrap_value r i))) v h k
            (omega arith) q (omega arith) in
        rw t (
          ih
          ∙ rw
              (
                test_bit-or v bits (shl 1 (wrap_value r i)),
                test_bit-shl_one v (wrap_value r i) h,
                wrap_value-eq i v p (ground arith),
              )
              (rw (in_steps-next i last step (start + distance r start v) k (ground arith))
                (spread (test_bit v bits) (in_field r v) _ _)))
    | inr t ↦ rw t (ground (arith, in_steps-past i last step (start + distance r start v)))
  ]

get_wraparound_bits-walk :
    (r : Bounds) (start end step : ℕ)
    → is_dow_bounds r ≡ false
    → end < start
    → get_wraparound_bits start end step r ≡ walk_around start end step r
unfolding get_wraparound_bits dow_cycle
get_wraparound_bits-walk r start end step plain back =
    let no_order : leb start end ≡ false = ground arith in
    elim (Bool-cases (ltb 1 step)) [ inl t ↦ rw (t, plain, no_order) refl | inr t ↦ rw t refl ]

-- `getWraparoundBits` for a range inside the field that starts after its end, with a positive step
-- and in a field that is not a day of the week: of the values below 64, it sets those of the field
-- whose distance from `start` is a multiple of `step`, as far as `end`.
pub get_wraparound_bits-field_matches :
    (r : Bounds) (start end step v : ℕ)
    → is_dow_bounds r ≡ false
    → r.min ≤ end
    → end < start
    → start ≤ r.max
    → v < 64
    → 1 ≤ step
    → field_matches v (get_wraparound_bits start end step r) ≡ (
        in_field r v
        && in_steps start (end + (r.max - r.min + 1)) step (start + distance r start v))
get_wraparound_bits-field_matches r start end step v plain lo back hi h k =
    let last = end + (r.max - r.min + 1) in
    let walk = wrap_from (last + 1) r start last step 0 in
    let run : test_bit v walk ≡ (
        test_bit v 0 || (in_field r v && in_steps start last step (start + distance r start v))) =
      wrap_from-test_bit r start (omega arith) hi (last + 1) start last step 0 v h k (omega arith)
        (omega arith) (omega arith) in
    let same : walk_around start end step r ≡ walk = unfold walk_around in refl in
    ap (field_matches v) (get_wraparound_bits-walk r start end step plain back ∙ same)
    ∙ field_matches-test_bit v walk h
    ∙ run
    ∙ rw (test_bit-zero v) refl
