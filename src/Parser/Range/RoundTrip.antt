-- ===== src/Parser/Range/RoundTrip.antt =====
-- `getRange` reads an item that is written out as the values that it stands for.
use go_cron.Prelude.{
  ℕ, ◌+◌, ◌-◌, ◌^◌, ◌≤◌, ◌<◌, ◌≡◌, refl, sym, ap, ◌∙◌, Bool, Bool-cases, true, false, not, ◌&&◌,
  ◌||◌, ltb, leb, ◌==◌, ◌⊎◌, inl, inr, Option, none, some, arith,
}
use go_cron.Word.Laws.{test_bit}
use go_cron.Spec.{star_bit}
use go_cron.Parser.{Bounds}
use go_cron.Parser.Result.{Result, ok, ◌>>◌}
use go_cron.Parser.Bits.Laws.{in_steps}
use go_cron.Parser.Range.{
  Ends, Steps, two_ends, parse_range_bounds, single, stepped, range_step, validate_range_bounds,
  validate_range_params, cyclic_range_size, range_bits, range_of, range_parts, get_range,
}
use go_cron.Parser.Range.Print.{
  Base, star, value, span, print_item, are_words, must_parse_int-itoa, parse_int_or_name-itoa,
  is_star-itoa, base_texts, step_texts, split-print_base, split-print_item,
}
use go_cron.Parser.Range.Items.{base_ends, item_start, item_end, item_last, item_step, IsItem}
use go_cron.Parser.Range.Drops.{Drops, range_bits-plain}

parse_range_bounds-print_base :
    (base : Base) (r : Bounds)
    → are_words r.names ≡ true
    → (base_ends r base).start < 2 ^ 63
    → (base_ends r base).end < 2 ^ 63
    → parse_range_bounds (base_texts base) r ≡ ok (base_ends r base)
unfolding parse_range_bounds two_ends
parse_range_bounds-print_base star r w p q = refl
parse_range_bounds-print_base (value n) r w p q =
    rw (is_star-itoa n, parse_int_or_name-itoa n r.names w p) refl
parse_range_bounds-print_base (span a b) r w p q =
    rw (is_star-itoa a, parse_int_or_name-itoa a r.names w p, parse_int_or_name-itoa b r.names w q)
      refl

abbrev steps_of : Option ℕ → Bool → Ends → Bounds → Steps
steps_of none one b r = record { end = b.end; step = 1; extra = b.extra; dropped = 0 }
steps_of (some step) one b r = stepped one b step r

range_step-print_item :
    (step : Option ℕ) (one : Bool) (b : Ends) (r : Bounds)
    → item_step step < 2 ^ 63
    → range_step (step_texts step) one b r ≡ ok (steps_of step one b r)
unfolding range_step
range_step-print_item none one b r h = refl
range_step-print_item (some step) one b r h = rw (must_parse_int-itoa step h) refl

abbrev one_text : Base → Bool
one_text base = single (base_texts base)

abbrev item_steps : Bounds → Base → Option ℕ → Steps
item_steps r base step = steps_of step (one_text base) (base_ends r base) r

get_range-parts :
    (r : Bounds) (base : Base) (step : Option ℕ)
    → IsItem r base step
    → get_range (print_item base step) r ≡ (
        validate_range_params
          (item_start r base)
          (item_steps r base step).end
          (item_steps r base step).step
          r
        >> ok (range_bits (item_start r base) (item_steps r base step) r))
unfolding get_range range_parts range_of
get_range-parts r base step i =
    let small = i.bounds.small in
    let high = i.end_in in
    let order = i.ordered in
    rw
      (
        split-print_item base step,
        split-print_base base,
        parse_range_bounds-print_base base r i.words (omega arith) (omega arith),
        range_step-print_item step (one_text base) (base_ends r base) r i.step_in.1,
      )
      refl

-- The steps of an item: their end and size, the values dropped, and at most the star added.
record AreSteps (r : Bounds) (base : Base) (step : Option ℕ) (s : Steps) : Type 0 where
  at_end : s.end ≡ item_end r base step
  size : s.step ≡ item_step step
  extra : (s.extra ≡ 0) ⊎ (s.extra ≡ star_bit)
  dropped : Drops r (item_end r base step) (item_last r base step) s.dropped

no_steps :
    (r : Bounds) (base : Base)
    → (item_end r base none ≡ (base_ends r base).end)
      × (item_last r base none ≡ (base_ends r base).end)
no_steps r star = (refl, refl)
no_steps r (value n) = (refl, refl)
no_steps r (span a b) = (refl, refl)

base_ends-extra :
    (r : Bounds) (base : Base)
    → ((base_ends r base).extra ≡ 0) ⊎ ((base_ends r base).extra ≡ star_bit)
base_ends-extra r star = inr refl
base_ends-extra r (value n) = inl refl
base_ends-extra r (span a b) = inl refl

item_steps-AreSteps :
    (r : Bounds) (base : Base) (step : Option ℕ) → AreSteps r base step (item_steps r base step)
unfolding stepped
item_steps-AreSteps r base none =
    let (end, last) = no_steps r base in
    record {
      at_end = sym end;
      size = refl;
      extra = base_ends-extra r base;
      dropped = inl (refl, last ∙ sym end);
    }
item_steps-AreSteps r star (some step) = record {
  at_end = refl;
  size = refl;
  extra = ground arith;
  dropped = inl (ground arith, refl);
}
item_steps-AreSteps r (value n) (some step) = record {
  at_end = refl;
  size = refl;
  extra = ground arith;
  dropped = elim (Bool-cases (not (r.step_end == 0) && leb n r.step_end)) [
    | inl t ↦ inr (ground (arith, t), refl, ground (arith, t))
    | inr t ↦ inl (ground (arith, t), ground (arith, t))
  ];
}
item_steps-AreSteps r (span a b) (some step) = record {
  at_end = refl;
  size = refl;
  extra = ground arith;
  dropped = inl (refl, refl);
}

end-in_field :
    (r : Bounds) (base : Base) (step : Option ℕ)
    → IsItem r base step
    → (item_start r base ≤ item_end r base step) × (item_end r base step ≤ r.max)
end-in_field r (value n) (some step) i = let h = i.end_in in (h, omega arith)
end-in_field r star none i = (i.ordered, i.end_in)
end-in_field r star (some step) i = (i.ordered, i.end_in)
end-in_field r (value n) none i = (i.ordered, i.end_in)
end-in_field r (span a b) none i = (i.ordered, i.end_in)
end-in_field r (span a b) (some step) i = (i.ordered, i.end_in)

validate_range_params-valid :
    (r : Bounds) (start end step : ℕ)
    → r.min ≤ start
    → start ≤ end
    → end ≤ r.max
    → 1 ≤ step
    → (leb step 1 || (ltb step (end - start + 1) || r.lenient_steps)) ≡ true
    → validate_range_params start end step r ≡ ok tt
unfolding validate_range_params validate_range_bounds cyclic_range_size
validate_range_params-valid r start end step lo h hi k fits =
    let a : ltb start r.min ≡ false = ground arith in
    let b : ltb r.max start ≡ false = ground arith in
    let c : ltb end r.min ≡ false = ground arith in
    let d : ltb r.max end ≡ false = ground arith in
    let e : ltb end start ≡ false = ground arith in
    let f : (step == 0) ≡ false = ground arith in
    let g : (ltb 1 step && (leb (end - start + 1) step && not r.lenient_steps)) ≡ false =
      ground (arith, fits) in
    rw (a, b, c, d, e, f, g) refl

-- An item that is written out, `*`, a number or a range with or without a step, is read back by getRange as its values: where no name of the field starts with a digit and the bounds of the field are below 63 and in order, for an item in the field that does not wrap around and whose step is from 1 to 2^63 - 1, and smaller than the number of values from its start to its end, for a number to that of the field, 1, or accepted as lenient, getRange succeeds, and of the values below 63 its bits are those from the start of the item, at multiples of its step, to its end; for a number with a step that is the end of the field, or the field's step end if it has one (6 for the weekday field under DowStepToSaturday), unless the number is past the step end or the step end is past the field.
pub get_range-print_item :
    (r : Bounds) (base : Base) (step : Option ℕ)
    → IsItem r base step
    → (bits : ℕ) × (get_range (print_item base step) r ≡ ok bits)
      × ((v : ℕ)
          → v < 63
          → test_bit v bits
            ≡ in_steps (item_start r base) (item_last r base step) (item_step step) v)
get_range-print_item r base step i =
    let start = item_start r base in
    let s = item_steps r base step in
    let steps = item_steps-AreSteps r base step in
    let inside = end-in_field r base step i in
    let valid =
      ap (λ (n : ℕ). validate_range_params start n s.step r) steps.at_end
      ∙ ap (λ (n : ℕ). validate_range_params start (item_end r base step) n r) steps.size
      ∙ validate_range_params-valid r start (item_end r base step) (item_step step) i.start_in
          inside.0 inside.1 i.step_in.0 i.fits in
    (
      range_bits start s r,
      get_range-parts r base step i
          ∙ ap (λ (m : Result (Unit {0})). m >> ok (range_bits start s r)) valid,
      λ v h.
          range_bits-plain r start (item_end r base step) (item_last r base step) (item_step step) s
            v steps.at_end steps.size steps.extra steps.dropped inside.0 i.step_in.0 h,
    )
