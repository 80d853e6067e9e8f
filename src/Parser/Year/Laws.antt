-- ===== src/Parser/Year/Laws.antt =====
-- Which years a year field selects.
use native.Mathlib.Nat.{div-eq-sub-div}
use go_cron.Prelude.{
  ℕ, zero, suc, ◌+◌, ◌-◌, ◌/◌, ◌≤◌, ◌≡◌, refl, sym, ap, ◌∙◌, Bool, true, false, ◌||◌, ltb, leb,
  ◌==◌, Bool-cases, inl, inr, List, [], ◌∷◌, ◌++◌, length, length-append, some, arith,
}
use mathlib.Core.Path.{subst}
use go_cron.Spec.{year_matches}
use go_cron.Parser.Text.{Text, split}
use go_cron.Parser.Result.{
  ok, >>=-ok, refuse-ok, ok_inj, below_minimum, above_maximum, end_before_start, zero_step,
  too_many_years,
}
use go_cron.Parser.Bits.Laws.{in_steps, in_steps-next, in_steps-past}
use go_cron.Parser.Range.{is_star}
use go_cron.Parser.Field.{Range, split_list}
use go_cron.Parser.Year.{
  year_base, year_max, max_years_per_field, years_from, year_range, year_ends, year_step,
  year_parts, get_year_range, year_items, get_year_field,
}

abbrev has_year : ℕ → List ℕ → Bool
has_year y l = year_matches y (some l)

year_matches-cons : (y x : ℕ) (l : List ℕ) → has_year y (x ∷ l) ≡ ((x == y) || has_year y l)
unfolding year_matches
year_matches-cons y x l = refl

year_matches-nil : (y : ℕ) → has_year y [] ≡ false
unfolding year_matches
year_matches-nil y = refl

year_matches-append : (y : ℕ) (l m : List ℕ) → has_year y (l ++ m) ≡ (has_year y l || has_year y m)
year_matches-append y [] m = rw (year_matches-nil y) refl
year_matches-append y (x ∷ l) m =
    ground
      (arith, year_matches-cons y x (l ++ m), year_matches-cons y x l, year_matches-append y l m)

rounds_left :
    (rounds i end step : ℕ)
    → 1 ≤ step
    → (end - i) / step + 1 ≤ suc rounds
    → i + step ≤ end
    → (end - (i + step)) / step + 1 ≤ rounds
rounds_left rounds i end step k f h =
    let e : end - i - step ≡ end - (i + step) = omega arith in
    let d = div-eq-sub-div {m = step} {n = end - i} k (omega arith) in
    omega (arith, d ∙ ap (λ (n : ℕ). n / step + 1) e, f)

-- With rounds for every year of the range.
years_from-year_matches :
    (rounds i end step y : ℕ)
    → 1 ≤ step
    → (i ≤ end → (end - i) / step + 1 ≤ rounds)
    → has_year y (years_from rounds i end step) ≡ in_steps i end step y
unfolding years_from
years_from-year_matches zero i end step y k f =
    year_matches-nil y ∙ sym (in_steps-past i end step y (ground (arith, f)))
years_from-year_matches (suc rounds) i end step y k f = elim (Bool-cases (leb i end)) [
  | inl t ↦
      let ih =
        years_from-year_matches rounds (i + step) end step y k
          (rounds_left rounds i end step k (f (ground (arith, t)))) in
      rw t (
        year_matches-cons y i _
        ∙ rw ih (ground (arith, in_steps-next i end step y k (ground (arith, t)))))
  | inr t ↦ rw t (year_matches-nil y ∙ sym (in_steps-past i end step y (ground (arith, t))))
]

length-years_from : (rounds i end step : ℕ) → length (years_from rounds i end step) ≤ rounds
unfolding years_from
length-years_from zero i end step = omega arith
length-years_from (suc rounds) i end step = elim (Bool-cases (leb i end)) [
  | inl t ↦ rw t (omega (arith, length-years_from rounds (i + step) end step))
  | inr t ↦ rw t (omega arith)
]

-- What `year_range` accepts, and the years that it selects.
pub record IsYearRange (b : Range) (step : ℕ) (l : List ℕ) : Type 0 where
  pub start_in : year_base ≤ b.start
  pub ordered : b.start ≤ b.end
  pub end_in : b.end ≤ year_max
  pub positive : 1 ≤ step
  pub few : length l ≤ max_years_per_field
  pub years : (y : ℕ) → year_matches y (some l) ≡ in_steps b.start b.end step y

-- Where a range of years with a step is accepted, it lies in the years from 1 to YearMax, has at most 100000 years, and the years that a schedule with them matches are those of the range that are a multiple of the step after its start.
pub year_range-IsYearRange :
    (b : Range) (step : ℕ) (l : List ℕ) → year_range b step ≡ ok l → IsYearRange b step l
unfolding year_range
year_range-IsYearRange b step l e =
    let rounds = (b.end - b.start) / step + 1 in
    let (low, e1) = refuse-ok (ltb b.start year_base) below_minimum _ l e in
    let (high, e2) = refuse-ok (ltb year_max b.end) above_maximum _ l e1 in
    let (order, e3) = refuse-ok (ltb b.end b.start) end_before_start _ l e2 in
    let (nonzero, e4) = refuse-ok (step == 0) zero_step _ l e3 in
    let (few, e5) = refuse-ok (ltb max_years_per_field rounds) too_many_years _ l e4 in
    let k : 1 ≤ step = ground (arith, nonzero) in
    subst (IsYearRange b step) (ok_inj _ l e5) (record {
      start_in = ground (arith, low);
      ordered = ground (arith, order);
      end_in = ground (arith, high);
      positive = k;
      few = ground (arith, few, length-years_from rounds b.start b.end step);
      years = λ y. years_from-year_matches rounds b.start b.end step y k (λ h. omega arith);
    })

-- Years that a field may select.
pub record AreYears (l : List ℕ) : Type 0 where
  pub few : length l ≤ max_years_per_field
  pub range : (y : ℕ) → year_matches y (some l) ≡ true → (year_base ≤ y) × (y ≤ year_max)

year_range-AreYears : (b : Range) (step : ℕ) (l : List ℕ) → IsYearRange b step l → AreYears l
year_range-AreYears b step l r = record {
  few = r.few;
  range = λ y e.
      let s = sym (r.years y) ∙ e in
      let low = r.start_in in
      let high = r.end_in in (ground (arith, s, low), ground (arith, s, high));
}

year_parts-AreYears : (texts : List Text) (l : List ℕ) → year_parts texts ≡ ok l → AreYears l
unfolding year_parts
year_parts-AreYears [] l e = cc
year_parts-AreYears (range ∷ steps) l e =
    let (b, b_read, e1) = >>=-ok (year_ends (split b'-' range)) _ l e in
    let (step, step_read, e2) = >>=-ok (year_step steps) _ l e1 in
    year_range-AreYears b step l (year_range-IsYearRange b step l e2)

get_year_range-AreYears : (expr : Text) (l : List ℕ) → get_year_range expr ≡ ok l → AreYears l
unfolding get_year_range
get_year_range-AreYears expr l e = year_parts-AreYears (split b'/' expr) l e

AreYears-append :
    (l m : List ℕ)
    → AreYears l
    → AreYears m
    → length l + length m ≤ max_years_per_field
    → AreYears (l ++ m)
AreYears-append l m p q h = record {
  few = omega (arith, length-append l m, h);
  range = λ y e.
      let s = sym (year_matches-append y l m) ∙ e in
      elim (Bool-cases (has_year y l)) [
        | inl t ↦ p.range y t
        | inr t ↦ q.range y (ground (arith, s, t))
      ];
}

year_items-AreYears :
    (items : List Text) (selected : ℕ) (set all : List ℕ)
    → selected ≡ length set
    → AreYears set
    → year_items items selected set ≡ ok all
    → AreYears all
unfolding year_items
year_items-AreYears [] selected set all n a e = subst AreYears (ok_inj set all e) a
year_items-AreYears (expr ∷ rest) selected set all n a e =
    let (years, read, e1) = >>=-ok (get_year_range expr) _ all e in
    let (few, e2) =
      refuse-ok (ltb max_years_per_field (selected + length years)) too_many_years _ all e1 in
    year_items-AreYears rest (selected + length years) (set ++ years) all
      (omega (arith, n, length-append set years))
      (AreYears-append set years a (get_year_range-AreYears expr years read)
        (ground (arith, few, n)))
      e2

-- The years that getYearField returns for a field are from 1 to YearMax, and not more than 100000 of them are kept, however many items the field has.
pub get_year_field-AreYears :
    (field : Text) (l : List ℕ) → get_year_field field ≡ ok (some l) → AreYears l
unfolding get_year_field
get_year_field-AreYears field l e = elim (Bool-cases (is_star field)) [
  | inl t ↦ cc (rw t at e)
  | inr t ↦
      let (items, split, e1) = >>=-ok (split_list field) _ (some l) (rw t at e) in
      let (set, read, e2) = >>=-ok (year_items items 0 []) _ (some l) e1 in
      let same : set ≡ l = some_inj set l (ok_inj (some set) (some l) e2) in
      subst AreYears same (year_items-AreYears items 0 [] set refl empty read)
]
  where
    empty : AreYears []
    empty = record { few = omega arith; range = λ y e. cc (sym (year_matches-nil y) ∙ e) }

    some_inj : (a b : List ℕ) → some a ≡ some b → a ≡ b
    some_inj a b h = cc
