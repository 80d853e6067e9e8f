-- ===== src/Parser/Range/Within.antt =====
-- An item of a field sets values of the field, at least one, and besides at most the star bit.
use Prim.Native.Nat.{bit_or}
use go_cron.Prelude.{
  ℕ, ◌+◌, ◌^◌, ◌≤◌, ◌<◌, ◌≡◌, refl, sym, ap, ◌∙◌, Bool, true, false, not, ◌&&◌, ltb, ◌==◌,
  Bool-cases, ◌⊎◌, inl, inr, List, [], ◌∷◌, arith,
}
use mathlib.Core.Path.{subst}
use go_cron.Word.{and_not}
use go_cron.Word.Laws.{test_bit, test_bit-zero, test_bit-and_not}
use go_cron.Spec.{star_bit}
use go_cron.Parser.{Bounds}
use go_cron.Parser.Text.{Text}
use go_cron.Parser.Result.{ok_inj, below_minimum, above_maximum, zero_step, ok, >>=-ok, refuse-ok}
use go_cron.Parser.Bits.{get_bits, get_wraparound_bits}
use go_cron.Parser.Range.{
  Ends, Steps, range_bits, is_star, parse_range_bounds, single, stepped, range_step,
  validate_range_bounds, validate_range_params, range_of, range_parts, get_range, two_ends,
}
use go_cron.Parser.Bits.Within.{
  IsBounds, Within, IsFieldSet, Within-or, Has-or, Within-zero, Within-star, InBounds,
  get_bits-test_bit, get_bits-start, get_bits_lt, get_bits-IsFieldSet,
  get_wraparound_bits-IsFieldSet,
}

-- What validation leaves of an item: bounds in the field, in their order or in a cyclic field.
pub record IsValidRange (r : Bounds) (start : ℕ) (s : Steps) : Type 0 where
  pub inside : InBounds r start s.end
  pub positive : 1 ≤ s.step
  pub order : (start ≤ s.end) ⊎ (r.wraparound ≡ true)
  pub extra : (s.extra ≡ 0) ⊎ (s.extra ≡ star_bit)
  pub dropped :
      (s.dropped ≡ 0) ⊎ ((s.dropped ≡ get_bits (r.step_end + 1) r.max 1) × (start ≤ r.step_end))

extra-IsFieldSet :
    (r : Bounds) (bits extra : ℕ)
    → (extra ≡ 0) ⊎ (extra ≡ star_bit)
    → IsFieldSet r bits
    → IsFieldSet r (bit_or bits extra)
extra-IsFieldSet r bits extra x f = record {
  within = Within-or r.min r.max bits extra f.within (elim x [
    | inl e ↦ subst (Within r.min r.max) (sym e) (Within-zero r.min r.max)
    | inr e ↦ subst (Within r.min r.max) (sym e) (Within-star r.min r.max)
  ]);
  has = Has-or r.min r.max bits extra f.has;
}

dropped_lt : (r : Bounds) (start : ℕ) (s : Steps) → IsValidRange r start s → s.dropped < 2 ^ 64
dropped_lt r start s v = elim v.dropped [
  | inl e ↦ omega (arith, e)
  | inr e ↦ omega (arith, e.0, get_bits_lt (r.step_end + 1) r.max)
]

start_kept :
    (r : Bounds) (start : ℕ) (s : Steps)
    → IsBounds r
    → IsValidRange r start s
    → test_bit start s.dropped ≡ false
start_kept r start s b v = elim v.dropped [
  | inl e ↦ ap (test_bit start) e ∙ test_bit-zero start
  | inr (e, le) ↦
      let small = b.small in
      let inside = v.inside.start_in in
      ap (test_bit start) e
      ∙ get_bits-test_bit (r.step_end + 1) r.max 1 start (omega (arith, inside)) (omega arith)
      ∙ ground (arith, le)
]

kept-IsFieldSet :
    (r : Bounds) (start : ℕ) (s : Steps)
    → IsBounds r
    → IsValidRange r start s
    → start ≤ s.end
    → IsFieldSet r (and_not (get_bits start s.end s.step) s.dropped)
kept-IsFieldSet r start s b v h =
    let set = get_bits start s.end s.step in
    let f = get_bits-IsFieldSet r start s.end s.step b v.inside v.positive h in
    let lt = dropped_lt r start s v in
    let inside = v.inside.start_in in
    let small = b.small in
    let fits : start < 64 = omega (arith, inside) in
    record {
      within = λ w p e.
          f.within w p (kept w (sym (test_bit-and_not w set s.dropped (omega arith) lt) ∙ e));
      has = (
        start,
        inside.0,
        inside.1,
        test_bit-and_not start set s.dropped fits lt
            ∙ rw (get_bits-start start s.end s.step v.positive h fits, start_kept r start s b v)
                refl,
      );
    }
  where
    kept :
        (w : ℕ)
        → (test_bit w (get_bits start s.end s.step) && not (test_bit w s.dropped)) ≡ true
        → test_bit w (get_bits start s.end s.step) ≡ true
    kept w e = ground (arith, e)

pub range_bits-IsFieldSet :
    (r : Bounds) (start : ℕ) (s : Steps)
    → IsBounds r
    → IsValidRange r start s
    → IsFieldSet r (range_bits start s r)
unfolding range_bits
range_bits-IsFieldSet r start s b v = elim (Bool-cases (ltb s.end start && r.wraparound)) [
  | inl t ↦ rw t (
      extra-IsFieldSet r (get_wraparound_bits start s.end s.step r) s.extra v.extra
        (get_wraparound_bits-IsFieldSet r start s.end s.step b v.inside v.positive))
  | inr t ↦
      let order = v.order in
      rw t (
        extra-IsFieldSet r (and_not (get_bits start s.end s.step) s.dropped) s.extra v.extra
          (kept-IsFieldSet r start s b v (ground (arith, order, t))))
]

abbrev pub Ordered : Bounds → ℕ → ℕ → Type 0
Ordered r start end = (start ≤ end) ⊎ (r.wraparound ≡ true)

pub validate_range_bounds-ok :
    (start end : ℕ) (r : Bounds) (u : Unit {0})
    → validate_range_bounds start end r ≡ ok u
    → InBounds r start end × Ordered r start end
unfolding validate_range_bounds
validate_range_bounds-ok start end r u e =
    let a = refuse-ok (ltb start r.min) below_minimum _ u e in
    let b = refuse-ok (ltb r.max start) above_maximum _ u a.1 in
    let c = refuse-ok (ltb end r.min) below_minimum _ u b.1 in
    let d = refuse-ok (ltb r.max end) above_maximum _ u c.1 in
    let last : (ltb end start && not r.wraparound) ≡ false = ground (arith, d.1) in
    (
      record {
        start_in = (ground (arith, a.0), ground (arith, b.0));
        end_in = (ground (arith, c.0), ground (arith, d.0));
      },
      ground (arith, last),
    )

validate_range_params-ok :
    (start end step : ℕ) (r : Bounds) (u : Unit {0})
    → validate_range_params start end step r ≡ ok u
    → InBounds r start end × Ordered r start end × (1 ≤ step)
unfolding validate_range_params
validate_range_params-ok start end step r u e =
    let (v, valid, rest) = >>=-ok (validate_range_bounds start end r) _ u e in
    let positive = refuse-ok (step == 0) zero_step _ u rest in
    let i = validate_range_bounds-ok start end r v valid in (i.0, i.1, ground (arith, positive.0))

-- What the parts of an item give before they are validated.
abbrev ExtraStar : ℕ → Type 0
ExtraStar extra = (extra ≡ 0) ⊎ (extra ≡ star_bit)

parse_range_bounds-extra :
    (parts : List Text) (r : Bounds) (b : Ends)
    → parse_range_bounds parts r ≡ ok b
    → ExtraStar b.extra
unfolding parse_range_bounds two_ends
parse_range_bounds-extra [] r b e = cc
parse_range_bounds-extra (low ∷ []) r b e = elim (Bool-cases (is_star low)) [
  | inl t ↦ ground (arith, rw t at e)
  | inr t ↦ ground (arith, rw t at e)
]
parse_range_bounds-extra (low ∷ high ∷ rest) r b e = elim (Bool-cases (is_star low)) [
  | inl t ↦ ground (arith, rw t at e)
  | inr t ↦ ground (arith, rw t at e)
]

range_step-fields :
    (steps : List Text) (one : Bool) (b : Ends) (r : Bounds) (s : Steps)
    → ExtraStar b.extra
    → range_step steps one b r ≡ ok s
    → ExtraStar s.extra
      × ((s.dropped ≡ 0)
          ⊎ ((s.dropped ≡ get_bits (r.step_end + 1) r.max 1) × (b.start ≤ r.step_end)))
unfolding range_step stepped
range_step-fields [] one b r s x e = ground (arith, e, x)
range_step-fields (step ∷ []) one b r s x e = ground (arith, e, x)
range_step-fields (step ∷ more ∷ rest) one b r s x e = cc

range_of-IsFieldSet :
    (parts steps : List Text) (r : Bounds) (bits : ℕ)
    → IsBounds r
    → range_of parts steps r ≡ ok bits
    → IsFieldSet r bits
unfolding range_of
range_of-IsFieldSet parts steps r bits w e =
    let (b, bounds, e1) = >>=-ok (parse_range_bounds parts r) _ bits e in
    let (s, step, e2) = >>=-ok (range_step steps (single parts) b r) _ bits e1 in
    let (u, valid, e3) = >>=-ok (validate_range_params b.start s.end s.step r) _ bits e2 in
    let f =
      range_step-fields steps (single parts) b r s (parse_range_bounds-extra parts r b bounds)
        step in
    let v = validate_range_params-ok b.start s.end s.step r u valid in
    let set =
      range_bits-IsFieldSet r b.start s w
        (record { inside = v.0; positive = v.2; order = v.1; extra = f.0; dropped = f.1 }) in
    subst (IsFieldSet r) (ok_inj _ bits e3) set

range_parts-IsFieldSet :
    (parts : List Text) (r : Bounds) (bits : ℕ)
    → IsBounds r
    → range_parts parts r ≡ ok bits
    → IsFieldSet r bits
unfolding range_parts
range_parts-IsFieldSet [] r bits w e = cc
range_parts-IsFieldSet (range ∷ steps) r bits w e = range_of-IsFieldSet _ steps r bits w e

pub get_range-IsFieldSet :
    (expr : Text) (r : Bounds) (bits : ℕ)
    → IsBounds r
    → get_range expr r ≡ ok bits
    → IsFieldSet r bits
unfolding get_range
get_range-IsFieldSet expr r bits w e = range_parts-IsFieldSet _ r bits w e
