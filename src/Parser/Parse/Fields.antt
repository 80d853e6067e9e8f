-- ===== src/Parser/Parse/Fields.antt =====
-- Each field that `parse` reads is a set of that field's values.
use go_cron.Prelude.{
  ℕ, ◌≤◌, ◌<◌, ◌≡◌, refl, sym, ap, ◌∙◌, Bool, ◌&&◌, ◌||◌, ◌==◌, ==_iff, Bool-cases, inl, inr, List,
  [], ◌∷◌, arith,
}
use mathlib.Core.Path.{subst}
use go_cron.Spec.{DomConstraint, DowConstraint, normalize_dow}
use go_cron.Spec.Sunday.{normalize_dow-test_bit}
use go_cron.Word.Laws.{test_bit}
use go_cron.Parser.{Bounds}
use go_cron.Parser.Result.{ok, >>=-ok, ok_inj}
use go_cron.Parser.Text.{Text, contains_byte, has_prefix}
use go_cron.Parser.Bits.Within.{
  IsBounds, Within, Has, IsFieldSet, IsFieldSet-wider, Within-or, Within-zero, Within-star, Has-or,
}
use go_cron.Parser.Field.{Hashing, get_field_with_hash}
use go_cron.Parser.Field.Within.{get_field_with_hash-IsFieldSet}
use go_cron.Parser.Days.{
  Days, normalized, plain, get_dow_field_with_constraints, parse_dow_field, parse_dom_field,
}
use go_cron.Parser.Days.Within.{
  IsDays, plain-IsDays, get_dow_field_with_constraints-IsDays, parse_dom_field-IsDays,
}
use go_cron.Parser.Parse.{
  Parser, with_star, cyclic, hashing, dom, dow, field_bounds, dow_bounds, field, field_at,
  wildcard_bit, step_wildcard_bit,
}

-- The days of the week from Sunday to Saturday.
abbrev pub weekdays : Bounds
weekdays = record dow { max = 6 }

pub field-IsFieldSet :
    (p : Parser) (fields : List Text) (i : ℕ) (r : Bounds) (bits : ℕ)
    → IsBounds r
    → field p fields i r ≡ ok bits
    → IsFieldSet r bits
unfolding field field_bounds
field-IsFieldSet p fields i r bits b e =
    let (f, at, e1) = >>=-ok (field_at fields i) _ bits e in
    let wide : IsBounds (field_bounds p r) = record { ordered = b.ordered; small = b.small } in
    IsFieldSet-wider r (field_bounds p r) bits refl (omega arith)
      (get_field_with_hash-IsFieldSet (hashing p) (field_bounds p r) f bits wide e1)

Within-normalize_dow : (bits : ℕ) → Within 0 7 bits → Within 0 6 (normalize_dow bits)
Within-normalize_dow bits w v h e =
    let t = sym (normalize_dow-test_bit v bits (omega arith)) ∙ e in
    (
      omega arith,
      elim (Bool-cases (test_bit v bits)) [
        | inl u ↦ let (lo, hi) = w v h u in ground (arith, t, hi)
        | inr u ↦ ground (arith, t, u)
      ],
    )

Has-normalize_dow : (bits : ℕ) → Has 0 7 bits → Has 0 6 (normalize_dow bits)
Has-normalize_dow bits (v, lo, hi, e) = elim (Bool-cases (v == 7)) [
  | inl s ↦
      let set = sym (ap (λ (n : ℕ). test_bit n bits) ((==_iff v 7).0 s)) ∙ e in
      (
        0,
        omega arith,
        omega arith,
        normalize_dow-test_bit 0 bits (omega arith) ∙ ground (arith, set),
      )
  | inr s ↦ (
    v,
    lo,
    ground (arith, s, hi),
    normalize_dow-test_bit v bits (omega (arith, hi)) ∙ ground (arith, s, e),
  )
]

normalized-IsDays :
    (r : Bounds) (d : Days DowConstraint)
    → r.min ≡ 0
    → r.max ≡ 7
    → IsDays r d
    → IsDays weekdays (normalized d)
normalized-IsDays r d lo hi i = record {
  within =
      Within-normalize_dow d.bits
        (λ v h e. let w = i.within v h e in (omega arith, omega (arith, hi, w)));
  has = elim i.has [
    | inl (v, p, q, e) ↦ inl (Has-normalize_dow d.bits (v, omega arith, omega (arith, q, hi), e))
    | inr c ↦ inr c
  ];
}

pub dow_bounds-range :
    (p : Parser) → IsBounds (dow_bounds p) × ((dow_bounds p).min ≡ 0) × ((dow_bounds p).max ≡ 7)
unfolding dow_bounds field_bounds
dow_bounds-range p = elim (Bool-cases p.options.dow_step_to_saturday) [
  | inl t ↦ rw t (record { ordered = omega arith; small = omega arith }, refl, refl)
  | inr t ↦ rw t (record { ordered = omega arith; small = omega arith }, refl, refl)
]

pub parse_dow_field-IsDays :
    (h : Hashing) (r : Bounds) (n l : Bool) (field : Text) (d : Days DowConstraint)
    → IsBounds r
    → r.min ≡ 0
    → r.max ≡ 7
    → parse_dow_field h r n l field ≡ ok d
    → IsDays weekdays d
unfolding parse_dow_field
parse_dow_field-IsDays h r n l field d b lo hi e =
    let special = contains_byte b'#' field in
    elim (Bool-cases ((n || l) && special)) [
      | inl t ↦
          let (w, set, e1) =
            >>=-ok (get_dow_field_with_constraints h r n l field) _ d (rw t at e) in
          subst (IsDays weekdays) (ok_inj _ d e1) (
            normalized-IsDays r w lo hi
              (get_dow_field_with_constraints-IsDays h r n l field w b set))
      | inr t ↦ elim (Bool-cases special) [
        | inl u ↦ ground (arith, rw (t, u) at e)
        | inr u ↦
            let (bits, set, e1) = >>=-ok (get_field_with_hash h r field) _ d (rw (t, u) at e) in
            subst (IsDays weekdays) (ok_inj _ d e1) (
              normalized-IsDays r (plain bits) lo hi
                (plain-IsDays r bits (get_field_with_hash-IsFieldSet h r field bits b set)))
      ]
    ]

Within-step_wildcard_bit :
    (p : Parser) (f : Text) → (lo hi : ℕ) → Within lo hi (step_wildcard_bit p.options f)
unfolding step_wildcard_bit wildcard_bit
Within-step_wildcard_bit p f lo hi =
    elim (Bool-cases (p.options.step_wildcard && p.options.dow_or_dom)) [
      | inl t ↦ elim (Bool-cases (has_prefix f (b'*' ∷ []) || has_prefix f (b'?' ∷ []))) [
        | inl u ↦ rw (t, u) (Within-star lo hi)
        | inr u ↦ rw (t, u) (Within-zero lo hi)
      ]
      | inr t ↦ rw t (Within-zero lo hi)
    ]

pub with_star-IsDays :
    {C : Type 0} (r : Bounds) (d : Days C) (p : Parser) (f : Text)
    → IsDays r d
    → IsDays r (with_star p.options f d)
with_star-IsDays r d p f i =
    let star = step_wildcard_bit p.options f in
    record {
      within =
          Within-or r.min r.max d.bits star i.within (Within-step_wildcard_bit p f r.min r.max);
      has = elim i.has [ inl x ↦ inl (Has-or r.min r.max d.bits star x) | inr c ↦ inr c ];
    }

pub cyclic-IsBounds :
    (low high : ℕ) (names : List (Text × ℕ))
    → low ≤ high
    → high < 63
    → IsBounds (cyclic low high names)
cyclic-IsBounds low high names h k = record { ordered = h; small = k }

pub parse_dom_field-dom :
    (p : Parser) (d : Days DomConstraint) (f : Text)
    → parse_dom_field (hashing p) (field_bounds p dom) p.options.dom_l p.options.dom_w f ≡ ok d
    → IsDays dom d
unfolding field_bounds
parse_dom_field-dom p d f e =
    let i =
      parse_dom_field-IsDays (hashing p) (field_bounds p dom) p.options.dom_l p.options.dom_w f d
        (record { ordered = omega arith; small = omega arith }) e in
    record { within = i.within; has = i.has }
