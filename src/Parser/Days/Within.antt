-- ===== src/Parser/Days/Within.antt =====
-- The day fields set days of the field alone, and at least one unless there is a constraint.
use go_cron.Prelude.{
  ℕ, ◌≤◌, ◌≡◌, sym, Bool, not, ◌&&◌, ◌||◌, Bool-cases, ◌⊎◌, inl, inr, List, [], ◌∷◌, length,
  length-append, Option, none, some, arith,
}
use mathlib.Core.Path.{subst}
use go_cron.Spec.{DomConstraint, DowConstraint}
use go_cron.Parser.{Bounds}
use go_cron.Parser.Result.{Result, ok, ◌>>=◌, >>=-ok, refuse-ok, ok_inj, option_required}
use go_cron.Parser.Text.{Text, cut, to_upper, has_prefix, ends_with, contains_byte}
use go_cron.Parser.Bits.Within.{
  IsBounds, Within, Has, IsFieldSet, Within-or, Has-or_right, Within-zero,
}
use go_cron.Parser.Field.{Hashing, split_list, some_items, get_range_with_hash, get_field_with_hash}
use go_cron.Parser.Field.Within.{get_range_with_hash-IsFieldSet, get_field_with_hash-IsFieldSet}
use go_cron.Parser.Days.{
  Days, add_bits, add_constraint, no_days, plain, items_from, dow_part, dow_item, dom_item,
  parse_dow_constraint, parse_dom_l_constraint, parse_dom_w_constraint,
  get_dow_field_with_constraints, get_dom_field_with_constraints, parse_dom_field,
}

module _ {C : Type 0} where
  pub record IsDays (r : Bounds) (d : Days C) : Type 0 where
    pub within : Within r.min r.max d.bits
    pub has : Has r.min r.max d.bits ⊎ (1 ≤ length d.constraints)

  add_bits-IsDays :
      (r : Bounds) (d : Days C) (b : ℕ)
      → Within r.min r.max d.bits
      → IsFieldSet r b
      → IsDays r (add_bits d b)
  add_bits-IsDays r d b w f = record {
    within = Within-or r.min r.max d.bits b w f.within;
    has = inl (Has-or_right r.min r.max d.bits b f.has);
  }

  add_constraint-IsDays :
      (r : Bounds) (d : Days C) (c : C) → Within r.min r.max d.bits → IsDays r (add_constraint d c)
  add_constraint-IsDays r d c w = record {
    within = w;
    has = inr (omega (arith, length-append d.constraints (c ∷ [])));
  }

  pub plain-IsDays : (r : Bounds) (b : ℕ) → IsFieldSet r b → IsDays r (plain {C = C} b)
  plain-IsDays r b f = record { within = f.within; has = inl f.has }

  -- Every item adds to the days.
  abbrev Adds : Bounds → (Text → Days C → Result (Days C)) → Type 0
  Adds r item =
      (expr : Text) (d d' : Days C) → Within r.min r.max d.bits → item expr d ≡ ok d' → IsDays r d'

  items_from-IsDays :
      (r : Bounds) (item : Text → Days C → Result (Days C)) (l : List Text) (d all : Days C)
      → Adds r item
      → IsDays r d
      → items_from item l d ≡ ok all
      → IsDays r all
  unfolding items_from
  items_from-IsDays r item [] d all f w e = subst (IsDays r) (ok_inj _ all e) w
  items_from-IsDays r item (expr ∷ rest) d all f w e =
      let (d', one, e1) = >>=-ok (item expr d) _ all e in
      items_from-IsDays r item rest d' all f (f expr d d' w.within one) e1

  some_items_from-IsDays :
      (r : Bounds) (item : Text → Days C → Result (Days C)) (l items : List Text) (all : Days C)
      → Adds r item
      → some_items l ≡ ok items
      → items_from item items no_days ≡ ok all
      → IsDays r all
  unfolding items_from
  some_items_from-IsDays r item [] items all f s e = cc
  some_items_from-IsDays r item (expr ∷ rest) items all f s e =
      let e' =
        subst (λ (l : List Text). items_from item l no_days ≡ ok all)
          (sym (ok_inj (expr ∷ rest) items s)) e in
      let (d, one, e1) = >>=-ok (item expr no_days) _ all e' in
      items_from-IsDays r item rest d all f (f expr no_days d (Within-zero r.min r.max) one) e1

dow_part-IsDays :
    (h : Hashing) (r : Bounds) (n l : Bool) (m : Option (Text × Text)) (expr : Text)
    (d d' : Days DowConstraint)
    → IsBounds r
    → Within r.min r.max d.bits
    → dow_part h r n l expr d m ≡ ok d'
    → IsDays r d'
unfolding dow_part
dow_part-IsDays h r n l none expr d d' b w e =
    let (bits, set, e1) = >>=-ok (get_range_with_hash h r expr) _ d' e in
    subst (IsDays r) (ok_inj _ d' e1)
      (add_bits-IsDays r d bits w (get_range_with_hash-IsFieldSet h r expr bits b set))
dow_part-IsDays h r n l (some (weekday, nth)) expr d d' b w e =
    let (c, read, e1) = >>=-ok (parse_dow_constraint weekday nth r n l) _ d' e in
    subst (IsDays r) (ok_inj _ d' e1) (add_constraint-IsDays r d c w)

pub get_dow_field_with_constraints-IsDays :
    (h : Hashing) (r : Bounds) (n l : Bool) (field : Text) (d : Days DowConstraint)
    → IsBounds r
    → get_dow_field_with_constraints h r n l field ≡ ok d
    → IsDays r d
unfolding get_dow_field_with_constraints split_list dow_item
get_dow_field_with_constraints-IsDays h r n l field d b e =
    let (items, split, e1) = >>=-ok (split_list field) _ d e in
    some_items_from-IsDays r (dow_item h r n l) _ items d
      (λ expr before after w x. dow_part-IsDays h r n l (cut b'#' expr) expr before after b w x)
      split e1

add_read-IsDays :
    (r : Bounds) (m : Result DomConstraint) (d d' : Days DomConstraint)
    → Within r.min r.max d.bits
    → (m >>= λ c. ok (add_constraint d c)) ≡ ok d'
    → IsDays r d'
add_read-IsDays r m d d' w e =
    let (c, read, e1) = >>=-ok m _ d' e in
    subst (IsDays r) (ok_inj _ d' e1) (add_constraint-IsDays r d c w)

dom_item-IsDays :
    (h : Hashing) (r : Bounds) (l w : Bool) (expr : Text) (d d' : Days DomConstraint)
    → IsBounds r
    → Within r.min r.max d.bits
    → dom_item h r l w expr d ≡ ok d'
    → IsDays r d'
unfolding dom_item
dom_item-IsDays h r l w expr d d' b inside e =
    let upper = to_upper expr in
    elim (Bool-cases (has_prefix upper (b'L' ∷ []))) [
      | inl t ↦
          let (u, e1) = refuse-ok (not l && not w) option_required _ d' (rw t at e) in
          add_read-IsDays r (parse_dom_l_constraint expr upper l w) d d' inside e1
      | inr t ↦ elim (Bool-cases (w && ends_with b'W' upper)) [
        | inl u ↦ add_read-IsDays r (parse_dom_w_constraint upper) d d' inside (rw (t, u) at e)
        | inr u ↦ elim (Bool-cases (contains_byte b'W' upper)) [
          | inl v ↦ ground (arith, rw (t, u, v) at e)
          | inr v ↦
              let (bits, set, e1) =
                >>=-ok (get_range_with_hash h r expr) _ d' (rw (t, u, v) at e) in
              subst (IsDays r) (ok_inj _ d' e1) (
                add_bits-IsDays r d bits inside
                  (get_range_with_hash-IsFieldSet h r expr bits b set))
        ]
      ]
    ]

get_dom_field_with_constraints-IsDays :
    (h : Hashing) (r : Bounds) (l w : Bool) (field : Text) (d : Days DomConstraint)
    → IsBounds r
    → get_dom_field_with_constraints h r l w field ≡ ok d
    → IsDays r d
unfolding get_dom_field_with_constraints split_list
get_dom_field_with_constraints-IsDays h r l w field d b e =
    let (items, split, e1) = >>=-ok (split_list field) _ d e in
    some_items_from-IsDays r (dom_item h r l w) _ items d
      (λ expr before after inside x. dom_item-IsDays h r l w expr before after b inside x) split e1

pub parse_dom_field-IsDays :
    (h : Hashing) (r : Bounds) (l w : Bool) (field : Text) (d : Days DomConstraint)
    → IsBounds r
    → parse_dom_field h r l w field ≡ ok d
    → IsDays r d
unfolding parse_dom_field
parse_dom_field-IsDays h r l w field d b e =
    let upper = to_upper field in
    let special = contains_byte b'L' upper || contains_byte b'W' upper in
    elim (Bool-cases ((l || w) && special)) [
      | inl t ↦ get_dom_field_with_constraints-IsDays h r l w field d b (rw t at e)
      | inr t ↦ elim (Bool-cases special) [
        | inl u ↦ ground (arith, rw (t, u) at e)
        | inr u ↦
            let (bits, set, e1) = >>=-ok (get_field_with_hash h r field) _ d (rw (t, u) at e) in
            subst (IsDays r) (ok_inj _ d e1)
              (plain-IsDays r bits (get_field_with_hash-IsFieldSet h r field bits b set))
      ]
    ]
