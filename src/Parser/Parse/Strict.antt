-- ===== src/Parser/Parse/Strict.antt =====
-- The option StrictDays: `day_never_matches` against the days on which a schedule runs.
use Prim.Native.Nat.{bit_and}
use go_cron.Prelude.{
  ℕ, zero, suc, ◌+◌, ◌/◌, ◌≤◌, ◌≡◌, refl, ap, ◌∙◌, Bool, true, false, not, ◌&&◌, ◌==◌, ==_iff,
  if◌then◌else◌, Bool-cases, inl, inr, List, [], ◌∷◌, arith,
}
use go_cron.Word.{shl}
use go_cron.Word.Laws.{and_comm}
use go_cron.Time.Calendar.{is_leap, days_before_month}
use go_cron.Time.Calendar.Laws.{civil-IsDateOf}
use go_cron.Time.Wall
use go_cron.Time.Wall.{Time}
use go_cron.Spec.{SpecSchedule, DomConstraint, field_matches, star_bit}
use go_cron.Spec.Days.{has_any, dom_constraint_matches, starred, dom_match, day_matches}
use go_cron.Parser.Parse.{max_days_in_month, any_day, any_month, none_left, day_never_matches}

is_set : (bits n : ℕ) → not (bit_and bits (shl 1 n) == 0) ≡ field_matches n bits
unfolding field_matches
is_set bits n = ap (λ (k : ℕ). not (k == 0)) (and_comm bits (shl 1 n))

any_day-false :
    (bits n d : ℕ) → any_day bits n ≡ false → 1 ≤ d → d ≤ n → field_matches d bits ≡ false
unfolding any_day
any_day-false bits zero d e lo hi = ground arith
any_day-false bits (suc n) d e lo hi =
    let set = is_set bits (suc n) in
    elim (Bool-cases (d == suc n)) [
      | inl s ↦
          ap (λ (k : ℕ). field_matches k bits) ((==_iff d (suc n)).0 s) ∙ ground (arith, set, e)
      | inr s ↦ any_day-false bits n d (ground (arith, e)) lo (ground (arith, s, hi))
    ]

in_month-false :
    (days months m d : ℕ)
    → (field_matches m months && any_day days (max_days_in_month m)) ≡ false
    → 1 ≤ d
    → d ≤ max_days_in_month m
    → (field_matches m months && field_matches d days) ≡ false
in_month-false days months m d e lo hi = elim (Bool-cases (field_matches m months)) [
  | inl s ↦ rw s (any_day-false days (max_days_in_month m) d (ground (arith, e, s)) lo hi)
  | inr s ↦ rw s refl
]

any_month-false :
    (days months n m d : ℕ)
    → any_month days months n ≡ false
    → 1 ≤ m
    → m ≤ n
    → 1 ≤ d
    → d ≤ max_days_in_month m
    → (field_matches m months && field_matches d days) ≡ false
unfolding any_month
any_month-false days months zero m d e lo hi dlo dhi = absurd (omega arith)
any_month-false days months (suc n) m d e lo hi dlo dhi =
    let set = is_set months (suc n) in
    elim (Bool-cases (m == suc n)) [
      | inl s ↦
          let now : (field_matches (suc n) months && any_day days (max_days_in_month (suc n)))
              ≡ false =
            ground (arith, set, e) in
          let at = (==_iff m (suc n)).0 s in
          in_month-false days months m d
            (ap (λ (k : ℕ). field_matches k months && any_day days (max_days_in_month k)) at ∙ now)
            dlo dhi
      | inr s ↦
          any_month-false days months n m d (ground (arith, e)) lo (ground (arith, s, hi)) dlo dhi
    ]

-- The days of a month in any year.
month_length :
    (y m : ℕ)
    → 1 ≤ m
    → m ≤ 12
    → days_before_month y (m + 1) ≤ days_before_month y m + max_days_in_month m
unfolding days_before_month max_days_in_month
month_length y m lo hi = ground arith

month_in : (t : Time) → (1 ≤ Wall.month t) × (Wall.month t ≤ 12)
unfolding Wall.wall_date
month_in t = (civil-IsDateOf (Wall.wall t / 86400)).month_in

day_in : (t : Time) → 1 ≤ Wall.day t
unfolding Wall.wall_date
day_in t = (civil-IsDateOf (Wall.wall t / 86400)).day_in

day-max_days_in_month : (t : Time) → Wall.day t ≤ max_days_in_month (Wall.month t)
unfolding Wall.wall_date max_days_in_month
day-max_days_in_month t =
    let c = civil-IsDateOf (Wall.wall t / 86400) in
    let n = c.day_number in
    let e = c.in_month in omega (arith, n, e, month_length _ _ c.month_in.0 c.month_in.1)

-- What `day_never_matches` says of its parts.
day_never_matches-parts :
    (days months weekdays : ℕ) (constraints : List DomConstraint) (o : Bool)
    → day_never_matches days months weekdays constraints o ≡ true
    → (none_left constraints ≡ true)
      × ((o && ((bit_and days star_bit == 0) && (bit_and weekdays star_bit == 0))) ≡ false)
      × (any_month days months 12 ≡ false)
unfolding day_never_matches
day_never_matches-parts days months weekdays constraints o h = ground (arith, h)

plain_dom_match :
    (s : SpecSchedule) (t : Time)
    → none_left s.dom_constraints ≡ true
    → dom_match s t ≡ field_matches (Wall.day t) s.dom
unfolding dom_match has_any
plain_dom_match s t h =
    elim s.dom_constraints
        as (λ (l : List DomConstraint).
          none_left l ≡ true
          → (if has_any l && dom_constraint_matches l t
              then true
              else field_matches (Wall.day t) s.dom)
            ≡ field_matches (Wall.day t) s.dom) [ [] ↦ λ e. refl | c ∷ cs ↦ λ e. cc ]
      h

-- Where dayNeverMatches holds for the fields of a schedule, there is no time at which both its month and its day match, whatever the year, also with the OR of the day fields.
pub day_never_matches-day_matches :
    (s : SpecSchedule) (t : Time)
    → day_never_matches s.dom s.month s.dow s.dom_constraints s.dow_or_dom ≡ true
    → (field_matches (Wall.month t) s.month && day_matches s t) ≡ false
unfolding day_matches starred
day_never_matches-day_matches s t h =
    let (no_constraints, both, never) =
      day_never_matches-parts s.dom s.month s.dow s.dom_constraints s.dow_or_dom h in
    let day =
      any_month-false s.dom s.month 12 (Wall.month t) (Wall.day t) never (month_in t).0
        (month_in t).1 (day_in t) (day-max_days_in_month t) in
    let plain = plain_dom_match s t no_constraints in rw plain (ground (arith, both, day))

-- A day of a leap year in a month that the field has, and which the day field has.
abbrev pub Day : ℕ → ℕ → Type 0
Day days months =
    (m : ℕ) × (d : ℕ) × (1 ≤ m)
    × (m ≤ 12)
    × (1 ≤ d)
    × (days_before_month 2000 m + d ≤ days_before_month 2000 (m + 1))
    × (field_matches m months ≡ true)
    × (field_matches d days ≡ true)

any_day-true :
    (bits n : ℕ)
    → any_day bits n ≡ true
    → (d : ℕ) × (1 ≤ d) × (d ≤ n) × (field_matches d bits ≡ true)
unfolding any_day
any_day-true bits zero e = cc
any_day-true bits (suc n) e =
    let set = is_set bits (suc n) in
    elim (Bool-cases (field_matches (suc n) bits)) [
      | inl s ↦ (suc n, omega arith, omega arith, s)
      | inr s ↦
          let (d, lo, hi, t) = any_day-true bits n (ground (arith, e, set, s)) in
          (d, lo, omega arith, t)
    ]

leap_month :
    (m : ℕ)
    → 1 ≤ m
    → m ≤ 12
    → days_before_month 2000 m + max_days_in_month m ≤ days_before_month 2000 (m + 1)
unfolding days_before_month max_days_in_month is_leap
leap_month m lo hi = ground arith

any_month-true : (days months n : ℕ) → n ≤ 12 → any_month days months n ≡ true → Day days months
unfolding any_month
any_month-true days months zero h e = cc
any_month-true days months (suc n) h e =
    let set = is_set months (suc n) in
    elim (Bool-cases (field_matches (suc n) months && any_day days (max_days_in_month (suc n)))) [
      | inl s ↦
          let (d, lo, hi, t) = any_day-true days (max_days_in_month (suc n)) (ground (arith, s)) in
          let fits = leap_month (suc n) (omega arith) h in
          (suc n, d, omega arith, h, lo, omega (arith, fits, hi), ground (arith, s), t)
      | inr s ↦ any_month-true days months n (omega arith) (ground (arith, e, set, s))
    ]

-- Where dayNeverMatches does not hold for fields without day constraints, and day-of-week cannot stand in for the day of the month, some day of a leap year is in both the month field and the day field.
pub day_never_matches-Day :
    (days months weekdays : ℕ) (o : Bool)
    → (o && ((bit_and days star_bit == 0) && (bit_and weekdays star_bit == 0))) ≡ false
    → day_never_matches days months weekdays [] o ≡ false
    → Day days months
unfolding day_never_matches
day_never_matches-Day days months weekdays o h e =
    any_month-true days months 12 (omega arith) (ground (arith, h, e))
