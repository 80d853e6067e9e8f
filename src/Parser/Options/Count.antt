-- ===== src/Parser/Options/Count.antt =====
-- The number of fields that a spec may have.
use go_cron.Prelude.{
  ℕ, suc, ◌+◌, ◌-◌, ◌≤◌, ◌≡◌, refl, ap, Bool, true, false, not, ◌&&◌, ◌||◌, ltb, ◌==◌, Bool-cases,
  if◌then◌else◌, ◌⊎◌, inl, inr, List, [], ◌∷◌, ◌++◌, length, arith,
}
use go_cron.Parser.Result.{Result, ok, err, ◌>>=◌, ◌>>◌, refuse, many_optionals, wrong_field_count}
use go_cron.Parser.Text.{Text}
use go_cron.Parser.Options.{
  ParseOptions, count, places, process_optional_flags, count_configured_fields, expand,
  add_optional, zero_text, star_text, is_between, normalize_fields,
}

-- The places that take a field.
needed : List (Bool × Text) → ℕ
needed [] = 0
needed ((b, value) ∷ rest) = count b + needed rest

abbrev Filled : List (Bool × Text) → List Text → Type 0
Filled ps fields = (l : List Text) × (expand ps fields ≡ ok l) × (length l ≡ length ps)

expand-Filled :
    (ps : List (Bool × Text)) (fields : List Text) → needed ps ≤ length fields → Filled ps fields
unfolding expand needed
expand-Filled [] fields h = ([], refl, refl)
expand-Filled ((false, value) ∷ rest) fields h =
    let (l, e, n) = expand-Filled rest fields (omega (arith, h)) in (value ∷ l, rw e refl, ap suc n)
expand-Filled ((true, value) ∷ rest) [] h = ground arith
expand-Filled ((true, value) ∷ rest) (field ∷ fields) h =
    let (l, e, n) = expand-Filled rest fields (omega (arith, h)) in (field ∷ l, rw e refl, ap suc n)

needed-places : (o : ParseOptions) → count_configured_fields o ≡ needed (places o)
unfolding needed count_configured_fields
needed-places o = omega arith

length-snoc : (fields : List Text) (t : Text) → length (fields ++ (t ∷ [])) ≡ length fields + 1
length-snoc [] t = refl
length-snoc (f ∷ fields) t = omega (arith, length-snoc fields t)

add_optional-length :
    (o : ParseOptions) (fields : List Text)
    → (o.dow_optional || o.second_optional) ≡ true
    → (l : List Text) × (add_optional o fields ≡ ok l) × (length l ≡ length fields + 1)
unfolding add_optional
add_optional-length o fields h = elim (Bool-cases o.dow_optional) [
  | inl t ↦ (fields ++ (star_text ∷ []), rw t refl, length-snoc fields star_text)
  | inr t ↦
      let second : o.second_optional ≡ true = ground (arith, h, t) in
      (zero_text ∷ fields, rw (t, second) refl, omega arith)
]

-- The fields with an optional one added where it is missing.
filled : ParseOptions → ℕ → List Text → Result (List Text)
filled o optionals fields =
    let most = count_configured_fields o in
    if ltb (most - optionals) most && (length fields == most - optionals)
    then add_optional o fields
    else ok fields

filled-length :
    (o : ParseOptions) (optionals : ℕ) (fields : List Text)
    → optionals ≤ 1
    → (1 ≤ optionals → (o.dow_optional || o.second_optional) ≡ true)
    → is_between (count_configured_fields o - optionals) (count_configured_fields o) (length fields)
      ≡ true
    → (l : List Text) × (filled o optionals fields ≡ ok l) × (count_configured_fields o ≤ length l)
unfolding filled
filled-length o optionals fields le some h =
    let most = count_configured_fields o in
    elim (Bool-cases (ltb (most - optionals) most && (length fields == most - optionals))) [
      | inl t ↦
          let (l, e, n) = add_optional-length o fields (some (ground (arith, t))) in
          (l, rw t e, ground (arith, n, t, le))
      | inr t ↦ (fields, rw t refl, ground (arith, t, h))
    ]

-- The most fields and the fewest that a spec has.
abbrev pub most_fields : ParseOptions → ℕ
most_fields o =
    count (o.second || o.second_optional)
    + count o.minute
    + count o.hour
    + count o.dom
    + count o.month
    + count (o.dow || o.dow_optional)

abbrev pub fewest_fields : ParseOptions → ℕ
fewest_fields o = most_fields o - (count o.second_optional + count o.dow_optional)

abbrev pub accepts : ParseOptions → List Text → Bool
accepts o fields = is_between (fewest_fields o) (most_fields o) (length fields)

-- The six fields of a schedule, or what is wrong with the number of fields.
abbrev pub Normalized : ParseOptions → List Text → Result (List Text) → Type 0
Normalized o fields r =
    ((r ≡ err many_optionals) × ((o.second_optional && o.dow_optional) ≡ true))
    ⊎ ((o.second_optional && o.dow_optional) ≡ false)
      × (((r ≡ err wrong_field_count) × (accepts o fields ≡ false))
          ⊎ ((accepts o fields ≡ true) × ((l : List Text) × (r ≡ ok l) × (length l ≡ 6))))

-- What follows in `normalize_fields` once the optional fields are switched on.
checked : ParseOptions → ℕ → List Text → Result (List Text)
checked o optionals fields =
    let most = count_configured_fields o in
    do
      refuse (not (is_between (most - optionals) most (length fields))) wrong_field_count
      all ← filled o optionals fields
      expand (places o) all

six : (o : ParseOptions) → length (places o) ≡ 6
six o = refl

checked-Normalized :
    (o : ParseOptions) (optionals : ℕ) (fields : List Text)
    → optionals ≤ 1
    → (1 ≤ optionals → (o.dow_optional || o.second_optional) ≡ true)
    → (accepted : Bool)
    → is_between (count_configured_fields o - optionals) (count_configured_fields o) (length fields)
      ≡ accepted
    → ((checked o optionals fields ≡ err wrong_field_count) × (accepted ≡ false))
      ⊎ ((accepted ≡ true)
          × ((l : List Text) × (checked o optionals fields ≡ ok l) × (length l ≡ 6)))
unfolding checked
checked-Normalized o optionals fields le some false h = inl (rw h refl, refl)
checked-Normalized o optionals fields le some true h =
    let (all, e, n) = filled-length o optionals fields le some h in
    let (l, f, m) = expand-Filled (places o) all (omega (arith, n, needed-places o)) in
    inr (refl, (l, rw (h, e) f, m))

-- Whatever the fields and the options, normalizeFields returns six fields, unless both optional fields are configured or the number of fields is not one that the options allow; it never reads past the end of the fields.
pub normalize_fields-Normalized :
    (fields : List Text) (o : ParseOptions) → Normalized o fields (normalize_fields fields o)
unfolding normalize_fields process_optional_flags count_configured_fields checked filled
normalize_fields-Normalized fields o = elim (Bool-cases (o.second_optional && o.dow_optional)) [
  | inl t ↦ inl (rw t refl, t)
  | inr t ↦
      let all = record o {
        second = o.second || o.second_optional;
        dow = o.dow || o.dow_optional;
      } in
      let optionals = count o.second_optional + count o.dow_optional in
      let r =
        checked-Normalized all optionals fields (ground (arith, t)) (λ h. ground (arith, h, t))
          (accepts o fields) refl in
      inr (t, rw t r)
]
