-- ===== src/Parser/Result.antt =====
-- parser.go: the errors that a spec can have, and results. The texts of the errors are left out.
use go_cron.Prelude.{◌≡◌, refl, Bool, true, false}

pub data ParseError : Type 0 where
  no_values not_a_number negative_number too_many_hyphens too_many_slashes : ParseError
  starred_range below_minimum above_maximum end_before_start zero_step step_too_large : ParseError
  hash_disabled hash_key_required bad_hash : ParseError
  missing_weekday missing_occurrence bad_weekday bad_occurrence : ParseError
  option_required bad_offset bad_day : ParseError
  too_many_years year_out_of_range : ParseError
  empty_spec spec_too_long bad_timezone missing_fields descriptors_disabled unknown_descriptor :
      ParseError
  bad_duration duration_too_short : ParseError
  many_optionals wrong_field_count unknown_optional no_year day_never_occurs no_fields
        index_out_of_range :
      ParseError

pub data Result {ℓ} (A : Type ℓ) : Type ℓ where
  ok : A → Result A
  err : ParseError → Result A

-- An error where the test holds.
abbrev pub refuse : Bool → ParseError → Result (Unit {0})
refuse true e = err e
refuse false e = ok tt

infixl 5 ◌>>=◌
abbrev pub ◌>>=◌ {κ ℓ} : {A : Type κ} {B : Type ℓ} → Result A → (A → Result B) → Result B
err e >>= next = err e
ok a >>= next = next a

infixl 5 ◌>>◌
abbrev pub ◌>>◌ {ℓ} : {B : Type ℓ} → Result (Unit {0}) → Result B → Result B
check >> rest = check >>= λ u. rest

-- A chain that succeeds has a first step that does.
pub >>=-ok {ℓ κ} :
    {A : Type ℓ} {B : Type κ} (m : Result A) (f : A → Result B) (b : B)
    → (m >>= f) ≡ ok b
    → (a : A) × (m ≡ ok a) × (f a ≡ ok b)
>>=-ok (ok a) f b h = (a, refl, h)
>>=-ok (err e) f b h = cc

pub refuse-ok {ℓ} :
    {B : Type ℓ} (t : Bool) (e : ParseError) (m : Result B) (b : B)
    → (refuse t e >> m) ≡ ok b
    → (t ≡ false) × (m ≡ ok b)
refuse-ok true e m b h = cc
refuse-ok false e m b h = (refl, h)

pub ok_inj {ℓ} : {A : Type ℓ} (a b : A) → ok a ≡ ok b → a ≡ b
ok_inj a b h = cc
