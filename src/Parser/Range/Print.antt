-- ===== src/Parser/Range/Print.antt =====
-- Items of a field written out, and what `getRange` makes of them.
use go_cron.Prelude.{
  ℕ, ◌^◌, ◌<◌, ◌≡◌, refl, sym, ap, ◌∙◌, Bool, true, false, not, ◌&&◌, ◌==◌, ==_iff, Bool-cases, inl,
  inr, List, [], ◌∷◌, ◌++◌, Option, none, some, arith,
}
use go_cron.Parser.Result.{ok}
use go_cron.Parser.Text.{Text, same, split, is_digit, contains_byte}
use go_cron.Parser.Text.Lists.{split-one, split-append, contains_byte-append}
use go_cron.Parser.Text.Digits.{
  all_digits, itoa, itoa-IsNumber, atoi-IsNumber, contains_byte-all_digits, to_lower-all_digits,
}
use go_cron.Parser.Range.{is_star, named, must_parse_int, parse_int_or_name}

pub data Base : Type 0 where
  star : Base
  value : ℕ → Base
  span : ℕ → ℕ → Base

pub record Item : Type 0 where
  pub base : Base
  pub step : Option ℕ

unfoldable pub print_base : Base → Text
print_base star = b'*' ∷ []
print_base (value n) = itoa n
print_base (span a b) = itoa a ++ (b'-' ∷ itoa b)

unfoldable pub print_item : Base → Option ℕ → Text
print_item base none = print_base base
print_item base (some step) = print_base base ++ (b'/' ∷ itoa step)

-- No name of a field starts with a digit.
abbrev pub are_words : List (Text × ℕ) → Bool
are_words [] = true
are_words (([], v) ∷ rest) = false
are_words ((c ∷ k, v) ∷ rest) = not (is_digit c) && are_words rest

same-all_digits :
    (c : ℕ) (k s : Text) → is_digit c ≡ false → all_digits s ≡ true → same (c ∷ k) s ≡ false
same-all_digits c k [] h e = refl
same-all_digits c k (d ∷ s) h e = elim (Bool-cases (c == d)) [
  | inl t ↦
      let digit : is_digit d ≡ true = ground (arith, e) in
      cc (sym h ∙ ap is_digit ((==_iff c d).0 t) ∙ digit)
  | inr t ↦ rw t refl
]

named-are_words :
    (names : List (Text × ℕ)) (s : Text)
    → are_words names ≡ true
    → all_digits s ≡ true
    → named names s ≡ none
unfolding named
named-are_words [] s w e = refl
named-are_words (([], v) ∷ rest) s w e = cc
named-are_words ((c ∷ k, v) ∷ rest) s w e =
    rw (same-all_digits c k s (ground (arith, w)) e) (named-are_words rest s (ground (arith, w)) e)

pub must_parse_int-itoa : (n : ℕ) → n < 2 ^ 63 → must_parse_int (itoa n) ≡ ok n
unfolding must_parse_int
must_parse_int-itoa n h = rw (must_parse_int, atoi-IsNumber (itoa n) n (itoa-IsNumber n) h) refl

pub parse_int_or_name-itoa :
    (n : ℕ) (names : List (Text × ℕ))
    → are_words names ≡ true
    → n < 2 ^ 63
    → parse_int_or_name (itoa n) names ≡ ok n
unfolding parse_int_or_name
parse_int_or_name-itoa n names w h =
    let only = (itoa-IsNumber n).only in
    rw (parse_int_or_name, to_lower-all_digits (itoa n) only, named-are_words names (itoa n) w only)
      (must_parse_int-itoa n h)

pub itoa-byte : (b n : ℕ) → is_digit b ≡ false → contains_byte b (itoa n) ≡ false
itoa-byte b n h = contains_byte-all_digits b (itoa n) h (itoa-IsNumber n).only

pub is_star-itoa : (n : ℕ) → is_star (itoa n) ≡ false
unfolding is_digit
is_star-itoa n =
    let number = itoa-IsNumber n in
    let only = ap all_digits (sym number.text) ∙ number.only in
    ap is_star number.text ∙ ground (arith, only)

pub print_base-byte :
    (b : ℕ) (base : Base)
    → is_digit b ≡ false
    → (b == b'*') ≡ false
    → (b == b'-') ≡ false
    → contains_byte b (print_base base) ≡ false
unfolding print_base contains_byte
print_base-byte b star h asterisk dash = ground (arith, asterisk)
print_base-byte b (value n) h asterisk dash = itoa-byte b n h
print_base-byte b (span l m) h asterisk dash =
    ground (
      arith,
      contains_byte-append b (itoa l) (b'-' ∷ itoa m),
      itoa-byte b l h,
      itoa-byte b m h,
      dash,
    )

abbrev pub base_texts : Base → List Text
base_texts star = (b'*' ∷ []) ∷ []
base_texts (value n) = itoa n ∷ []
base_texts (span a b) = itoa a ∷ itoa b ∷ []

abbrev pub step_texts : Option ℕ → List Text
step_texts none = []
step_texts (some step) = itoa step ∷ []

pub split-print_base : (base : Base) → split b'-' (print_base base) ≡ base_texts base
unfolding print_base is_digit split
split-print_base star = refl
split-print_base (value n) = split-one b'-' (itoa n) (itoa-byte b'-' n refl)
split-print_base (span a b) =
    split-append b'-' (itoa a) (itoa b) (itoa-byte b'-' a refl)
    ∙ ap (λ (l : List Text). itoa a ∷ l) (split-one b'-' (itoa b) (itoa-byte b'-' b refl))

pub split-print_item :
    (base : Base) (step : Option ℕ)
    → split b'/' (print_item base step) ≡ print_base base ∷ step_texts step
unfolding print_item is_digit
split-print_item base none =
    split-one b'/' (print_base base) (print_base-byte b'/' base refl refl refl)
split-print_item base (some step) =
    split-append b'/' (print_base base) (itoa step) (print_base-byte b'/' base refl refl refl)
    ∙ ap (λ (l : List Text). print_base base ∷ l)
        (split-one b'/' (itoa step) (itoa-byte b'/' step refl))
