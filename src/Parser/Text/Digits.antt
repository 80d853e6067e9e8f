-- ===== src/Parser/Text/Digits.antt =====
-- Decimal numbers: `atoi` reads what `strconv.Itoa` writes.
use go_cron.Prelude.{
  ℕ, zero, suc, ◌+◌, ◌-◌, ◌*◌, ◌/◌, ◌%◌, ◌^◌, ◌≤◌, ◌<◌, ◌≡◌, refl, sym, ap, ◌∙◌, Bool, true, false,
  ◌&&◌, ltb, leb, ◌==◌, if◌then◌else◌, Bool-cases, inl, inr, [], ◌∷◌, ◌++◌, Option, none, some,
  arith,
}
use go_cron.Prelude.Int.{pos}
use go_cron.Parser.Text.{Text, is_digit, scan, digits, atoi, contains_byte, to_lower, lower_byte}

abbrev pub all_digits : Text → Bool
all_digits [] = true
all_digits (c ∷ s) = is_digit c && all_digits s

-- A digit, and a text of digits that is not empty.
pub record IsNumber (s : Text) (n : ℕ) : Type 0 where
  pub first : ℕ
  pub rest : Text
  pub text : s ≡ first ∷ rest
  pub only : all_digits s ≡ true
  pub value : scan s 0 ≡ some n

abbrev pub digit : ℕ → ℕ
digit n = b'0' + n % 10

-- `strconv.Itoa` of a number, on fuel for its digits.
unfoldable pub format : ℕ → ℕ → Text
format zero n = digit n ∷ []
format (suc k) n =
    let rest = format k (n / 10) in if ltb n 10 then digit n ∷ [] else rest ++ (digit n ∷ [])

unfoldable pub itoa : ℕ → Text
itoa n = format n n

scan-append :
    (s : Text) (c m n : ℕ)
    → is_digit c ≡ true
    → scan s m ≡ some n
    → scan (s ++ (c ∷ [])) m ≡ some (n * 10 + (c - b'0'))
unfolding scan
scan-append [] c m n h e = rw h (ap (λ (o : Option ℕ). some (val o * 10 + (c - b'0'))) e)
  where
    val : Option ℕ → ℕ
    val none = 0
    val (some k) = k
scan-append (d ∷ s) c m n h e = elim (Bool-cases (is_digit d)) [
  | inl t ↦ rw t (scan-append s c _ n h (rw t at e))
  | inr t ↦ cc (rw t at e)
]

all_digits-append :
    (s t : Text) → all_digits s ≡ true → all_digits t ≡ true → all_digits (s ++ t) ≡ true
all_digits-append [] t p q = q
all_digits-append (c ∷ s) t p q =
    let r = all_digits-append s t (ground (arith, p)) q in ground (arith, p, r)

last_digit : (n : ℕ) → is_digit (digit n) ≡ true
unfolding is_digit
last_digit n = ground arith

format-IsNumber : (k n : ℕ) → n ≤ k → IsNumber (format k n) n
unfolding format scan
format-IsNumber zero n h = record {
  first = digit n;
  rest = [];
  text = refl;
  only = rw (last_digit n) refl;
  value = rw (last_digit n) (ap some (omega arith));
}
format-IsNumber (suc k) n h = elim (Bool-cases (ltb n 10)) [
  | inl t ↦ rw t (record {
    first = digit n;
    rest = [];
    text = refl;
    only = rw (last_digit n) refl;
    value = rw (last_digit n) (ap some (ground (arith, t)));
  })
  | inr t ↦
      let r = format-IsNumber k (n / 10) (omega arith) in
      rw t (record {
        first = r.first;
        rest = r.rest ++ (digit n ∷ []);
        text = ap (λ (s : Text). s ++ (digit n ∷ [])) r.text;
        only = all_digits-append (format k (n / 10)) (digit n ∷ []) r.only (rw (last_digit n) refl);
        value =
            scan-append (format k (n / 10)) (digit n) 0 (n / 10) (last_digit n) r.value
            ∙ ap some (omega arith);
      })
]

pub itoa-IsNumber : (n : ℕ) → IsNumber (itoa n) n
unfolding itoa
itoa-IsNumber n = format-IsNumber n n (omega arith)

atoi-digits :
    (c : ℕ) (s : Text) (n : ℕ)
    → all_digits (c ∷ s) ≡ true
    → scan (c ∷ s) 0 ≡ some n
    → n < 2 ^ 63
    → atoi (c ∷ s) ≡ some (pos n)
unfolding atoi digits is_digit
atoi-digits c s n only value h =
    let minus : (c == b'-') ≡ false = ground (arith, only) in
    let plus : (c == b'+') ≡ false = ground (arith, only) in
    rw (minus, plus, value) (ground (arith, h))

pub atoi-IsNumber : (s : Text) (n : ℕ) → IsNumber s n → n < 2 ^ 63 → atoi s ≡ some (pos n)
atoi-IsNumber s n h lt =
    ap atoi h.text
    ∙ atoi-digits h.first h.rest n (ap all_digits (sym h.text) ∙ h.only)
        (ap (λ (t : Text). scan t 0) (sym h.text) ∙ h.value) lt

pub contains_byte-all_digits :
    (b : ℕ) (s : Text) → is_digit b ≡ false → all_digits s ≡ true → contains_byte b s ≡ false
unfolding contains_byte is_digit
contains_byte-all_digits b [] h e = refl
contains_byte-all_digits b (c ∷ s) h e =
    let rest = contains_byte-all_digits b s h (ground (arith, e)) in ground (arith, h, e, rest)

pub to_lower-all_digits : (s : Text) → all_digits s ≡ true → to_lower s ≡ s
unfolding to_lower lower_byte is_digit
to_lower-all_digits [] e = refl
to_lower-all_digits (c ∷ s) e =
    let small : (leb b'A' c && leb c b'Z') ≡ false = ground (arith, e) in
    rw (small, to_lower-all_digits s (ground (arith, e))) refl
