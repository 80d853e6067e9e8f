-- ===== src/Parser/Text/Lists.antt =====
-- Texts that are put together are taken apart again by `split`.
use go_cron.Prelude.{
  ℕ, ◌≡◌, refl, ap, ◌∙◌, Bool, true, false, ◌||◌, ◌==◌, if◌then◌else◌, List, [], ◌∷◌, ◌++◌, arith,
}
use go_cron.Parser.Text.{Text, split, contains_byte}

pub split-one : (sep : ℕ) (s : Text) → contains_byte sep s ≡ false → split sep s ≡ s ∷ []
unfolding split contains_byte
split-one sep [] h = refl
split-one sep (c ∷ s) h =
    let other : (c == sep) ≡ false = ground (arith, h) in
    rw (other, split-one sep s (ground (arith, h))) refl

pub split-append :
    (sep : ℕ) (s t : Text)
    → contains_byte sep s ≡ false
    → split sep (s ++ (sep ∷ t)) ≡ s ∷ split sep t
unfolding split contains_byte
split-append sep [] t h = let same : (sep == sep) ≡ true = ground arith in rw same refl
split-append sep (c ∷ s) t h =
    let other : (c == sep) ≡ false = ground (arith, h) in
    rw (other, split-append sep s t (ground (arith, h))) refl

pub contains_byte-append :
    (b : ℕ) (s t : Text) → contains_byte b (s ++ t) ≡ (contains_byte b s || contains_byte b t)
unfolding contains_byte
contains_byte-append b [] t = refl
contains_byte-append b (c ∷ s) t = ground (arith, contains_byte-append b s t)

-- Texts between commas.
abbrev pub join : ℕ → Text → List Text → Text
join sep s [] = s
join sep s (t ∷ rest) = s ++ (sep ∷ join sep t rest)

abbrev pub no_byte : ℕ → List Text → Bool
no_byte sep [] = true
no_byte sep (s ∷ rest) = if contains_byte sep s then false else no_byte sep rest

pub split-join :
    (sep : ℕ) (s : Text) (rest : List Text)
    → no_byte sep (s ∷ rest) ≡ true
    → split sep (join sep s rest) ≡ s ∷ rest
split-join sep s [] h = split-one sep s (ground (arith, h))
split-join sep s (t ∷ rest) h =
    split-append sep s (join sep t rest) (ground (arith, h))
    ∙ ap (λ (l : List Text). s ∷ l) (split-join sep t rest (ground (arith, h)))
