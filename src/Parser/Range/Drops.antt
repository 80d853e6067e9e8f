-- ===== src/Parser/Range/Drops.antt =====
-- The values of the steps of an item that does not wrap around, less those that `stepped` drops.
use go_cron.Prelude.{
  ℕ, ◌+◌, ◌-◌, ◌%◌, ◌^◌, ◌≤◌, ◌<◌, ◌≡◌, ap, ◌∙◌, Bool, if◌then◌else◌, true, false, not, ◌&&◌, ltb,
  leb, ◌==◌, ◌⊎◌, inl, inr, arith,
}
use go_cron.Word.{and_not}
use go_cron.Word.Laws.{test_bit, test_bit-or, test_bit-zero, test_bit-pow, test_bit-and_not}
use go_cron.Spec.{star_bit}
use go_cron.Parser.{Bounds}
use go_cron.Parser.Bits.{get_bits}
use go_cron.Parser.Bits.Laws.{in_steps}
use go_cron.Parser.Bits.Within.{get_bits-test_bit, get_bits_lt}
use go_cron.Parser.Range.{Steps, range_bits}

-- What the steps drop of the values up to their end: nothing, or those past the field's step end.
abbrev pub Drops : Bounds → ℕ → ℕ → ℕ → Type 0
Drops r end last dropped =
    ((dropped ≡ 0) × (last ≡ end))
    ⊎ ((dropped ≡ get_bits (r.step_end + 1) r.max 1)
        × (end ≡ r.max)
        × (last ≡ (if leb r.step_end r.max then r.step_end else r.max)))

-- The values that are left of the steps.
kept :
    (r : Bounds) (start end last step dropped v : ℕ)
    → Drops r end last dropped
    → 1 ≤ step
    → v < 63
    → (test_bit v (get_bits start end step) && not (test_bit v dropped))
      ≡ in_steps start last step v
kept r start end last step dropped v (inl (none_dropped, same)) p lt =
    let steps = get_bits-test_bit start end step v (omega arith) p in
    let rest : test_bit v dropped ≡ false = ap (test_bit v) none_dropped ∙ test_bit-zero v in
    rw (steps, rest, same) (ground arith)
kept r start end last step dropped v (inr (rest, to, until)) p lt =
    let steps = get_bits-test_bit start end step v (omega arith) p in
    let past =
      ap (test_bit v) rest
      ∙ get_bits-test_bit (r.step_end + 1) r.max 1 v (omega arith) (omega arith) in
    let one : ((v - (r.step_end + 1)) % 1 == 0) ≡ true = ground arith in
    rw (steps, past, to, until, one) (ground arith)

dropped_lt : (r : Bounds) (end last dropped : ℕ) → Drops r end last dropped → dropped < 2 ^ 64
dropped_lt r end last dropped (inl (e, same)) = omega (arith, e)
dropped_lt r end last dropped (inr (e, to, until)) =
    omega (arith, e, get_bits_lt (r.step_end + 1) r.max)

pub range_bits-plain :
    (r : Bounds) (start end last step : ℕ) (s : Steps) (v : ℕ)
    → s.end ≡ end
    → s.step ≡ step
    → (s.extra ≡ 0) ⊎ (s.extra ≡ star_bit)
    → Drops r end last s.dropped
    → start ≤ end
    → 1 ≤ step
    → v < 63
    → test_bit v (range_bits start s r) ≡ in_steps start last step v
unfolding range_bits
range_bits-plain r start end last step s v e k x d h p lt =
    let straight : ltb s.end start ≡ false = ground (arith, e) in
    let no_star : test_bit v s.extra ≡ false = elim x [
      | inl z ↦ ap (test_bit v) z ∙ test_bit-zero v
      | inr z ↦ ap (test_bit v) z ∙ test_bit-pow v 63 ∙ ground arith
    ] in
    let set = get_bits start s.end s.step in
    let same : test_bit v set ≡ test_bit v (get_bits start end step) =
      ap (test_bit v)
        (ap (λ (n : ℕ). get_bits start n s.step) e ∙ ap (λ (n : ℕ). get_bits start end n) k) in
    let left : test_bit v (and_not set s.dropped) ≡ in_steps start last step v =
      test_bit-and_not v set s.dropped (omega arith) (dropped_lt r end last s.dropped d)
      ∙ ap (λ (b : Bool). b && not (test_bit v s.dropped)) same
      ∙ kept r start end last step s.dropped v d p lt in
    rw straight (test_bit-or v (and_not set s.dropped) s.extra ∙ ground (arith, no_star, left))
