-- ===== src/Spec/Sunday.antt =====
-- spec.go: `NormalizeDOW`, which turns Sunday as 7 into Sunday as 0.
use Prim.Native.Nat.{bit_and, bit_or}
use go_cron.Prelude.{
  ℕ, ◌<◌, ◌≡◌, ap, ◌∙◌, true, false, not, ◌&&◌, ◌||◌, ◌==◌, ==_iff, Bool-cases, inl, inr, arith,
}
use go_cron.Word.Laws.{test_bit, test_bit-or, test_bit-pow, test_bit-and_not, and_pow, and_comm}
use go_cron.Spec.{normalize_dow, dow_bit7}

day_seven : (bits : ℕ) → (bit_and bits dow_bit7 == 0) ≡ not (test_bit 7 bits)
day_seven bits = ap (λ (n : ℕ). n == 0) (and_comm bits dow_bit7) ∙ and_pow 7 bits

-- NormalizeDOW leaves no day 7, puts Sunday as 0 where there was a day 7 or a day 0, and keeps every other bit below 64.
pub normalize_dow-test_bit :
    (v bits : ℕ)
    → v < 64
    → test_bit v (normalize_dow bits)
      ≡ (not (v == 7) && (test_bit v bits || ((v == 0) && test_bit 7 bits)))
unfolding normalize_dow
normalize_dow-test_bit v bits h = elim (Bool-cases (test_bit 7 bits)) [
  | inl t ↦
      rw (day_seven bits, t)
        (test_bit-and_not v (bit_or bits 1) dow_bit7 h (omega arith)
          ∙ rw (test_bit-or v bits 1, test_bit-pow v 0, test_bit-pow v 7) (ground (arith, t)))
  | inr t ↦
      let seven : (v == 7) ≡ true → test_bit v bits ≡ false =
        λ e. ap (λ (n : ℕ). test_bit n bits) ((==_iff v 7).0 e) ∙ t in
      rw (day_seven bits, t) (ground (arith, t, seven))
]
