-- ===== src/Parser/Bits/Within.antt =====
-- The bit sets of `Bits` hold values of the field, and at least one.
use Prim.Native.Nat.{bit_or}
use native.Mathlib.Nat.{mod-lt, zero-mod}
use go_cron.Prelude.{
  ℕ, zero, suc, ◌+◌, ◌-◌, ◌%◌, ◌^◌, ◌≤◌, ◌<◌, ◌≡◌, refl, sym, ◌∙◌, true, ltb, leb, ==_iff,
  Bool-cases, inl, inr, arith,
}
use mathlib.Core.Path.{subst}
use go_cron.Word.{max_uint64, complement, shl}
use go_cron.Word.Laws.{test_bit, test_bit-or, test_bit-zero, test_bit-pow, test_bit-shl_one, and_le}
use go_cron.Spec.{star_bit}
use go_cron.Parser.{Bounds}
use go_cron.Parser.Bits.{
  get_bits, Cycle, dow_cycle, is_dow_bounds, wrap_value, wrap_from, walk_around,
  get_wraparound_bits,
}
use go_cron.Parser.Bits.Laws.{in_steps, field_matches-test_bit, get_bits-field_matches}

-- The bounds of a field whose values have a bit each.
pub record IsBounds (r : Bounds) : Type 0 where
  pub ordered : r.min ≤ r.max
  pub small : r.max < 63

-- No value outside `lo` to `hi` is set below the star bit.
abbrev pub Within : ℕ → ℕ → ℕ → Type 0
Within lo hi bits = (v : ℕ) → v < 63 → test_bit v bits ≡ true → (lo ≤ v) × (v ≤ hi)

abbrev pub Has : ℕ → ℕ → ℕ → Type 0
Has lo hi bits = (v : ℕ) × (lo ≤ v) × (v ≤ hi) × (test_bit v bits ≡ true)

-- A set of values of the field that is not empty.
pub record IsFieldSet (r : Bounds) (bits : ℕ) : Type 0 where
  pub within : Within r.min r.max bits
  pub has : Has r.min r.max bits

pub Within-or : (lo hi a b : ℕ) → Within lo hi a → Within lo hi b → Within lo hi (bit_or a b)
Within-or lo hi a b p q v h e = elim (Bool-cases (test_bit v a)) [
  | inl t ↦ p v h t
  | inr t ↦ q v h (sym (test_bit-or v a b ∙ rw t refl) ∙ e)
]

pub Has-or : (lo hi a b : ℕ) → Has lo hi a → Has lo hi (bit_or a b)
Has-or lo hi a b (v, p, q, e) = (v, p, q, test_bit-or v a b ∙ rw e refl)

pub Has-or_right : (lo hi a b : ℕ) → Has lo hi b → Has lo hi (bit_or a b)
Has-or_right lo hi a b (v, p, q, e) = (v, p, q, test_bit-or v a b ∙ rw e (ground arith))

pub Within-zero : (lo hi : ℕ) → Within lo hi 0
Within-zero lo hi v h e = ground (arith, test_bit-zero v)

pub Within-star : (lo hi : ℕ) → Within lo hi star_bit
Within-star lo hi v h e = ground (arith, test_bit-pow v 63)

pub get_bits-test_bit :
    (low high step v : ℕ)
    → v < 64
    → 1 ≤ step
    → test_bit v (get_bits low high step) ≡ in_steps low high step v
get_bits-test_bit low high step v h k =
    sym (field_matches-test_bit v _ h) ∙ get_bits-field_matches low high step v h k

get_bits-Within : (low high step : ℕ) → 1 ≤ step → Within low high (get_bits low high step)
get_bits-Within low high step k v h e =
    let s = sym (get_bits-test_bit low high step v (omega arith) k) ∙ e in
    (ground (arith, s), ground (arith, s))

rest_zero : (n step : ℕ) → (n - n) % step ≡ 0
rest_zero n step = let e : n - n ≡ 0 = omega arith in rw e (zero-mod step)

pub get_bits-start :
    (low high step : ℕ)
    → 1 ≤ step
    → low ≤ high
    → low < 64
    → test_bit low (get_bits low high step) ≡ true
get_bits-start low high step k h s =
    get_bits-test_bit low high step low s k ∙ ground (arith, h, rest_zero low step)

pub get_bits_lt : (low high : ℕ) → get_bits low high 1 < 2 ^ 64
unfolding get_bits complement
get_bits_lt low high =
    omega (arith, and_le (complement (shl max_uint64 (high + 1))) (shl max_uint64 low))

pub wrap_value-range :
    (r : Bounds) (i : ℕ)
    → r.min ≤ r.max
    → r.min ≤ i
    → (r.min ≤ wrap_value r i) × (wrap_value r i ≤ r.max)
unfolding wrap_value
wrap_value-range r i h p =
    let m = mod-lt (i - r.min) {m = r.max - r.min + 1} (omega arith) in
    (ground (arith, m), ground (arith, m))

wrap_from-Within :
    (rounds : ℕ) (r : Bounds) (i last step bits : ℕ)
    → IsBounds r
    → r.min ≤ i
    → Within r.min r.max bits
    → Within r.min r.max (wrap_from rounds r i last step bits)
unfolding wrap_from
wrap_from-Within zero r i last step bits h p w = w
wrap_from-Within (suc rounds) r i last step bits h p w = elim (Bool-cases (leb i last)) [
  | inl t ↦ rw t (
      wrap_from-Within rounds r (i + step) last step _ h (omega arith) (
        Within-or r.min r.max bits (shl 1 (wrap_value r i)) w (λ v q e.
          let at : v ≡ wrap_value r i =
            (==_iff v (wrap_value r i)).0
              (sym (test_bit-shl_one v (wrap_value r i) (omega arith)) ∙ e) in
          let range = wrap_value-range r i h.ordered p in
          (omega (arith, at, range), omega (arith, at, range)))))
  | inr t ↦ rw t w
]

wrap_from-keeps :
    (rounds : ℕ) (r : Bounds) (i last step bits v : ℕ)
    → test_bit v bits ≡ true
    → test_bit v (wrap_from rounds r i last step bits) ≡ true
unfolding wrap_from
wrap_from-keeps zero r i last step bits v e = e
wrap_from-keeps (suc rounds) r i last step bits v e = elim (Bool-cases (leb i last)) [
  | inl t ↦ rw t (
      wrap_from-keeps rounds r (i + step) last step (bit_or bits (shl 1 (wrap_value r i))) v
        (test_bit-or v bits _ ∙ rw e refl))
  | inr t ↦ rw t e
]

-- The first round sets its value.
wrap_from-first :
    (rounds : ℕ) (r : Bounds) (i last step bits : ℕ)
    → i ≤ last
    → wrap_value r i < 64
    → test_bit (wrap_value r i) (wrap_from (suc rounds) r i last step bits) ≡ true
unfolding wrap_from
wrap_from-first rounds r i last step bits h lt =
    let go : leb i last ≡ true = ground arith in
    let v = wrap_value r i in
    let set : test_bit v (bit_or bits (shl 1 v)) ≡ true =
      test_bit-or v bits (shl 1 v) ∙ rw (test_bit-shl_one v v lt) (ground arith) in
    rw go (wrap_from-keeps rounds r (i + step) last step (bit_or bits (shl 1 v)) v set)

pub wrap_from-IsFieldSet :
    (r : Bounds) (first last step : ℕ)
    → IsBounds r
    → r.min ≤ first
    → first ≤ last
    → IsFieldSet r (wrap_from (last + 1) r first last step 0)
wrap_from-IsFieldSet r first last step b lo h =
    let small = b.small in
    let range = wrap_value-range r first b.ordered lo in
    let walk = λ (n : ℕ). wrap_from n r first last step 0 in
    let one_more : suc last ≡ last + 1 = omega arith in
    let set = wrap_from-first last r first last step 0 h (omega (arith, range, small)) in
    record {
      within = wrap_from-Within (last + 1) r first last step 0 b lo (Within-zero r.min r.max);
      has = (
        wrap_value r first,
        range.0,
        range.1,
        subst (λ (n : ℕ). test_bit (wrap_value r first) (walk n) ≡ true) one_more set,
      );
    }

walk_around-IsFieldSet :
    (start end step : ℕ) (r : Bounds)
    → IsBounds r
    → r.min ≤ start
    → start ≤ r.max
    → r.min ≤ end
    → IsFieldSet r (walk_around start end step r)
unfolding walk_around
walk_around-IsFieldSet start end step r b lo hi far =
    let wide = b.ordered in
    wrap_from-IsFieldSet r start (end + (r.max - r.min + 1)) step b lo (omega arith)

-- A range in bounds that are those of `r` or part of them.
pub record IsCycle (r : Bounds) (c : Cycle) : Type 0 where
  pub bounds : IsBounds c.bounds
  pub same_min : c.bounds.min ≡ r.min
  pub max_le : c.bounds.max ≤ r.max
  pub start_in : (r.min ≤ c.start) × (c.start ≤ c.bounds.max)
  pub end_in : (r.min ≤ c.end) × (c.end ≤ c.bounds.max)

pub record InBounds (r : Bounds) (start end : ℕ) : Type 0 where
  pub start_in : (r.min ≤ start) × (start ≤ r.max)
  pub end_in : (r.min ≤ end) × (end ≤ r.max)

pub dow_cycle-IsCycle :
    (start end : ℕ) (r : Bounds)
    → IsBounds r
    → InBounds r start end
    → IsCycle r (dow_cycle start end r)
unfolding dow_cycle
dow_cycle-IsCycle start end r b i = elim (Bool-cases (is_dow_bounds r)) [
  | inl t ↦
      let dow : (r.min ≡ 0) × (r.max ≡ 7) = unfold is_dow_bounds in ground (arith, t) in
      rw t (record {
        bounds = record { ordered = omega (arith, dow); small = omega arith };
        same_min = refl;
        max_le = omega (arith, dow);
        start_in = (omega (arith, dow), omega arith);
        end_in = (omega (arith, dow), omega arith);
      })
  | inr t ↦ rw t (record {
    bounds = b;
    same_min = refl;
    max_le = omega arith;
    start_in = i.start_in;
    end_in = i.end_in;
  })
]

pub IsFieldSet-wider :
    (r s : Bounds) (bits : ℕ)
    → s.min ≡ r.min
    → s.max ≤ r.max
    → IsFieldSet s bits
    → IsFieldSet r bits
IsFieldSet-wider r s bits e le f = record {
  within = λ v h t. let w = f.within v h t in (omega (arith, w, e), omega (arith, w, le));
  has =
      let x = f.has in
      let lo = x.1 in let hi = x.2 in (x.0, omega (arith, lo, e), omega (arith, hi, le), x.3);
}

pub get_bits-IsFieldSet :
    (r : Bounds) (start end step : ℕ)
    → IsBounds r
    → InBounds r start end
    → 1 ≤ step
    → start ≤ end
    → IsFieldSet r (get_bits start end step)
get_bits-IsFieldSet r start end step b i k h =
    let small = b.small in
    let s = i.start_in in
    let e = i.end_in in
    record {
      within = λ v p t.
          let w = get_bits-Within start end step k v p t in
          (omega (arith, w, s), omega (arith, w, e));
      has = (start, s.0, s.1, get_bits-start start end step k h (omega (arith, s, small)));
    }

pub get_wraparound_bits-IsFieldSet :
    (r : Bounds) (start end step : ℕ)
    → IsBounds r
    → InBounds r start end
    → 1 ≤ step
    → IsFieldSet r (get_wraparound_bits start end step r)
unfolding get_wraparound_bits
get_wraparound_bits-IsFieldSet r start end step b i k =
    let c = dow_cycle start end r in
    let y = dow_cycle-IsCycle start end r b i in
    let low = y.start_in in
    let high = y.end_in in
    let same = y.same_min in
    elim (Bool-cases (ltb 1 step)) [
      | inr t ↦
          rw t (walk_around-IsFieldSet start end step r b i.start_in.0 i.start_in.1 i.end_in.0)
      | inl t ↦ elim (Bool-cases (leb c.start c.end)) [
        | inl u ↦
            rw (t, u)
              (IsFieldSet-wider r c.bounds (get_bits c.start c.end step) y.same_min y.max_le (
                get_bits-IsFieldSet c.bounds c.start c.end step y.bounds
                  (record {
                    start_in = (omega (arith, low, same), low.1);
                    end_in = (omega (arith, high, same), high.1);
                  })
                  k (ground (arith, u))))
        | inr u ↦
            rw (t, u)
              (IsFieldSet-wider r c.bounds (walk_around c.start c.end step c.bounds) y.same_min
                y.max_le
                (walk_around-IsFieldSet c.start c.end step c.bounds y.bounds
                  (omega (arith, low, same)) low.1 (omega (arith, high, same))))
      ]
    ]
