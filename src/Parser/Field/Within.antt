-- ===== src/Parser/Field/Within.antt =====
-- A field, also one with hash expressions, sets values of the field, at least one, and besides at
-- most the star bit.
use Prim.Native.Nat.{bit_or}
use mathlib.Core.Path.{subst}
use native.Mathlib.Nat.{mod-lt, zero-mod}
use go_cron.Prelude.{
  ℕ, ◌+◌, ◌-◌, ◌/◌, ◌%◌, ◌≤◌, ◌<◌, ◌≡◌, sym, ◌∙◌, true, ◌&&◌, ◌||◌, ltb, ◌==◌, Bool-cases, ==_iff,
  inl, inr, List, [], ◌∷◌, arith,
}
use go_cron.Word.{shl}
use go_cron.Word.Laws.{test_bit, test_bit-shl_one, test_bit-zero}
use go_cron.Parser.{Bounds}
use go_cron.Parser.Result.{Result, ok, zero_step, >>=-ok, refuse-ok, ok_inj}
use go_cron.Parser.Text.{Text, split, has_prefix}
use go_cron.Parser.Bits.{Cycle, dow_cycle, is_dow_bounds, wrap_value, bits_from}
use go_cron.Parser.Bits.Laws.{in_steps, bits_from-test_bit}
use go_cron.Parser.Bits.Within.{
  IsBounds, Within, Has, IsFieldSet, Within-or, Has-or, Has-or_right, Within-zero, InBounds,
  IsCycle, dow_cycle-IsCycle, IsFieldSet-wider, wrap_value-range, wrap_from-IsFieldSet,
}
use go_cron.Parser.Range.{must_parse_int, validate_range_bounds, cyclic_range_size}
use go_cron.Parser.Range.Within.{validate_range_bounds-ok, get_range-IsFieldSet}
use go_cron.Parser.Field.{
  some_items, split_list, join_items, step_offset, hash_step_bits, get_hash_step_bits,
  dow_hash_sunday7, hash_value, get_hash_single_bit, Range, hash_range, hash_bits, hash_parts,
  Hashing, get_range_with_hash, get_field_with_hash,
}

-- An offset of the hash is less than the size of the range.
step_offset-lt : (hash step size : ℕ) → 1 ≤ step → 1 ≤ size → step_offset hash step size < size
unfolding step_offset
step_offset-lt hash step size p q =
    let m = mod-lt (hash / step) {m = size} (omega arith) in ground (arith, m)

rest_zero : (n step : ℕ) → (n - n) % step ≡ 0
rest_zero n step = let e : n - n ≡ 0 = omega arith in rw e (zero-mod step)

bits_from-IsFieldSet :
    (r : Bounds) (first end step : ℕ)
    → IsBounds r
    → r.min ≤ first
    → first ≤ end
    → end ≤ r.max
    → 1 ≤ step
    → IsFieldSet r (bits_from (end + 1) first end step 0)
bits_from-IsFieldSet r first end step b lo mid hi k =
    let small = b.small in
    let bit =
      λ (v : ℕ) (h : v < 64). bits_from-test_bit (end + 1) first end step 0 v h k (omega arith) in
    record {
      within = λ v p e.
          let at : (test_bit v 0 || in_steps first end step v) ≡ true =
            sym (bit v (omega arith)) ∙ e in
          let s : in_steps first end step v ≡ true = ground (arith, at, test_bit-zero v) in
          (ground (arith, s), ground (arith, s));
      has = (
        first,
        lo,
        omega arith,
        bit first (omega arith) ∙ ground (arith, mid, rest_zero first step),
      );
    }

hash_step_bits-IsFieldSet :
    (r : Bounds) (c : Cycle) (step hash : ℕ)
    → IsCycle r c
    → 1 ≤ step
    → IsFieldSet c.bounds (hash_step_bits c step hash)
unfolding hash_step_bits cyclic_range_size
hash_step_bits-IsFieldSet r c step hash y k =
    let lo = y.start_in in
    let hi = y.end_in in
    let same = y.same_min in
    let wide = y.bounds.ordered in
    let off = step_offset-lt hash step in
    elim (Bool-cases (ltb c.end c.start)) [
      | inl t ↦
          let less =
            off (c.bounds.max - c.start + 1 + (c.end - c.bounds.min + 1)) k (omega arith) in
          rw t (
            wrap_from-IsFieldSet c.bounds _ (c.end + (c.bounds.max - c.bounds.min + 1)) step
              y.bounds (omega (arith, lo, same)) (omega (arith, less, lo, hi, same)))
      | inr t ↦
          let order : c.start ≤ c.end = ground (arith, t) in
          let less = off (c.end - c.start + 1) k (omega arith) in
          rw t (
            bits_from-IsFieldSet c.bounds _ c.end step y.bounds (omega (arith, lo, same))
              (omega (arith, less, order)) hi.1 k)
    ]

get_hash_step_bits-IsFieldSet :
    (r : Bounds) (start end step hash : ℕ)
    → IsBounds r
    → InBounds r start end
    → 1 ≤ step
    → IsFieldSet r (get_hash_step_bits start end step r hash)
unfolding get_hash_step_bits
get_hash_step_bits-IsFieldSet r start end step hash b i k =
    let c = dow_cycle start end r in
    let y = dow_cycle-IsCycle start end r b i in
    IsFieldSet-wider r c.bounds _ y.same_min y.max_le (hash_step_bits-IsFieldSet r c step hash y k)

one_bit-IsFieldSet :
    (r : Bounds) (v : ℕ) → IsBounds r → r.min ≤ v → v ≤ r.max → IsFieldSet r (shl 1 v)
one_bit-IsFieldSet r v b lo hi =
    let small = b.small in
    record {
      within = λ w p e.
          let at : w ≡ v = (==_iff w v).0 (sym (test_bit-shl_one w v (omega arith)) ∙ e) in
          (omega (arith, at), omega (arith, at));
      has = (v, lo, hi, test_bit-shl_one v v (omega arith) ∙ ground arith);
    }

sunday7-le : (start end size hash : ℕ) → dow_hash_sunday7 start end size hash ≤ 7
unfolding dow_hash_sunday7
sunday7-le start end size hash = ground arith

hash_value-range :
    (r : Bounds) (start end hash : ℕ)
    → IsBounds r
    → InBounds r start end
    → (r.min ≤ hash_value start end r hash) × (hash_value start end r hash ≤ r.max)
unfolding hash_value
hash_value-range r start end hash b i =
    let size = cyclic_range_size start end r in
    let lo = i.start_in in
    let val = wrap_value r (start + hash % size) in
    let w = wrap_value-range r (start + hash % size) b.ordered (omega (arith, lo)) in
    let sunday = sunday7-le start end size hash in
    elim (Bool-cases ((val == 7) && is_dow_bounds r)) [
      | inl t ↦
          let dow : (r.min ≡ 0) × (r.max ≡ 7) = unfold is_dow_bounds in ground (arith, t) in
          rw t (omega (arith, dow), omega (arith, dow, sunday))
      | inr t ↦ rw t w
    ]

hash_bits-IsFieldSet :
    (steps : List Text) (b : Range) (r : Bounds) (hash bits : ℕ)
    → IsBounds r
    → InBounds r b.start b.end
    → hash_bits steps b r hash ≡ ok bits
    → IsFieldSet r bits
unfolding hash_bits get_hash_single_bit
hash_bits-IsFieldSet [] b r hash bits w i e =
    let v = hash_value-range r b.start b.end hash w i in
    subst (IsFieldSet r) (ok_inj _ bits e)
      (one_bit-IsFieldSet r (hash_value b.start b.end r hash) w v.0 v.1)
hash_bits-IsFieldSet (step ∷ []) b r hash bits w i e =
    let (n, parsed, e1) = >>=-ok (must_parse_int step) _ bits e in
    let positive = refuse-ok (n == 0) zero_step _ bits e1 in
    subst (IsFieldSet r) (ok_inj _ bits positive.1)
      (get_hash_step_bits-IsFieldSet r b.start b.end n hash w i (ground (arith, positive.0)))
hash_bits-IsFieldSet (step ∷ more ∷ rest) b r hash bits w i e = cc

hash_parts-IsFieldSet :
    (parts : List Text) (r : Bounds) (hash bits : ℕ)
    → IsBounds r
    → hash_parts parts r hash ≡ ok bits
    → IsFieldSet r bits
unfolding hash_parts
hash_parts-IsFieldSet [] r hash bits w e = cc
hash_parts-IsFieldSet (part ∷ steps) r hash bits w e =
    let (b, range, e1) = >>=-ok (hash_range part r) _ bits e in
    let (u, valid, e2) = >>=-ok (validate_range_bounds b.start b.end r) _ bits e1 in
    hash_bits-IsFieldSet steps b r hash bits w (validate_range_bounds-ok b.start b.end r u valid).0
      e2

pub get_range_with_hash-IsFieldSet :
    (h : Hashing) (r : Bounds) (expr : Text) (bits : ℕ)
    → IsBounds r
    → get_range_with_hash h r expr ≡ ok bits
    → IsFieldSet r bits
unfolding get_range_with_hash
get_range_with_hash-IsFieldSet h r expr bits w e = elim (Bool-cases (has_prefix expr (b'H' ∷ []))) [
  | inr t ↦ get_range-IsFieldSet expr r bits w (rw t at e)
  | inl t ↦ elim (Bool-cases h.enabled) [
    | inr f ↦ let e1 = rw (t, f) at e in cc
    | inl f ↦ hash_parts-IsFieldSet _ r _ bits w (rw (t, f) at e)
  ]
]

-- The items of a list add to what was set before.
join_items-Within :
    (item : Text → Result ℕ) (r : Bounds) (l : List Text) (before bits : ℕ)
    → ((expr : Text) (b : ℕ) → item expr ≡ ok b → IsFieldSet r b)
    → Within r.min r.max before
    → join_items item l before ≡ ok bits
    → Within r.min r.max bits
unfolding join_items
join_items-Within item r [] before bits f w e = subst (Within r.min r.max) (ok_inj _ bits e) w
join_items-Within item r (expr ∷ rest) before bits f w e =
    let (b, set, e1) = >>=-ok (item expr) _ bits e in
    join_items-Within item r rest (bit_or before b) bits f
      (Within-or r.min r.max before b w (f expr b set).within) e1

join_items-Has :
    (item : Text → Result ℕ) (r : Bounds) (l : List Text) (before bits : ℕ)
    → Has r.min r.max before
    → join_items item l before ≡ ok bits
    → Has r.min r.max bits
unfolding join_items
join_items-Has item r [] before bits w e = subst (Has r.min r.max) (ok_inj _ bits e) w
join_items-Has item r (expr ∷ rest) before bits w e =
    let (b, set, e1) = >>=-ok (item expr) _ bits e in
    join_items-Has item r rest (bit_or before b) bits (Has-or r.min r.max before b w) e1

join_items-IsFieldSet :
    (item : Text → Result ℕ) (r : Bounds) (l all : List Text) (bits : ℕ)
    → ((expr : Text) (b : ℕ) → item expr ≡ ok b → IsFieldSet r b)
    → some_items l ≡ ok all
    → join_items item all 0 ≡ ok bits
    → IsFieldSet r bits
unfolding join_items
join_items-IsFieldSet item r [] all bits f s e = cc
join_items-IsFieldSet item r (expr ∷ rest) all bits f s e =
    let at : (expr ∷ rest) ≡ all = ok_inj _ all s in
    let e' = subst (λ (l : List Text). join_items item l 0 ≡ ok bits) (sym at) e in
    let (b, set, e1) = >>=-ok (item expr) _ bits e' in
    let one = f expr b set in
    record {
      within =
          join_items-Within item r rest (bit_or 0 b) bits f
            (Within-or r.min r.max 0 b (Within-zero r.min r.max) one.within) e1;
      has = join_items-Has item r rest (bit_or 0 b) bits (Has-or_right r.min r.max 0 b one.has) e1;
    }

pub get_field_with_hash-IsFieldSet :
    (h : Hashing) (r : Bounds) (field : Text) (bits : ℕ)
    → IsBounds r
    → get_field_with_hash h r field ≡ ok bits
    → IsFieldSet r bits
unfolding get_field_with_hash split_list
get_field_with_hash-IsFieldSet h r field bits w e =
    let (items, split, e1) = >>=-ok (split_list field) _ bits e in
    join_items-IsFieldSet (get_range_with_hash h r) r _ items bits
      (λ expr b x. get_range_with_hash-IsFieldSet h r expr b w x) split e1
