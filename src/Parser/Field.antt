-- ===== src/Parser/Field.antt =====
-- parser.go: a field, a list of items, with the hash expressions H and H(a-b).
pub mod Within
pub mod Print
use Prim.Native.Nat.{bit_or, bit_xor}
use go_cron.Prelude.{
  ℕ, zero, suc, ◌+◌, ◌-◌, ◌*◌, ◌/◌, ◌%◌, ◌^◌, Bool, true, false, not, ◌&&◌, ltb, leb, ◌==◌,
  if◌then◌else◌, List, [], ◌∷◌,
}
use go_cron.Word.{shl}
use go_cron.Parser.{Bounds}
use go_cron.Parser.Result.{
  Result, ok, err, ◌>>=◌, ◌>>◌, refuse, no_values, hash_disabled, bad_hash, zero_step,
  too_many_slashes,
}
use go_cron.Parser.Text.{Text, same, split, fields_func, has_prefix, drop, init, ends_with}
use go_cron.Parser.Bits.{is_dow_bounds, Cycle, dow_cycle, wrap_value, wrap_from, bits_from}
use go_cron.Parser.Range.{must_parse_int, validate_range_bounds, cyclic_range_size, get_range}

abbrev pub some_items : List Text → Result (List Text)
some_items [] = err no_values
some_items (item ∷ items) = ok (item ∷ items)

unfoldable pub split_list : Text → Result (List Text)
split_list field = some_items (fields_func b',' field)

-- The loop of `getField` and `getFieldWithHash`.
unfoldable pub join_items : (Text → Result ℕ) → List Text → ℕ → Result ℕ
join_items item [] bits = ok bits
join_items item (expr ∷ rest) bits = item expr >>= λ bit. join_items item rest (bit_or bits bit)

unfoldable pub get_field : Text → Bounds → Result ℕ
get_field field r = do items ← split_list field; join_items (λ expr. get_range expr r) items 0

-- FNV-1a over the bytes of a text, as `hash/fnv` documents it.
unfoldable pub fnv : Text → ℕ → ℕ
fnv [] h = h
fnv (c ∷ s) h = fnv s (bit_xor h c * 1099511628211 % 2 ^ 64)

unfoldable pub compute_hash : Text → ℕ
compute_hash key = fnv key 14695981039346656037

unfoldable pub step_offset : ℕ → ℕ → ℕ → ℕ
step_offset hash step size = if leb size (hash % step) then hash / step % size else hash % step

unfoldable pub hash_step_bits : Cycle → ℕ → ℕ → ℕ
hash_step_bits c step hash =
    let first = c.start + step_offset hash step (cyclic_range_size c.start c.end c.bounds) in
    let last = c.end + (c.bounds.max - c.bounds.min + 1) in
    if ltb c.end c.start
    then wrap_from (last + 1) c.bounds first last step 0
    else bits_from (c.end + 1) first c.end step 0

unfoldable pub get_hash_step_bits : ℕ → ℕ → ℕ → Bounds → ℕ → ℕ
get_hash_step_bits start end step r hash = hash_step_bits (dow_cycle start end r) step hash

unfoldable pub dow_hash_sunday7 : ℕ → ℕ → ℕ → ℕ → ℕ
dow_hash_sunday7 start end size hash =
    let pos7 = (7 - start) % 8 in
    let j = hash / size % (size - 1) in
    if leb start end && not (start == 0) then 0 else (start + (if leb pos7 j then j + 1 else j)) % 8

unfoldable pub hash_value : ℕ → ℕ → Bounds → ℕ → ℕ
hash_value start end r hash =
    let size = cyclic_range_size start end r in
    let val = wrap_value r (start + hash % size) in
    if (val == 7) && is_dow_bounds r then dow_hash_sunday7 start end size hash else val

unfoldable pub get_hash_single_bit : ℕ → ℕ → Bounds → ℕ → ℕ
get_hash_single_bit start end r hash = shl 1 (hash_value start end r hash)

pub record Range : Type 0 where
  pub start : ℕ
  pub end : ℕ

unfoldable pub hash_range_parts : List Text → Result Range
hash_range_parts [] = err bad_hash
hash_range_parts (low ∷ []) = err bad_hash
hash_range_parts (low ∷ high ∷ []) = do
  n ← must_parse_int low
  m ← must_parse_int high
  ok (record { start = n; end = m })
hash_range_parts (low ∷ high ∷ more ∷ rest) = err bad_hash

unfoldable pub hash_range : Text → Bounds → Result Range
hash_range part r =
    if same part (b'H' ∷ [])
    then ok (record { start = r.min; end = r.max })
    else if has_prefix part (b'H' ∷ b'(' ∷ []) && ends_with b')' part
    then hash_range_parts (split b'-' (init (drop 2 part)))
    else err bad_hash

unfoldable pub hash_bits : List Text → Range → Bounds → ℕ → Result ℕ
hash_bits [] b r hash = ok (get_hash_single_bit b.start b.end r hash)
hash_bits (step ∷ []) b r hash = do
  n ← must_parse_int step
  refuse (n == 0) zero_step
  ok (get_hash_step_bits b.start b.end n r hash)
hash_bits (step ∷ more ∷ rest) b r hash = err too_many_slashes

unfoldable pub hash_parts : List Text → Bounds → ℕ → Result ℕ
hash_parts [] r hash = err bad_hash
hash_parts (part ∷ steps) r hash = do
  b ← hash_range part r
  validate_range_bounds b.start b.end r
  hash_bits steps b r hash

-- The hash key, and whether hash expressions are allowed.
pub record Hashing : Type 0 where
  pub key : Text
  pub enabled : Bool

unfoldable pub get_range_with_hash : Hashing → Bounds → Text → Result ℕ
get_range_with_hash h r expr =
    if not (has_prefix expr (b'H' ∷ []))
    then get_range expr r
    else if not h.enabled
    then err hash_disabled
    else hash_parts (split b'/' expr) r (compute_hash h.key)

unfoldable pub get_field_with_hash : Hashing → Bounds → Text → Result ℕ
get_field_with_hash h r field = do
  items ← split_list field
  join_items (get_range_with_hash h r) items 0
