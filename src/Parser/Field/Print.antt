-- ===== src/Parser/Field/Print.antt =====
-- Fields written out, and what `getFieldWithHash` makes of them.
use Prim.Native.Nat.{bit_or}
use go_cron.Prelude.{
  ℕ, ◌<◌, ◌≡◌, refl, sym, ap, ◌∙◌, Bool, true, false, ◌||◌, ◌==◌, List, [], ◌∷◌, ◌++◌, Option, none,
  some, arith,
}
use go_cron.Word.Laws.{test_bit, test_bit-or, test_bit-zero}
use go_cron.Parser.{Bounds}
use go_cron.Parser.Result.{ok}
use go_cron.Parser.Text.{Text, is_digit, is_empty, non_empty, has_prefix, contains_byte}
use go_cron.Parser.Text.Lists.{contains_byte-append, join, no_byte, split-join}
use go_cron.Parser.Text.Digits.{itoa, itoa-IsNumber, all_digits}
use go_cron.Parser.Bits.Laws.{in_steps}
use go_cron.Parser.Range.{get_range}
use go_cron.Parser.Range.Print.{
  Base, star, value, span, Item, print_base, print_item, print_base-byte, itoa-byte,
}
use go_cron.Parser.Range.Items.{item_start, item_last, item_step, IsItem}
use go_cron.Parser.Range.RoundTrip.{get_range-print_item}
use go_cron.Parser.Field.{
  some_items, split_list, join_items, Hashing, get_range_with_hash, get_field_with_hash,
}

abbrev pub texts : List Item → List Text
texts [] = []
texts (i ∷ rest) = print_item i.base i.step ∷ texts rest

-- Items with commas between them.
abbrev pub print_field : Item → List Item → Text
print_field i rest = join b',' (print_item i.base i.step) (texts rest)

-- One of the items has the value.
abbrev pub has_value : Bounds → List Item → ℕ → Bool
has_value r [] v = false
has_value r (i ∷ rest) v =
    in_steps (item_start r i.base) (item_last r i.base i.step) (item_step i.step) v
    || has_value r rest v

abbrev pub AreItems : Bounds → List Item → Type 0
AreItems r [] = Unit {0}
AreItems r (i ∷ rest) = IsItem r i.base i.step × AreItems r rest

-- The first byte of an item is a digit or a star.
record Starts (s : Text) : Type 0 where
  first : ℕ
  rest : Text
  text : s ≡ first ∷ rest
  plain : (first == b'H') ≡ false

itoa-Starts : (n : ℕ) → Starts (itoa n)
unfolding is_digit
itoa-Starts n =
    let number = itoa-IsNumber n in
    let only = ap all_digits (sym number.text) ∙ number.only in
    record {
      first = number.first;
      rest = number.rest;
      text = number.text;
      plain = ground (arith, only);
    }

Starts-append : (s t : Text) → Starts s → Starts (s ++ t)
Starts-append s t h = record {
  first = h.first;
  rest = h.rest ++ t;
  text = ap (λ (u : Text). u ++ t) h.text;
  plain = h.plain;
}

print_base-Starts : (base : Base) → Starts (print_base base)
unfolding print_base
print_base-Starts star = record { first = b'*'; rest = []; text = refl; plain = refl }
print_base-Starts (value n) = itoa-Starts n
print_base-Starts (span a b) = Starts-append (itoa a) (b'-' ∷ itoa b) (itoa-Starts a)

print_item-Starts : (base : Base) (step : Option ℕ) → Starts (print_item base step)
unfolding print_item
print_item-Starts base none = print_base-Starts base
print_item-Starts base (some step) =
    Starts-append (print_base base) (b'/' ∷ itoa step) (print_base-Starts base)

print_item-comma :
    (base : Base) (step : Option ℕ) → contains_byte b',' (print_item base step) ≡ false
unfolding print_item contains_byte is_digit
print_item-comma base none = print_base-byte b',' base refl refl refl
print_item-comma base (some step) = ground (
  arith,
  contains_byte-append b',' (print_base base) (b'/' ∷ itoa step),
  print_base-byte b',' base refl refl refl,
  itoa-byte b',' step refl,
)

print_item-is_empty : (base : Base) (step : Option ℕ) → is_empty (print_item base step) ≡ false
print_item-is_empty base step = ap is_empty (print_item-Starts base step).text

no_byte-texts : (l : List Item) → no_byte b',' (texts l) ≡ true
no_byte-texts [] = refl
no_byte-texts (i ∷ rest) = rw (print_item-comma i.base i.step) (no_byte-texts rest)

non_empty-texts : (l : List Item) → non_empty (texts l) ≡ texts l
unfolding non_empty
non_empty-texts [] = refl
non_empty-texts (i ∷ rest) = rw (print_item-is_empty i.base i.step, non_empty-texts rest) refl

split_list-print_field :
    (i : Item) (rest : List Item) → split_list (print_field i rest) ≡ ok (texts (i ∷ rest))
unfolding split_list
split_list-print_field i rest = ap some_items (
    ap non_empty
      (split-join b',' (print_item i.base i.step) (texts rest) (no_byte-texts (i ∷ rest)))
    ∙ non_empty-texts (i ∷ rest))

get_range_with_hash-print_item :
    (h : Hashing) (r : Bounds) (base : Base) (step : Option ℕ)
    → get_range_with_hash h r (print_item base step) ≡ get_range (print_item base step) r
unfolding get_range_with_hash has_prefix
get_range_with_hash-print_item h r base step =
    let s = print_item-Starts base step in
    let plain : has_prefix (print_item base step) (b'H' ∷ []) ≡ false =
      ap (λ (t : Text). has_prefix t (b'H' ∷ [])) s.text ∙ rw s.plain refl in
    rw plain refl

-- The bits that a list of items adds to those before it.
join_items-texts :
    (h : Hashing) (r : Bounds) (l : List Item) (before : ℕ)
    → AreItems r l
    → (bits : ℕ) × (join_items (get_range_with_hash h r) (texts l) before ≡ ok bits)
      × ((v : ℕ) → v < 63 → test_bit v bits ≡ (test_bit v before || has_value r l v))
unfolding join_items
join_items-texts h r [] before a = (before, refl, λ v lt. ground arith)
join_items-texts h r (i ∷ rest) before (one, others) =
    let (bit, read, values) = get_range-print_item r i.base i.step one in
    let (bits, all, sum) = join_items-texts h r rest (bit_or before bit) others in
    (
      bits,
      rw (get_range_with_hash-print_item h r i.base i.step, read) all,
      λ v lt. ground (arith, sum v lt, test_bit-or v before bit, values v lt),
    )

-- A field that is written out, items with commas between them, is read back by getFieldWithHash as the values of its items: where no name of the field starts with a digit and the bounds of the field are below 63 and in order, for items in the field that do not wrap around and whose steps are from 1 to 2^63 - 1, and smaller than the number of values from their start to their end, for a number to that of the field, 1, or accepted as lenient, it succeeds, and of the values below 63 its bits are those that one of the items has; the steps from a number have values up to the end of the field, or up to the field's step end if it has one (6 for the weekday field under DowStepToSaturday), unless the number is past the step end or the step end is past the field.
pub get_field_with_hash-print_field :
    (h : Hashing) (r : Bounds) (i : Item) (rest : List Item)
    → AreItems r (i ∷ rest)
    → (bits : ℕ) × (get_field_with_hash h r (print_field i rest) ≡ ok bits)
      × ((v : ℕ) → v < 63 → test_bit v bits ≡ has_value r (i ∷ rest) v)
unfolding get_field_with_hash
get_field_with_hash-print_field h r i rest a =
    let (bits, read, values) = join_items-texts h r (i ∷ rest) 0 a in
    (
      bits,
      rw (split_list-print_field i rest) read,
      λ v lt. values v lt ∙ ground (arith, test_bit-zero v),
    )
