-- ===== src/Parser/Days.antt =====
-- parser.go: the day-of-month and day-of-week fields with L, W and # items.
pub mod Within
use Prim.Native.Nat.{bit_and, bit_or}
use go_cron.Prelude.{
  ℕ, ◌+◌, ◌-◌, ◌^◌, Bool, true, false, not, ◌&&◌, ◌||◌, ltb, leb, ◌==◌, if◌then◌else◌, List, [],
  ◌∷◌, ◌++◌, Option, none, some,
}
use go_cron.Prelude.Int.{ℤ, pos, negsuc}
use go_cron.Spec.{
  DomConstraint, last, last_offset, last_weekday, nearest_weekday, DowConstraint, normalize_dow,
}
use go_cron.Parser.{Bounds}
use go_cron.Parser.Result.{
  Result, ok, err, ◌>>=◌, ◌>>◌, refuse, missing_weekday, missing_occurrence, bad_weekday,
  bad_occurrence, option_required, bad_offset, bad_day,
}
use go_cron.Parser.Text.{
  Text, same, is_empty, has_prefix, contains_byte, cut, to_upper, drop, init, ends_with,
}
use go_cron.Parser.Range.{must_parse_int, parse_int_or_name}
use go_cron.Parser.Field.{split_list, Hashing, get_range_with_hash, get_field_with_hash}

-- The bits of the plain items of a field and its constraints.
pub record Days {ℓ} (C : Type ℓ) : Type ℓ where
  pub bits : ℕ
  pub constraints : List C

-- The occurrence behind `#`; -1 is the last one.
unfoldable pub parse_occurrence : Text → Bool → Bool → Result ℤ
parse_occurrence part allow_nth allow_last =
    if same (to_upper part) (b'L' ∷ [])
    then (if allow_last then ok (negsuc 0) else err option_required)
    else if not allow_nth
    then err option_required
    else do n ← must_parse_int part; refuse (ltb n 1 || ltb 5 n) bad_occurrence; ok (pos n)

-- The parts before and after `#`.
unfoldable pub parse_dow_constraint : Text → Text → Bounds → Bool → Bool → Result DowConstraint
parse_dow_constraint weekday_part nth_part r allow_nth allow_last = do
  refuse (is_empty weekday_part) missing_weekday
  refuse (is_empty nth_part) missing_occurrence
  weekday ← parse_int_or_name weekday_part r.names
  refuse (ltb weekday r.min || ltb r.max weekday) bad_weekday
  n ← parse_occurrence nth_part allow_nth allow_last
  ok (record { weekday = if weekday == 7 then 0 else weekday; n = n })

abbrev pub add_constraint {ℓ} : {C : Type ℓ} → Days C → C → Days C
add_constraint d c = record { bits = d.bits; constraints = d.constraints ++ (c ∷ []) }

abbrev pub add_bits {ℓ} : {C : Type ℓ} → Days C → ℕ → Days C
add_bits d b = record { bits = bit_or d.bits b; constraints = d.constraints }

-- An item that is cut at `#` or has none.
unfoldable pub dow_part :
    Hashing
    → Bounds
    → Bool
    → Bool
    → Text
    → Days DowConstraint
    → Option (Text × Text)
    → Result (Days DowConstraint)
dow_part h r allow_nth allow_last expr d none = do
  b ← get_range_with_hash h r expr
  ok (add_bits d b)
dow_part h r allow_nth allow_last expr d (some (weekday, nth)) = do
  c ← parse_dow_constraint weekday nth r allow_nth allow_last
  ok (add_constraint d c)

unfoldable pub dow_item :
    Hashing → Bounds → Bool → Bool → Text → Days DowConstraint → Result (Days DowConstraint)
dow_item h r allow_nth allow_last expr d = dow_part h r allow_nth allow_last expr d (cut b'#' expr)

-- The loop over the items of a field.
unfoldable pub items_from {ℓ} :
    {C : Type ℓ} → (Text → Days C → Result (Days C)) → List Text → Days C → Result (Days C)
items_from item [] d = ok d
items_from item (expr ∷ rest) d = item expr d >>= λ d'. items_from item rest d'

abbrev pub no_days {ℓ} : {C : Type ℓ} → Days C
no_days = record { bits = 0; constraints = [] }

unfoldable pub get_dow_field_with_constraints :
    Hashing → Bounds → Bool → Bool → Text → Result (Days DowConstraint)
get_dow_field_with_constraints h r allow_nth allow_last field = do
  items ← split_list field
  items_from (dow_item h r allow_nth allow_last) items no_days

unfoldable pub parse_dom_l_constraint : Text → Text → Bool → Bool → Result DomConstraint
parse_dom_l_constraint expr upper allow_l allow_w =
    if same upper (b'L' ∷ [])
    then (if allow_l then ok last else err option_required)
    else if same upper (b'L' ∷ b'W' ∷ [])
    then (if allow_w then ok last_weekday else err option_required)
    else if has_prefix upper (b'L' ∷ b'-' ∷ [])
    then (do
      refuse (not allow_l) option_required
      n ← must_parse_int (drop 2 expr)
      refuse (ltb n 1 || ltb 30 n) bad_offset
      ok (last_offset n))
    else err bad_offset

unfoldable pub parse_dom_w_constraint : Text → Result DomConstraint
parse_dom_w_constraint upper = do
  n ← must_parse_int (init upper)
  refuse (ltb n 1 || ltb 31 n) bad_day
  ok (nearest_weekday n)

unfoldable pub dom_item :
    Hashing → Bounds → Bool → Bool → Text → Days DomConstraint → Result (Days DomConstraint)
dom_item h r allow_l allow_w expr d =
    let upper = to_upper expr in
    if has_prefix upper (b'L' ∷ [])
    then (do
      refuse (not allow_l && not allow_w) option_required
      c ← parse_dom_l_constraint expr upper allow_l allow_w
      ok (add_constraint d c))
    else if allow_w && ends_with b'W' upper
    then (do c ← parse_dom_w_constraint upper; ok (add_constraint d c))
    else if contains_byte b'W' upper
    then err option_required
    else do b ← get_range_with_hash h r expr; ok (add_bits d b)

unfoldable pub get_dom_field_with_constraints :
    Hashing → Bounds → Bool → Bool → Text → Result (Days DomConstraint)
get_dom_field_with_constraints h r allow_l allow_w field = do
  items ← split_list field
  items_from (dom_item h r allow_l allow_w) items no_days

abbrev pub plain {ℓ} : {C : Type ℓ} → ℕ → Days C
plain b = record { bits = b; constraints = [] }

unfoldable pub parse_dom_field : Hashing → Bounds → Bool → Bool → Text → Result (Days DomConstraint)
parse_dom_field h r allow_l allow_w field =
    let upper = to_upper field in
    let has_special = contains_byte b'L' upper || contains_byte b'W' upper in
    if (allow_l || allow_w) && has_special
    then get_dom_field_with_constraints h r allow_l allow_w field
    else if has_special
    then err option_required
    else do b ← get_field_with_hash h r field; ok (plain b)

abbrev pub normalized : Days DowConstraint → Days DowConstraint
normalized d = record { bits = normalize_dow d.bits; constraints = d.constraints }

unfoldable pub parse_dow_field : Hashing → Bounds → Bool → Bool → Text → Result (Days DowConstraint)
parse_dow_field h r allow_nth allow_last field =
    let has_hash = contains_byte b'#' field in
    if (allow_nth || allow_last) && has_hash
    then (do d ← get_dow_field_with_constraints h r allow_nth allow_last field; ok (normalized d))
    else if has_hash
    then err option_required
    else do b ← get_field_with_hash h r field; ok (plain (normalize_dow b))
