-- ===== src/Parser/Zone.antt =====
-- parser.go: the time zone in front of a spec. `time.LoadLocation` is a parameter.
use go_cron.Prelude.{
  ℕ, Bool, true, not, ◌&&◌, ◌||◌, ltb, leb, ◌==◌, if◌then◌else◌, [], ◌∷◌, length, Option, none,
  some,
}
use go_cron.Time.Wall.{Location}
use go_cron.Parser.Result.{Result, ok, err, ◌>>=◌, ◌>>◌, refuse, missing_fields, bad_timezone}
use go_cron.Parser.Text.{Text, is_empty, is_space, has_prefix, ends_with, cut, drop, init}

unfoldable pub is_valid_timezone_char : ℕ → Bool
is_valid_timezone_char r =
    if leb b'A' r && leb r b'Z'
    then true
    else if leb b'a' r && leb r b'z'
    then true
    else if leb b'0' r && leb r b'9'
    then true
    else (r == b'/') || (r == b'_') || (r == b'-') || (r == b'+') || (r == b':')

unfoldable pub all_valid : Text → Bool
all_valid [] = true
all_valid (r ∷ tz) = is_valid_timezone_char r && all_valid tz

unfoldable pub validate_timezone : Text → Result (Unit {0})
validate_timezone tz = do
  refuse (is_empty tz) bad_timezone
  refuse (ltb 64 (length tz)) bad_timezone
  refuse (not (all_valid tz)) bad_timezone

abbrev pub is_quoted : ℕ → Text → Bool
is_quoted quote s = has_prefix s (quote ∷ []) && ends_with quote s

unfoldable pub strip_quotes : Text → Text
strip_quotes s =
    if leb 2 (length s) && (is_quoted b'"' s || is_quoted b'\'' s) then init (drop 1 s) else s

-- `strings.TrimSpace`
unfoldable pub trim_left : Text → Text
trim_left [] = []
trim_left (c ∷ s) = let rest = trim_left s in if is_space c then rest else c ∷ s

unfoldable pub trim_right : Text → Text
trim_right [] = []
trim_right (c ∷ s) = let rest = trim_right s in if is_space c && is_empty rest then [] else c ∷ rest

-- The text of a zone behind "=", which the prefix has.
unfoldable pub zone_name : Text → Text
zone_name s = elim (cut b'=' s) [ none ↦ [] | some (key, name) ↦ strip_quotes name ]

unfoldable pub load_zone : (Text → Option Location) → Text → Result (Option Location)
load_zone load_location name = elim (load_location name) [
  | none ↦ err bad_timezone
  | some loc ↦ ok (some loc)
]

abbrev pub has_zone : Text → Bool
has_zone spec =
    has_prefix spec (b'T' ∷ b'Z' ∷ b'=' ∷ [])
    || has_prefix spec (b'C' ∷ b'R' ∷ b'O' ∷ b'N' ∷ b'_' ∷ b'T' ∷ b'Z' ∷ b'=' ∷ [])

-- The location, `none` for `time.Local`, and the rest of the spec.
unfoldable pub parse_timezone : (Text → Option Location) → Text → Result (Option Location × Text)
parse_timezone load_location spec =
    if not (has_zone spec) then ok (none, spec) else elim (cut b' ' spec) [
      | none ↦ err missing_fields
      | some (zone, rest) ↦ do
        validate_timezone (zone_name zone)
        loc ← load_zone load_location (zone_name zone)
        refuse (is_empty (trim_right (trim_left rest))) missing_fields
        ok (loc, trim_right (trim_left rest))
    ]
