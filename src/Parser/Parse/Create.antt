-- ===== src/Parser/Parse/Create.antt =====
-- parser.go: how a `Parser` is made.
use go_cron.Prelude.{
  ◌+◌, ◌≡◌, ap, true, false, not, ◌&&◌, ltb, ◌==◌, ◌⊎◌, inl, inr, List, [], length, arith,
}
use mathlib.Core.Path.{subst}
use go_cron.Prelude.Int.{ℤ, pos}
use go_cron.Parser.Result.{
  Result, ok, err, ◌>>◌, refuse, refuse-ok, ok_inj, no_fields, many_optionals, wrong_field_count,
}
use go_cron.Parser.Text.{Text}
use go_cron.Parser.Options.{ParseOptions, count, count_configured_fields, normalize_fields}
use go_cron.Parser.Options.Count.{accepts, normalize_fields-Normalized}
use go_cron.Parser.Parse.{Parser}

-- The interval is `time.Second`, the least one for `@every`.
unfoldable pub try_new_parser : ParseOptions → Result Parser
try_new_parser o = do
  refuse ((count_configured_fields o == 0) && not o.descriptor) no_fields
  refuse (ltb 1 (count o.dow_optional + count o.second_optional)) many_optionals
  ok (record {
    options = o;
    min_every_interval = pos 1000000000;
    max_search_years = pos 0;
    hash_key = [];
  })

unfoldable pub with_min_every_interval : Parser → ℤ → Parser
with_min_every_interval p d = record p { min_every_interval = d }

unfoldable pub with_max_search_years : Parser → ℤ → Parser
with_max_search_years p years = record p { max_search_years = years }

unfoldable pub with_hash_key : Parser → Text → Parser
with_hash_key p key = record p { hash_key = key }

unfoldable pub with_second_optional : Parser → Parser
with_second_optional p = record p {
  options = record p.options {
    second_optional = true;
    minute = true;
    hour = true;
    dom = true;
    month = true;
    dow = true;
  };
}

-- A parser that TryNewParser returns splits a spec into six fields whenever it has a number of fields that the options allow, and otherwise reports just that number.
pub try_new_parser-normalize_fields :
    (o : ParseOptions) (p : Parser) (fields : List Text)
    → try_new_parser o ≡ ok p
    → ((normalize_fields fields p.options ≡ err wrong_field_count) × (accepts o fields ≡ false))
      ⊎ ((accepts o fields ≡ true)
          × ((l : List Text) × (normalize_fields fields p.options ≡ ok l) × (length l ≡ 6)))
unfolding try_new_parser
try_new_parser-normalize_fields o p fields e =
    let (some_field, e1) =
      refuse-ok ((count_configured_fields o == 0) && not o.descriptor) no_fields _ p e in
    let (one, e2) =
      refuse-ok (ltb 1 (count o.dow_optional + count o.second_optional)) many_optionals _ p e1 in
    let same : o ≡ p.options = ap (λ (q : Parser). q.options) (ok_inj _ p e2) in
    subst
      (λ (q : ParseOptions).
        ((normalize_fields fields q ≡ err wrong_field_count) × (accepts o fields ≡ false))
        ⊎ ((accepts o fields ≡ true)
            × ((l : List Text) × (normalize_fields fields q ≡ ok l) × (length l ≡ 6))))
      same
      (elim (normalize_fields-Normalized fields o) [
        | inl (both, twice) ↦ absurd (ground (arith, twice, one))
        | inr (single, r) ↦ r
      ])
