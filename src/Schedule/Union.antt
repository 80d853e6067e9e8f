-- ===== src/Schedule/Union.antt =====
-- union.go.
pub mod Laws
pub mod Backward
use mathlib.Core.Option
use go_cron.Prelude.{
  ℕ, ◌+◌, ◌*◌, ◌⊎◌, inl, inr, Bool, ◌&&◌, true, false, ltb, if◌then◌else◌, List, [], ◌∷◌, Option,
  none, some,
}
use go_cron.Time.Wall.{Time, before, nanos}
use go_cron.Schedule.{Schedule}

pub record UnionSchedule : Type 0 where
  pub schedules : List Schedule

-- `ErrEmptyUnion`, and the error for a schedule that is nil, with its position.
pub data UnionError : Type 0 where
  empty_union : UnionError
  nil_schedule : ℕ → UnionError

-- The loop of `Union`; a nil schedule is `none`.
unfoldable pub no_nil : ℕ → List (Option Schedule) → UnionError ⊎ List Schedule
no_nil i [] = inr []
no_nil i (none ∷ rest) = inl (nil_schedule i)
no_nil i (some s ∷ rest) = elim (no_nil (i + 1) rest) [ inl e ↦ inl e | inr l ↦ inr (s ∷ l) ]

unfoldable pub union : List (Option Schedule) → UnionError ⊎ UnionSchedule
union [] = inl empty_union
union (s ∷ rest) = elim (no_nil 0 (s ∷ rest)) [
  | inl e ↦ inl e
  | inr l ↦ inr (record { schedules = l })
]

-- The zero time, 0001-01-01.
abbrev pub zero_ns : ℕ
zero_ns = 31622400 * nanos

-- `p.After(prev)`, where either may be the zero time.
unfoldable pub after : Option Time → Option Time → Bool
after none none = false
after none (some q) = ltb q.ns zero_ns
after (some p) none = ltb zero_ns p.ns
after (some p) (some q) = ltb q.ns p.ns

-- The body of the loop in `Next`.
unfoldable pub earlier : Option Time → Option Time → Option Time
earlier next none = next
earlier none (some n) = some n
earlier (some m) (some n) = if before n m then some n else some m

unfoldable pub next_from : List Schedule → Option Time → Time → Option Time
next_from [] next t = next
next_from (s ∷ rest) next t = next_from rest (earlier next (s.next t)) t

unfoldable pub next : UnionSchedule → Time → Option Time
next u t = next_from u.schedules none t

-- The loop of `Prev`; it returns at once where a schedule has no `Prev`.
unfoldable pub prev_from : List Schedule → Option Time → Time → Option Time
prev_from [] prev t = prev
prev_from (s ∷ rest) prev t = elim s.prev [
  | none ↦ none
  | some sp ↦ prev_from rest (if after (sp t) prev then sp t else prev) t
]

unfoldable pub prev : UnionSchedule → Time → Option Time
prev u t = prev_from u.schedules none t
