-- ===== src/Spec/Search/Lands.antt =====
-- What a loop of the search may return in a location with one UTC offset, from the wall second
-- `lo` on: a second that passes its test, or one within its unit, `end` at most, to go on from.
use native.Mathlib.Decide.{dec_lt}
use go_cron.Prelude.{ℕ, ◌≤◌, ◌<◌, ◌≡◌, refl, Bool, true, false, ◌&&◌, Option, some, arith}
use go_cron.Prelude.Int.{ℤ}
use go_cron.Spec.Fixed.{at}
use go_cron.Spec.Search.{Moved}

-- No second from `lo` up to `hi` passes the test.
abbrev pub Skips : (ℕ → Bool) → ℕ → ℕ → Type 0
Skips test lo hi = (u : ℕ) → lo ≤ u → u < hi → test u ≡ false

abbrev pub Outcome : (ℕ → Bool) → ℕ → ℕ → ℕ → Bool → Type 0
Outcome test lo end v false = (lo ≤ v) × (v < end) × (test v ≡ true) × Skips test lo v
Outcome test lo end v true = (lo < v) × (v ≤ end) × Skips test lo v

pub Skips-join : (test : ℕ → Bool) (a b c : ℕ) → Skips test a b → Skips test b c → Skips test a c
Skips-join test a b c h k u p q = elim (dec_lt u b) [
  | yes lt ↦ h u p lt
  | no ge ↦ k u (omega arith) q
]

pub Skips-none : (test : ℕ → Bool) (a : ℕ) → Skips test a a
Skips-none test a u p q = absurd (omega arith)

pub Outcome-extend :
    (test : ℕ → Bool) (lo mid end v : ℕ) (wrap : Bool)
    → lo ≤ mid
    → Skips test lo mid
    → Outcome test mid end v wrap
    → Outcome test lo end v wrap
Outcome-extend test lo mid end v true h k (a, b, c) = (omega arith, b, Skips-join test lo mid v k c)
Outcome-extend test lo mid end v false h k (a, b, c, d) =
    (omega arith, b, c, Skips-join test lo mid v k d)

module _ (off : ℤ) (test : ℕ → Bool) where
  pub record Lands (lo end : ℕ) (r : Option Moved) : Type 0 where
    pub wall : ℕ
    pub added : Bool
    pub wrap : Bool
    pub returns : r ≡ some (record { time = at off wall; added = added; wrap = wrap })
    pub outcome : Outcome test lo end wall wrap

  pub Lands-extend :
      (lo mid end : ℕ) (r : Option Moved)
      → lo ≤ mid
      → Skips test lo mid
      → Lands mid end r
      → Lands lo end r
  Lands-extend lo mid end r h k l = record {
    wall = l.wall;
    added = l.added;
    wrap = l.wrap;
    returns = l.returns;
    outcome = Outcome-extend test lo mid end l.wall l.wrap h k l.outcome;
  }

  pub Lands-here :
      (lo end : ℕ) (added : Bool)
      → lo < end
      → test lo ≡ true
      → Lands lo end (some (record { time = at off lo; added = added; wrap = false }))
  Lands-here lo end added h e = record {
    wall = lo;
    added = added;
    wrap = false;
    returns = refl;
    outcome = (omega arith, h, e, Skips-none test lo);
  }

  pub Lands-wrap :
      (lo v end : ℕ) (added : Bool)
      → lo < v
      → v ≤ end
      → Skips test lo v
      → Lands lo end (some (record { time = at off v; added = added; wrap = true }))
  Lands-wrap lo v end added h k s = record {
    wall = v;
    added = added;
    wrap = true;
    returns = refl;
    outcome = (h, k, s);
  }

and_false : (b : Bool) → (b && false) ≡ false
and_false true = refl
and_false false = refl

-- Both tests of two loops, one inside the other.
abbrev pub both : (ℕ → Bool) → (ℕ → Bool) → ℕ → Bool
both a b u = a u && b u

pub Skips-both_left : (a b : ℕ → Bool) (lo hi : ℕ) → Skips a lo hi → Skips (both a b) lo hi
Skips-both_left a b lo hi s u p q = rw (s u p q)

pub Skips-both_right : (a b : ℕ → Bool) (lo hi : ℕ) → Skips b lo hi → Skips (both a b) lo hi
Skips-both_right a b lo hi s u p q = rw (s u p q) (and_false (a u))

-- `a` is as it is at `lo` up to `hi`.
abbrev pub Keeps : (ℕ → Bool) → ℕ → ℕ → Type 0
Keeps a lo hi = (u : ℕ) → lo ≤ u → u < hi → a u ≡ a lo

pub Outcome-nest :
    (a b : ℕ → Bool) (lo v e end w : ℕ) (wrap : Bool)
    → lo ≤ v
    → a v ≡ true
    → Skips a lo v
    → e ≤ end
    → Keeps a v e
    → Outcome b v e w wrap
    → Outcome (both a b) lo end w wrap
Outcome-nest a b lo v e end w true h t s k keep (p, q, r) = (
  omega arith,
  omega arith,
  Skips-join (both a b) lo v w (Skips-both_left a b lo v s) (Skips-both_right a b v w r),
)
Outcome-nest a b lo v e end w false h t s k keep (p, q, r, f) = (
  omega arith,
  omega arith,
  rw (keep w p q, t, r),
  Skips-join (both a b) lo v w (Skips-both_left a b lo v s) (Skips-both_right a b v w f),
)
