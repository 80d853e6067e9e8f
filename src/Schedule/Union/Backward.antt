-- ===== src/Schedule/Union/Backward.antt =====
-- The last run of a union, `UnionSchedule.Prev`.
use mathlib.Core.List.{Memᴰ}
use mathlib.Core.List.Memᴰ.{head, tail}
use mathlib.Core.Path.{subst}
use go_cron.Prelude.{
  ◌≤◌, ◌<◌, ◌≡◌, refl, sym, false, ltb, if◌then◌else◌, Bool-cases, inl, inr, List, [], ◌∷◌, Option,
  none, some, arith,
}
use go_cron.Time.Wall.{Time}
use go_cron.Schedule.{Schedule}
use go_cron.Schedule.Union
use go_cron.Schedule.Union.{UnionSchedule, after, prev_from, zero_ns}
use go_cron.Schedule.Union.Laws.{Either, AnyRuns}

-- A time that a predicate holds of, before `t`, with none between; `none` if there is none after
-- the zero time.
abbrev pub IsLastRun : (Time → Type 0) → Time → Option Time → Type 0
IsLastRun Runs t none = (u : Time) → zero_ns < u.ns → u.ns < t.ns → ¬ (Runs u)
IsLastRun Runs t (some n) =
    Runs n × (n.ns < t.ns) × ((u : Time) → n.ns < u.ns → u.ns < t.ns → ¬ (Runs u))

abbrev AfterZero : Option Time → Type 0
AfterZero none = Unit
AfterZero (some p) = zero_ns < p.ns

abbrev later : Option Time → Option Time → Option Time
later p n = if after n p then n else p

later-IsLastRun :
    (P Q : Time → Type 0) (t : Time) (m n : Option Time)
    → AfterZero m
    → IsLastRun P t m
    → IsLastRun Q t n
    → IsLastRun (Either P Q) t (later m n) × AfterZero (later m n)
unfolding after
later-IsLastRun P Q t none none z p q =
    (λ u a b e. elim e [ inl r ↦ p u a b r | inr r ↦ q u a b r ], tt)
later-IsLastRun P Q t (some m) none z p q =
    let c : ltb m.ns zero_ns ≡ false = ground arith in
    rw c
      ((inl p.0, p.1, λ u a b e. elim e [ inl r ↦ p.2 u a b r | inr r ↦ q u (omega arith) b r ]), z)
later-IsLastRun P Q t none (some n) z p q = elim (Bool-cases (ltb zero_ns n.ns)) [
  | inl c ↦
      let lt : zero_ns < n.ns = ground arith in
      rw c (
        (inr q.0, q.1, λ u a b e. elim e [ inl r ↦ p u (omega arith) b r | inr r ↦ q.2 u a b r ]),
        lt,
      )
  | inr c ↦
      let le : n.ns ≤ zero_ns = ground arith in
      rw c ((λ u a b e. elim e [ inl r ↦ p u a b r | inr r ↦ q.2 u (omega arith) b r ]), tt)
]
later-IsLastRun P Q t (some m) (some n) z p q = elim (Bool-cases (ltb m.ns n.ns)) [
  | inl c ↦
      let lt : m.ns < n.ns = ground arith in
      let pos : zero_ns < n.ns = omega (arith, z, lt) in
      rw c (
        (inr q.0, q.1, λ u a b e. elim e [ inl r ↦ p.2 u (omega arith) b r | inr r ↦ q.2 u a b r ]),
        pos,
      )
  | inr c ↦
      let le : n.ns ≤ m.ns = ground arith in
      rw c (
        (inl p.0, p.1, λ u a b e. elim e [ inl r ↦ p.2 u a b r | inr r ↦ q.2 u (omega arith) b r ]),
        z,
      )
]

IsLastRun-map :
    (P Q : Time → Type 0) (t : Time) (n : Option Time)
    → ((u : Time) → P u → Q u)
    → ((u : Time) → Q u → P u)
    → IsLastRun P t n
    → IsLastRun Q t n
IsLastRun-map P Q t none f g p = λ u a b q. p u a b (g u q)
IsLastRun-map P Q t (some n) f g p = (f n p.0, p.1, λ u a b q. p.2 u a b (g u q))

prev_from-next :
    (s : Schedule) (rest : List Schedule) (n : Option Time) (t : Time) (sp : Time → Option Time)
    → s.prev ≡ some sp
    → prev_from (s ∷ rest) n t ≡ prev_from rest (later n (sp t)) t
unfolding prev_from
prev_from-next s rest n t sp e = rw e refl

module _ (Runs : Schedule → Time → Type 0) where
  -- `s` has a `Prev`, and it is its last run.
  abbrev pub IsExactBack : Time → Schedule → Type 0
  IsExactBack t s = (sp : Time → Option Time) × (s.prev ≡ some sp) × IsLastRun (Runs s) t (sp t)

  prev_from-IsLastRun :
      (P : Time → Type 0) (l : List Schedule) (n : Option Time) (t : Time)
      → ((s : Schedule) → Memᴰ s l → IsExactBack t s)
      → AfterZero n
      → IsLastRun P t n
      → IsLastRun (Either P (AnyRuns Runs l)) t (prev_from l n t)
  unfolding prev_from
  prev_from-IsLastRun P [] n t exact z p =
      IsLastRun-map P _ t n (λ u r. inl r) (λ u e. elim e [ inl r ↦ r | inr a ↦ elim a.1 [ ] ]) p
  prev_from-IsLastRun P (s ∷ rest) n t exact z p =
      let x = exact s (head refl) in
      let sp = x.0 in
      let step = later-IsLastRun P (Runs s) t n (sp t) z p x.2 in
      let ih =
        prev_from-IsLastRun (Either P (Runs s)) rest (later n (sp t)) t (λ s' m. exact s' (tail m))
          step.1 step.0 in
      let last = Either P (AnyRuns Runs (s ∷ rest)) in
      subst (IsLastRun last t) (sym (prev_from-next s rest n t sp x.1)) (
        IsLastRun-map _ last t _
          (λ u e. elim e [
            | inl (inl r) ↦ inl r
            | inl (inr r) ↦ inr (s, head refl, r)
            | inr (s', m, r) ↦ inr (s', tail m, r)
          ])
          (λ u e. elim e [ inl r ↦ inl (inl r) | inr (s', m, r) ↦ split u s' m r ]) ih)
    where
      split :
          (u : Time) (s' : Schedule)
          → Memᴰ s' (s ∷ rest)
          → Runs s' u
          → Either (Either P (Runs s)) (AnyRuns Runs rest) u
      split u s' (head e) r = inl (inr (subst (λ (x : Schedule). Runs x u) e r))
      split u s' (tail m) r = inr (s', m, r)

  -- Where every schedule has a `Prev` that is its last run, the union's is the last time after
  -- the zero time at which any of them ran.
  pub prev-IsLastRun :
      (u : UnionSchedule) (t : Time)
      → ((s : Schedule) → Memᴰ s u.schedules → IsExactBack t s)
      → IsLastRun (AnyRuns Runs u.schedules) t (Union.prev u t)
  unfolding Union.prev
  prev-IsLastRun u t exact =
      IsLastRun-map _ _ t _ (λ v e. elim e [ inl b ↦ elim b [ ] | inr r ↦ r ]) (λ v r. inr r)
        (prev_from-IsLastRun (λ v. ⊥) u.schedules none t exact tt (λ v a b r. r))
