-- ===== src/Schedule/Union/Laws.antt =====
-- When a union runs.
use go_cron.Prelude.{
  ◌≤◌, ◌<◌, refl, ◌⊎◌, Bool-cases, inl, inr, List, [], ◌∷◌, Option, none, some, arith,
}
use mathlib.Core.List.{Memᴰ}
use mathlib.Core.List.Memᴰ.{head, tail}
use mathlib.Core.Path.{subst}
use go_cron.Time.Wall.{Time, before}
use go_cron.Schedule.{Schedule}
use go_cron.Schedule.Union
use go_cron.Schedule.Union.{UnionSchedule, earlier, next_from, zero_ns}

-- A time that a predicate holds of, later than `t`, with none between; `none` if there is none.
abbrev pub IsNextRun : (Time → Type 0) → Time → Option Time → Type 0
IsNextRun Runs t none = (u : Time) → t.ns < u.ns → ¬ (Runs u)
IsNextRun Runs t (some n) =
    Runs n × (t.ns < n.ns) × ((u : Time) → t.ns < u.ns → u.ns < n.ns → ¬ (Runs u))

abbrev pub Either : (Time → Type 0) → (Time → Type 0) → Time → Type 0
Either P Q u = P u ⊎ Q u

earlier-IsNextRun :
    (P Q : Time → Type 0) (t : Time) (m n : Option Time)
    → IsNextRun P t m
    → IsNextRun Q t n
    → IsNextRun (Either P Q) t (earlier m n)
unfolding earlier
earlier-IsNextRun P Q t none none p q = λ u a e. elim e [ inl r ↦ p u a r | inr r ↦ q u a r ]
earlier-IsNextRun P Q t (some m) none p q =
    (inl p.0, p.1, λ u a b e. elim e [ inl r ↦ p.2 u a b r | inr r ↦ q u a r ])
earlier-IsNextRun P Q t none (some n) p q =
    (inr q.0, q.1, λ u a b e. elim e [ inl r ↦ p u a r | inr r ↦ q.2 u a b r ])
earlier-IsNextRun P Q t (some m) (some n) p q = elim (Bool-cases (before n m)) [
  | inl c ↦
      let lt : n.ns < m.ns = ground arith in
      rw c
        (inr q.0, q.1, λ u a b e. elim e [ inl r ↦ p.2 u a (omega arith) r | inr r ↦ q.2 u a b r ])
  | inr c ↦
      let le : m.ns ≤ n.ns = ground arith in
      rw c
        (inl p.0, p.1, λ u a b e. elim e [ inl r ↦ p.2 u a b r | inr r ↦ q.2 u a (omega arith) r ])
]

-- The time of the next run depends on the times at which a predicate holds alone.
IsNextRun-map :
    (P Q : Time → Type 0) (t : Time) (n : Option Time)
    → ((u : Time) → P u → Q u)
    → ((u : Time) → Q u → P u)
    → IsNextRun P t n
    → IsNextRun Q t n
IsNextRun-map P Q t none f g p = λ u a q. p u a (g u q)
IsNextRun-map P Q t (some n) f g p = (f n p.0, p.1, λ u a b q. p.2 u a b (g u q))

module _ (Runs : Schedule → Time → Type 0) where
  -- One of the schedules runs at `u`.
  abbrev pub AnyRuns : List Schedule → Time → Type 0
  AnyRuns l u = (s : Schedule) × Memᴰ s l × Runs s u

  -- `Next` of the schedule `s` is its next run.
  abbrev pub IsExact : Time → Schedule → Type 0
  IsExact t s = IsNextRun (Runs s) t (s.next t)

  next_from-IsNextRun :
      (P : Time → Type 0) (l : List Schedule) (n : Option Time) (t : Time)
      → ((s : Schedule) → Memᴰ s l → IsExact t s)
      → IsNextRun P t n
      → IsNextRun (Either P (AnyRuns l)) t (next_from l n t)
  unfolding next_from
  next_from-IsNextRun P [] n t exact p =
      IsNextRun-map P _ t n (λ u r. inl r) (λ u e. elim e [ inl r ↦ r | inr a ↦ elim a.1 [ ] ]) p
  next_from-IsNextRun P (s ∷ rest) n t exact p =
      let step = earlier-IsNextRun P (Runs s) t n (s.next t) p (exact s (head refl)) in
      let ih =
        next_from-IsNextRun (Either P (Runs s)) rest (earlier n (s.next t)) t
          (λ s' m. exact s' (tail m)) step in
      IsNextRun-map _ _ t _
        (λ u e. elim e [
          | inl (inl r) ↦ inl r
          | inl (inr r) ↦ inr (s, head refl, r)
          | inr (s', m, r) ↦ inr (s', tail m, r)
        ])
        (λ u e. elim e [ inl r ↦ inl (inl r) | inr (s', m, r) ↦ split u s' m r ]) ih
    where
      split :
          (u : Time) (s' : Schedule)
          → Memᴰ s' (s ∷ rest)
          → Runs s' u
          → Either (Either P (Runs s)) (AnyRuns rest) u
      split u s' (head e) r = inl (inr (subst (λ (x : Schedule). Runs x u) e r))
      split u s' (tail m) r = inr (s', m, r)

  -- Where every schedule's `Next` is its next run, or the zero time if it has none, the union's is
  -- the next time at which any of them runs.
  pub next-IsNextRun :
      (u : UnionSchedule) (t : Time)
      → ((s : Schedule) → Memᴰ s u.schedules → IsExact t s)
      → IsNextRun (AnyRuns u.schedules) t (Union.next u t)
  unfolding Union.next
  next-IsNextRun u t exact =
      IsNextRun-map _ _ t _ (λ v e. elim e [ inl b ↦ elim b [ ] | inr r ↦ r ]) (λ v r. inr r)
        (next_from-IsNextRun (λ v. ⊥) u.schedules none t exact (λ v a r. r))
