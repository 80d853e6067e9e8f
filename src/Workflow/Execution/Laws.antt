-- ===== src/Workflow/Execution/Laws.antt =====
-- The calls of `evaluateChildren` as a relation, and that they come to an end.
use go_cron.Prelude.{
  ℕ, zero, suc, ◌+◌, ◌≤◌, ◌<◌, ◌≡◌, ◌≢◌, refl, sym, ◌∙◌, true, false, ◌==◌, ==_iff, if◌then◌else◌,
  Bool-cases, ◌⊎◌, inl, inr, List, [], ◌∷◌, some, arith,
}
use go_cron.Workflow.{JobResult, result_skipped}
use go_cron.Workflow.Graph.{set, children_of}
use go_cron.Workflow.Execution.{
  Results, result_of, Plan, Execution, pending, Action, leave, start, skip, skip_through,
  child_action, with_skipped, with_started, evaluate,
}

-- What the loop over some children makes of an execution, child by child.
pub data Evaluates (plan : Plan) : List ℕ → Execution → Execution → Type 0 where
  done : {e : Execution} → Evaluates plan [] e e
  leaves :
      {c : ℕ} {rest : List ℕ} {e f : Execution}
      → child_action plan e.results c ≡ leave
      → Evaluates plan rest e f
      → Evaluates plan (c ∷ rest) e f
  starts :
      {c : ℕ} {rest : List ℕ} {e f : Execution}
      → child_action plan e.results c ≡ start
      → Evaluates plan rest (with_started e c) f
      → Evaluates plan (c ∷ rest) e f
  skips :
      {c : ℕ} {rest : List ℕ} {e f : Execution}
      → child_action plan e.results c ≡ skip
      → Evaluates plan rest (with_skipped e c) f
      → Evaluates plan (c ∷ rest) e f
  follows :
      {c : ℕ} {rest : List ℕ} {e g f : Execution}
      → child_action plan e.results c ≡ skip_through
      → Evaluates plan (children_of plan.parent_to_children c) (with_skipped e c) g
      → Evaluates plan rest g f
      → Evaluates plan (c ∷ rest) e f

pub result_of-set :
    (results : Results) (id j : ℕ) (r : JobResult)
    → result_of (set results id r) j ≡ (if id == j then some r else result_of results j)
unfolding result_of set
result_of-set [] id j r = refl
result_of-set ((k, x) ∷ rest) id j r = elim (Bool-cases (k == id)) [
  | inl t ↦
      let e : k ≡ id = (==_iff k id).0 t in
      rw (t, e) (elim (Bool-cases (id == j)) [ inl q ↦ rw q refl | inr q ↦ rw q refl ])
  | inr t ↦
      let ih = result_of-set rest id j r in
      rw (t, ih)
        (elim (Bool-cases (k == j)) [
          | inl q ↦ let other : (id == j) ≡ false = ground (arith, q, t) in rw (q, other) refl
          | inr q ↦ rw q refl
        ])
]

-- The number of pending results.
unfoldable pub waiting : Results → ℕ
waiting [] = 0
waiting ((k, r) ∷ rest) = (if pending (some r) then 1 else 0) + waiting rest

waiting-skipped :
    (results : Results) (c : ℕ)
    → pending (result_of results c) ≡ true
    → waiting (set results c result_skipped) + 1 ≡ waiting results
unfolding waiting result_of set
waiting-skipped [] c h = cc
waiting-skipped ((k, r) ∷ rest) c h = elim (Bool-cases (k == c)) [
  | inl t ↦ let now : pending (some r) ≡ true = rw t at h in rw (t, now) (omega arith)
  | inr t ↦ let ih = waiting-skipped rest c (rw t at h) in rw t (omega (arith, ih))
]

pub waiting-set :
    (results : Results) (c : ℕ) (r : JobResult)
    → pending (some r) ≡ false
    → waiting (set results c r) ≤ waiting results
unfolding waiting set
waiting-set [] c r h = rw h (omega arith)
waiting-set ((k, x) ∷ rest) c r h = elim (Bool-cases (k == c)) [
  | inl t ↦ rw (t, h) (ground arith)
  | inr t ↦ let ih = waiting-set rest c r h in rw t (omega (arith, ih))
]

-- A child that is not left alone is pending.
pub child_action-pending :
    (plan : Plan) (results : Results) (c : ℕ) (a : Action)
    → child_action plan results c ≡ a
    → (a ≡ leave) ⊎ (pending (result_of results c) ≡ true)
unfolding child_action
child_action-pending plan results c a h = elim (Bool-cases (pending (result_of results c))) [
  | inl t ↦ inr t
  | inr t ↦ inl (sym h ∙ rw t refl)
]

Action-cases : (a : Action) → (a ≡ leave) ⊎ (a ≡ start) ⊎ (a ≡ skip) ⊎ (a ≡ skip_through)
Action-cases leave = inl refl
Action-cases start = inr (inl refl)
Action-cases skip = inr (inr (inl refl))
Action-cases skip_through = inr (inr (inr refl))

-- The calls end with an execution, and do not add pending results.
abbrev pub Evaluated : ℕ → Plan → List ℕ → Execution → Type 0
Evaluated fuel plan l e =
    (f : Execution) × (evaluate fuel plan l e ≡ some f)
    × Evaluates plan l e f
    × (waiting f.results ≤ waiting e.results)

is_pending :
    (plan : Plan) (results : Results) (c : ℕ) (a : Action)
    → child_action plan results c ≡ a
    → a ≢ leave
    → pending (result_of results c) ≡ true
is_pending plan results c a h n = elim (child_action-pending plan results c a h) [
  | inl e ↦ absurd (n e)
  | inr p ↦ p
]

pub evaluate-Evaluated :
    (fuel : ℕ) (plan : Plan) (l : List ℕ) (e : Execution)
    → waiting e.results < fuel
    → Evaluated fuel plan l e
unfolding evaluate
evaluate-Evaluated zero plan l e h = absurd (omega arith)
evaluate-Evaluated (suc fuel) plan [] e h = (e, refl, done, omega arith)
evaluate-Evaluated (suc fuel) plan (c ∷ rest) e h =
    elim (Action-cases (child_action plan e.results c)) [
      | inl a ↦
          let (f, at, steps, few) = evaluate-Evaluated (suc fuel) plan rest e h in
          (f, rw (evaluate, a) at, leaves a steps, few)
      | inr (inl a) ↦
          let (f, at, steps, few) = evaluate-Evaluated (suc fuel) plan rest (with_started e c) h in
          (f, rw (evaluate, a) at, starts a steps, few)
      | inr (inr (inl a)) ↦
          let less = waiting-skipped e.results c (is_pending plan e.results c skip a (λ q. cc)) in
          let (f, at, steps, few) =
            evaluate-Evaluated (suc fuel) plan rest (with_skipped e c) (omega (arith, less)) in
          (f, rw (evaluate, a) at, skips a steps, omega (arith, few, less))
      | inr (inr (inr a)) ↦
          let less =
            waiting-skipped e.results c (is_pending plan e.results c skip_through a (λ q. cc)) in
          let (g, inner, below, fewer) =
            evaluate-Evaluated fuel plan (children_of plan.parent_to_children c) (with_skipped e c)
              (omega (arith, less)) in
          let (f, at, steps, few) =
            evaluate-Evaluated (suc fuel) plan rest g (omega (arith, fewer, less)) in
          (f, rw (evaluate, a, inner) at, follows a below steps, omega (arith, few, fewer, less))
    ]
