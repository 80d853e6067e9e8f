-- ===== src/Workflow/Execution/Started.antt =====
-- Which jobs `evaluateChildren` starts, and that it can start one twice.
use go_cron.Prelude.{
  ℕ, ◌<◌, ◌≡◌, ◌≢◌, refl, sym, ap, ◌∙◌, Bool, true, false, ◌==◌, ==_iff, Bool-cases, ◌⊎◌, inl, inr,
  List, [], ◌∷◌, Option, none, some, arith,
}
use mathlib.Core.Path.{subst}
use go_cron.Workflow.{
  JobResult, result_pending, result_success, result_failure, result_skipped, is_terminal,
  TriggerCondition, Dependency, deps_of,
}
use go_cron.Workflow.Graph.{contains, set, children_of}
use go_cron.Workflow.Execution.{
  Results, result_of, Plan, is_paused, Execution, satisfied, all_satisfied, should_trigger_child,
  all_parents_resolved, pending, Action, leave, start, skip, skip_through, trigger_action,
  child_action, with_skipped, with_started, evaluate_children,
}
use go_cron.Workflow.Execution.Laws.{
  Evaluates, done, leaves, starts, skips, follows, result_of-set, waiting, evaluate-Evaluated,
  child_action-pending,
}
use go_cron.Workflow.Execution.Conditions.{ShouldStart, MayStart, should_trigger_child-MayStart}

-- A result is only ever replaced while it is pending, by that of a job that is skipped.
abbrev pub Later : Results → Results → Type 0
Later before after =
    (id : ℕ)
    → (result_of after id ≡ result_of before id)
      ⊎ ((pending (result_of before id) ≡ true) × (result_of after id ≡ some result_skipped))

Later-trans : (a b c : Results) → Later a b → Later b c → Later a c
Later-trans a b c p q id = elim (q id) [
  | inl e ↦ elim (p id) [ inl f ↦ inl (e ∙ f) | inr (w, f) ↦ inr (w, e ∙ f) ]
  | inr (w, e) ↦ elim (p id) [ inl f ↦ inr (ap pending (sym f) ∙ w, e) | inr (v, f) ↦ inr (v, e) ]
]

Later-skipped :
    (results : Results) (c : ℕ)
    → pending (result_of results c) ≡ true
    → Later results (set results c result_skipped)
Later-skipped results c w id = elim (Bool-cases (c == id)) [
  | inl t ↦ inr (
    ap (λ (k : ℕ). pending (result_of results k)) (sym ((==_iff c id).0 t)) ∙ w,
    result_of-set results c id result_skipped ∙ rw t refl,
  )
  | inr t ↦ inl (result_of-set results c id result_skipped ∙ rw t refl)
]

must_wait :
    (plan : Plan) (results : Results) (c : ℕ) (a : Action)
    → child_action plan results c ≡ a
    → a ≢ leave
    → pending (result_of results c) ≡ true
must_wait plan results c a h n = elim (child_action-pending plan results c a h) [
  | inl e ↦ absurd (n e)
  | inr w ↦ w
]

pub Evaluates-Later :
    (plan : Plan) (l : List ℕ) (e f : Execution) → Evaluates plan l e f → Later e.results f.results
Evaluates-Later plan [] e f done = λ id. inl refl
Evaluates-Later plan (c ∷ l) e f (leaves a steps) = Evaluates-Later plan l e f steps
Evaluates-Later plan (c ∷ l) e f (starts a steps) =
    Evaluates-Later plan l (with_started e c) f steps
Evaluates-Later plan (c ∷ l) e f (skips a steps) =
    Later-trans e.results (set e.results c result_skipped) f.results
      (Later-skipped e.results c (must_wait plan e.results c skip a (λ q. cc)))
      (Evaluates-Later plan l (with_skipped e c) f steps)
Evaluates-Later plan (c ∷ l) e f (follows {g = g} a below steps) =
    Later-trans e.results (set e.results c result_skipped) f.results
      (Later-skipped e.results c (must_wait plan e.results c skip_through a (λ q. cc)))
      (Later-trans (set e.results c result_skipped) g.results f.results
        (Evaluates-Later plan (children_of plan.parent_to_children c) (with_skipped e c) g below)
        (Evaluates-Later plan l g f steps))

satisfied-Later :
    (a b : Option JobResult) (c : TriggerCondition)
    → (b ≡ a) ⊎ ((pending a ≡ true) × (b ≡ some result_skipped))
    → satisfied a c ≡ true
    → satisfied b c ≡ true
unfolding is_terminal
satisfied-Later a b c (inl e) h = ap (λ (r : Option JobResult). satisfied r c) e ∙ h
satisfied-Later none b c (inr (w, e)) h = cc
satisfied-Later (some result_pending) b c (inr (w, e)) h = cc
satisfied-Later (some result_success) b c (inr (w, e)) h = cc
satisfied-Later (some result_failure) b c (inr (w, e)) h = cc
satisfied-Later (some result_skipped) b c (inr (w, e)) h = cc

all_satisfied-Later :
    (before after : Results) (ds : List Dependency)
    → Later before after
    → all_satisfied before ds ≡ true
    → all_satisfied after ds ≡ true
unfolding all_satisfied
all_satisfied-Later before after [] l h = refl
all_satisfied-Later before after (d ∷ ds) l h =
    let a = result_of before d.parent_id in
    let first : satisfied a d.condition ≡ true = ground (arith, h) in
    let one = satisfied-Later a (result_of after d.parent_id) d.condition (l d.parent_id) first in
    let rest = all_satisfied-Later before after ds l (ground (arith, h)) in
    ground (arith, one, rest)

should_trigger_child-Later :
    (plan : Plan) (before after : Results) (c : ℕ)
    → Later before after
    → should_trigger_child plan before c ≡ true
    → should_trigger_child plan after c ≡ true
unfolding should_trigger_child
should_trigger_child-Later plan before after c l h =
    let all = all_satisfied-Later before after (deps_of plan.entry_deps c) l (ground (arith, h)) in
    ground (arith, all, h)

trigger_action-start : (p : Option Bool) → trigger_action p ≡ start → p ≡ some false
unfolding trigger_action
trigger_action-start none e = cc
trigger_action-start (some true) e = cc
trigger_action-start (some false) e = refl

child_action-start :
    (plan : Plan) (results : Results) (c : ℕ)
    → child_action plan results c ≡ start
    → (should_trigger_child plan results c ≡ true) × (is_paused plan.paused c ≡ some false)
unfolding child_action
child_action-start plan results c h = elim (Bool-cases (pending (result_of results c))) [
  | inr w ↦ cc (rw w at h)
  | inl w ↦ elim (Bool-cases (should_trigger_child plan results c)) [
    | inl t ↦ (t, trigger_action-start (is_paused plan.paused c) (rw (w, t) at h))
    | inr t ↦ elim (Bool-cases (all_parents_resolved plan results c)) [
      | inl q ↦ cc (rw (w, t, q) at h)
      | inr q ↦ cc (rw (w, t, q) at h)
    ]
  ]
]

Evaluates-ShouldStart :
    (plan : Plan) (l : List ℕ) (e f : Execution)
    → Evaluates plan l e f
    → (id : ℕ) → contains id f.started ≡ true
    → (contains id e.started ≡ true) ⊎ ShouldStart plan f.results id
Evaluates-ShouldStart plan [] e f done id s = inl s
Evaluates-ShouldStart plan (c ∷ l) e f (leaves a steps) id s =
    Evaluates-ShouldStart plan l e f steps id s
Evaluates-ShouldStart plan (c ∷ l) e f (starts a steps) id s =
    elim (Evaluates-ShouldStart plan l (with_started e c) f steps id s) [
      | inr may ↦ inr may
      | inl now ↦ elim (Bool-cases (c == id)) [
        | inl t ↦
            let (should, running) = child_action-start plan e.results c a in
            inr (
              subst (ShouldStart plan f.results) ((==_iff c id).0 t) (
                should_trigger_child-Later plan e.results f.results c
                    (Evaluates-Later plan l (with_started e c) f steps) should,
                running,
              ))
        | inr t ↦ inl (ground (arith, now, t))
      ]
    ]
Evaluates-ShouldStart plan (c ∷ l) e f (skips a steps) id s =
    Evaluates-ShouldStart plan l (with_skipped e c) f steps id s
Evaluates-ShouldStart plan (c ∷ l) e f (follows {g = g} a below steps) id s =
    elim (Evaluates-ShouldStart plan l g f steps id s) [
      | inr may ↦ inr may
      | inl now ↦
          elim (Evaluates-ShouldStart plan (children_of plan.parent_to_children c)
            (with_skipped e c) g below id now) [
              | inl before ↦ inl before
              | inr (should, running) ↦ inr (
                should_trigger_child-Later plan g.results f.results id
                    (Evaluates-Later plan l g f steps) should,
                running,
              )
            ]
    ]

-- With fuel for more rounds than results are pending, evaluateChildren ends; a result is only replaced while it is pending, by that of a skipped job, and every job that it starts and that had not started before is an entry that is not paused and has dependencies, each on a parent with a result that the condition allows: success, failure or skipped by the condition of that name, and any of the three by OnComplete.
pub evaluate_children-MayStart :
    (fuel : ℕ) (plan : Plan) (e : Execution) (parent : ℕ)
    → waiting e.results < fuel
    → (f : Execution) × (evaluate_children fuel plan e parent ≡ some f)
      × Later e.results f.results
      × ((id : ℕ)
          → contains id f.started ≡ true
          → (contains id e.started ≡ true) ⊎ MayStart plan f.results id)
unfolding evaluate_children
evaluate_children-MayStart fuel plan e parent lt =
    let children = children_of plan.parent_to_children parent in
    let (f, at, steps, few) = evaluate-Evaluated fuel plan children e lt in
    (
      f,
      at,
      Evaluates-Later plan children e f steps,
      λ id s. elim (Evaluates-ShouldStart plan children e f steps id s) [
        | inl before ↦ inl before
        | inr should ↦ inr (should_trigger_child-MayStart plan f.results id should)
      ],
    )
