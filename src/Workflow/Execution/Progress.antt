-- ===== src/Workflow/Execution/Progress.antt =====
-- No job that can run is forgotten.
use go_cron.Prelude.{
  ℕ, ◌<◌, ◌≡◌, ◌≢◌, refl, sym, ap, ◌∙◌, Bool, true, false, ◌&&◌, ◌||◌, ◌==◌, ==_iff, Bool-cases,
  ◌⊎◌, inl, inr, List, [], ◌∷◌, ◌++◌, Option, none, some, arith,
}
use mathlib.Core.Path.{subst}
use go_cron.Workflow.{JobResult, result_skipped, Dependency, deps_of}
use go_cron.Workflow.Graph.{has_parent, contains, set, children_of}
use go_cron.Workflow.Execution.{
  Results, result_of, Plan, is_paused, Execution, resolved, has_deps, should_trigger_child,
  all_resolved, all_parents_resolved, pending, leave, skip, trigger_action, child_action,
  with_skipped, with_started, evaluate_children, JobDone, event_result, process_workflow_event,
}
use go_cron.Workflow.Execution.Laws.{
  Evaluates, done, leaves, starts, skips, follows, result_of-set, waiting, waiting-set,
  evaluate-Evaluated,
}

-- Every child of a dependency is listed under its parent, and an entry that has dependencies exists.
pub record IsPlan (plan : Plan) : Type 0 where
  pub mirror :
      (c p : ℕ)
      → has_parent p (deps_of plan.entry_deps c) ≡ true
      → contains c (children_of plan.parent_to_children p) ≡ true
  pub entries :
      (c : ℕ) → has_deps (deps_of plan.entry_deps c) ≡ true → is_paused plan.paused c ≢ none

-- A job that is pending and has dependencies, on parents that all have a terminal result.
pub record IsReady (plan : Plan) (results : Results) (c : ℕ) : Type 0 where
  pub waits : pending (result_of results c) ≡ true
  pub child : has_deps (deps_of plan.entry_deps c) ≡ true
  pub parents : all_parents_resolved plan results c ≡ true

-- Every job that is ready has started, or is still to be looked at.
abbrev pub Handled : Plan → Execution → List ℕ → Type 0
Handled plan e todo =
    (c : ℕ) → IsReady plan e.results c → (contains c e.started ≡ true) ⊎ (contains c todo ≡ true)

contains-append : (c : ℕ) (l m : List ℕ) → contains c (l ++ m) ≡ (contains c l || contains c m)
contains-append c [] m = refl
contains-append c (x ∷ l) m = ground (arith, contains-append c l m)

ready-leave :
    (plan : Plan) (results : Results) (c : ℕ)
    → IsReady plan results c
    → child_action plan results c ≢ leave
unfolding child_action trigger_action
ready-leave plan results c r h = elim (Bool-cases (should_trigger_child plan results c)) [
  | inl t ↦ paused (is_paused plan.paused c) (rw (r.waits, t) at h)
  | inr t ↦ cc (rw (r.waits, t, r.parents) at h)
]
  where
    paused : (p : Option Bool) → trigger_action p ≢ leave
    paused none e = cc
    paused (some true) e = cc
    paused (some false) e = cc

trigger_action-skip : (p : Option Bool) → trigger_action p ≡ skip → p ≡ none
unfolding trigger_action
trigger_action-skip none e = refl
trigger_action-skip (some true) e = cc
trigger_action-skip (some false) e = cc

-- Only an entry that does not exist is skipped without a look at its children.
skip-is_paused :
    (plan : Plan) (results : Results) (c : ℕ)
    → child_action plan results c ≡ skip
    → (has_deps (deps_of plan.entry_deps c) ≡ true) × (is_paused plan.paused c ≡ none)
unfolding child_action should_trigger_child
skip-is_paused plan results c h = elim (Bool-cases (pending (result_of results c))) [
  | inr w ↦ cc (rw w at h)
  | inl w ↦ elim (Bool-cases (should_trigger_child plan results c)) [
    | inl t ↦ (ground (arith, t), trigger_action-skip (is_paused plan.paused c) (rw (w, t) at h))
    | inr t ↦ elim (Bool-cases (all_parents_resolved plan results c)) [
      | inl q ↦ cc (rw (w, t, q) at h)
      | inr q ↦ cc (rw (w, t, q) at h)
    ]
  ]
]

-- A parent that is new among the results.
all_resolved-set :
    (results : Results) (p : ℕ) (r : JobResult) (ds : List Dependency)
    → all_resolved (set results p r) ds ≡ true
    → (all_resolved results ds ≡ true) ⊎ (has_parent p ds ≡ true)
unfolding all_resolved
all_resolved-set results p r [] h = inl refl
all_resolved-set results p r (d ∷ ds) h = elim (Bool-cases (d.parent_id == p)) [
  | inl t ↦ inr (rw t refl)
  | inr t ↦
      let other : (p == d.parent_id) ≡ false = ground (arith, t) in
      let same : result_of (set results p r) d.parent_id ≡ result_of results d.parent_id =
        result_of-set results p d.parent_id r ∙ rw other refl in
      let (now, rest) = both {a = resolved (result_of results d.parent_id)} (rw same at h) in
      elim (all_resolved-set results p r ds rest) [ inl e ↦ inl (rw now e) | inr e ↦ inr (rw t e) ]
]
  where
    both : {a b : Bool} → (a && b) ≡ true → (a ≡ true) × (b ≡ true)
    both h = ground (arith, h)

-- After an entry gets a result, only its own children can have become ready.
set-Handled :
    (plan : Plan) (e : Execution) (c : ℕ) (r : JobResult) (rest : List ℕ)
    → IsPlan plan
    → pending (some r) ≡ false
    → Handled plan e (c ∷ rest)
    → Handled plan
        (record e { results = set e.results c r })
        (children_of plan.parent_to_children c ++ rest)
unfolding all_parents_resolved
set-Handled plan e c r rest p terminal h x ready = elim (Bool-cases (c == x)) [
  | inl t ↦
      let now : result_of (set e.results c r) x ≡ some r =
        result_of-set e.results c x r ∙ rw t refl in
      cc (sym ready.waits ∙ ap pending now ∙ terminal)
  | inr t ↦
      let old : result_of (set e.results c r) x ≡ result_of e.results x =
        result_of-set e.results c x r ∙ rw t refl in
      let more = contains-append x (children_of plan.parent_to_children c) rest in
      elim (all_resolved-set e.results c r (deps_of plan.entry_deps x) ready.parents) [
        | inl before ↦
            let was : IsReady plan e.results x = record {
              waits = ap pending (sym old) ∙ ready.waits;
              child = ready.child;
              parents = before;
            } in
            elim (h x was) [
              | inl started ↦ inl started
              | inr todo ↦ inr (ground (arith, more, todo, t))
            ]
        | inr parent ↦ let child = p.mirror x c parent in inr (ground (arith, more, child))
      ]
]

same_child :
    (plan : Plan) (results : Results) (c x : ℕ)
    → (c == x) ≡ true
    → IsReady plan results x
    → IsReady plan results c
same_child plan results c x t r = subst (IsReady plan results) (sym ((==_iff c x).0 t)) r

-- The loop over some children keeps the promise for the entries that are still to be looked at.
Evaluates-Handled :
    (plan : Plan) (l rest : List ℕ) (e f : Execution)
    → IsPlan plan
    → Evaluates plan l e f
    → Handled plan e (l ++ rest)
    → Handled plan f rest
Evaluates-Handled plan [] rest e f p done h = h
Evaluates-Handled plan (c ∷ l) rest e f p (leaves a steps) h =
    Evaluates-Handled plan l rest e f p steps (λ x r. elim (Bool-cases (c == x)) [
      | inl t ↦ absurd (ready-leave plan e.results c (same_child plan e.results c x t r) a)
      | inr t ↦ let now = h x r in ground (arith, now, t)
    ])
Evaluates-Handled plan (c ∷ l) rest e f p (starts a steps) h =
    Evaluates-Handled plan l rest (with_started e c) f p steps
      (λ x r. let now = h x r in ground (arith, now))
Evaluates-Handled plan (c ∷ l) rest e f p (skips a steps) h =
    let gone = skip-is_paused plan e.results c a in absurd (p.entries c gone.0 gone.1)
Evaluates-Handled plan (c ∷ l) rest e f p (follows {g = g} a below steps) h =
    let inner =
      Evaluates-Handled plan (children_of plan.parent_to_children c) (l ++ rest) (with_skipped e c)
        g p below (set-Handled plan e c result_skipped (l ++ rest) p refl h) in
    Evaluates-Handled plan l rest g f p steps inner

event_result-pending : (event : JobDone) → pending (some (event_result event)) ≡ false
unfolding event_result
event_result-pending event = elim (Bool-cases event.panicked) [
  | inl t ↦ rw t refl
  | inr t ↦ elim (Bool-cases event.skipped) [ inl u ↦ rw (t, u) refl | inr u ↦ rw (t, u) refl ]
]

-- Call a job ready that is pending in the execution, has dependencies, and whose parents all have a terminal result. Where every ready job has started, every child of a dependency is listed under its parent, and every entry that has dependencies exists, an event of a job that is done is processed with fuel for more rounds than results are pending; it ends, and again every ready job has started.
pub process_workflow_event-Handled :
    (fuel : ℕ) (plan : Plan) (e : Execution) (event : JobDone)
    → IsPlan plan
    → Handled plan e []
    → waiting e.results < fuel
    → (f : Execution) × (process_workflow_event fuel plan e event ≡ some f) × Handled plan f []
unfolding process_workflow_event evaluate_children
process_workflow_event-Handled fuel plan e event p h lt =
    let id = event.entry_id in
    let r = event_result event in
    let children = children_of plan.parent_to_children id in
    let fewer = waiting-set e.results id r (event_result-pending event) in
    let all : Handled plan e (id ∷ []) =
      λ x ready. elim (h x ready) [ inl t ↦ inl t | inr t ↦ cc ] in
    let start = record e { results = set e.results id r } in
    let (f, at, steps, few) =
      evaluate-Evaluated fuel plan children start (omega (arith, fewer, lt)) in
    (
      f,
      at,
      Evaluates-Handled plan children [] start f p steps
          (set-Handled plan e id r [] p (event_result-pending event) all),
    )
