-- ===== src/Workflow/Tests.antt =====
-- Runs of workflow.go's functions.
mod Runs
use go_cron.Prelude.{
  ◌⊎◌, inl, inr, sym, ap, ◌∙◌, ◌==◌, ==_iff, if◌then◌else◌, Bool-cases, false, ℕ, ◌<◌, ◌≡◌, ◌≢◌,
  none, refl, Bool, true, [], ◌∷◌, some, arith,
}
use mathlib.Core.List.{Memᴰ}
use mathlib.Core.List.Memᴰ.{eq_of_singleton}
use mathlib.Core.Path.{subst}
use go_cron.Prelude.Int.{pos}
use go_cron.Workflow
use go_cron.Workflow.{
  other_condition, Dependency, Deps, on_success, on_failure, on_skipped, result_pending,
  result_success, result_skipped,
}
use go_cron.Workflow.Execution.{
  Plan, Execution, has_deps, all_parents_resolved, all_resolved, is_paused, result_of,
  evaluate_children, process_workflow_event, JobDone,
}
use go_cron.Workflow.Execution.Laws.{waiting}
use go_cron.Workflow.Execution.Progress.{IsPlan, Handled, process_workflow_event-Handled}
use go_cron.Workflow.Execution.Conditions.{MayStart}
use go_cron.Workflow.Execution.Started.{Later, evaluate_children-MayStart}
use go_cron.Workflow.Execution.Twice.{IsTriangle}
use go_cron.Workflow.Cycle
use go_cron.Workflow.Cycle.{has_cycle}
use go_cron.Workflow.Graph.Removal.{remove_dependency, remove_entry_dependencies}
use go_cron.Workflow.Graph.Mirror.{occurrences, one_if, IsMirror}
use go_cron.Workflow.Graph.Mirror.Kept.{remove_dependency-IsMirror, add_dependency-IsMirror}
use go_cron.Workflow.Graph.Mirror.Removed.{remove_entry_dependencies-IsMirror}
use go_cron.Workflow.Graph.{
  add_edge, has_edge, has_parent, Graph, AddError, invalid_condition, add_dependency, contains, set,
  children_of,
}
use go_cron.Workflow.Graph.Laws.{IsAcyclic, IsAdded, add_dependency-IsAdded}
use go_cron.Workflow.Cycle.Laws.{Parent, Ancestor, itself, above, Verdict, has_cycle-Verdict}

abbrev after_success : ℕ → Dependency
after_success p = record { parent_id = p; condition = on_success }

abbrev after_failure : ℕ → Dependency
after_failure p = record { parent_id = p; condition = on_failure }

-- 4 runs after 2 and 3, both of which run after 1.
abbrev diamond : Deps
diamond =
    (4, after_success 2 ∷ after_failure 3 ∷ [])
    ∷ (3, after_success 1 ∷ [])
    ∷ (2, after_success 1 ∷ [])
    ∷ []

closes_circle : has_cycle 6 diamond 1 4 ≡ some true
unfolding has_cycle Cycle.search Cycle.is_visited Cycle.push_parents Workflow.deps_of
closes_circle = refl

has_cycle-Verdict_example : (b : Bool) × (has_cycle 6 diamond 3 2 ≡ some b) × Verdict diamond 3 2 b
unfolding Cycle.Fuel.edges_left Cycle.is_visited
has_cycle-Verdict_example = has_cycle-Verdict diamond 3 2 6 (omega arith)

abbrev pair : Graph
pair = record {
  entries = 1 ∷ 2 ∷ 3 ∷ [];
  entry_deps = (2, after_success 1 ∷ []) ∷ [];
  parent_to_children = (1, 2 ∷ []) ∷ [];
}

not_child : (a b : ℕ) → Parent pair.entry_deps a b → (a ≡ 2) × (b ≡ 1)
unfolding Workflow.deps_of
not_child a b (d, m, e) = go (Bool-cases (2 == a)) m
  where
    go :
        ((2 == a) ≡ true) ⊎ ((2 == a) ≡ false)
        → Memᴰ d (if 2 == a then after_success 1 ∷ [] else [])
        → (a ≡ 2) × (b ≡ 1)
    go (inl t) n = (
      sym ((==_iff 2 a).0 t),
      sym e
          ∙ ap (λ (x : Dependency). x.parent_id)
              (eq_of_singleton
                (subst (λ (x : Bool). Memᴰ d (if x then after_success 1 ∷ [] else [])) t n)),
    )
    go (inr t) n =
        elim (subst (λ (x : Bool). Memᴰ d (if x then after_success 1 ∷ [] else [])) t n) [ ]

above_one : (a : ℕ) → Ancestor pair.entry_deps 1 a → a ≡ 1
above_one a itself = refl
above_one a (above {b = b} r p) = (not_child b a p).1

pair-IsAcyclic : IsAcyclic pair.entry_deps
pair-IsAcyclic a b p r =
    let q = not_child a b p in
    let one = above_one a (subst (λ (x : ℕ). Ancestor pair.entry_deps x a) q.1 r) in
    omega (arith, q.0, one)

add_dependency-IsAdded_example :
    (r : AddError ⊎ Graph) × (add_dependency 3 pair 3 2 on_failure ≡ some r)
    × IsAdded pair 3 2 on_failure r
unfolding Cycle.Fuel.edges_left Cycle.is_visited
add_dependency-IsAdded_example =
    add_dependency-IsAdded 3 pair 3 2 on_failure pair-IsAcyclic (omega arith)

-- A condition that is none of the constants.
unknown_condition :
    add_dependency 3 pair 3 2 (other_condition (pos 99)) ≡ some (inl invalid_condition)
unfolding add_dependency Workflow.is_valid
unknown_condition = refl
