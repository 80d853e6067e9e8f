-- ===== src/Workflow/Tests/Runs.antt =====
-- Runs of cron.go's functions for workflows.
use go_cron.Prelude.{
  ◌⊎◌, inl, inr, sym, ap, ◌∙◌, ◌==◌, ==_iff, Bool-cases, false, ℕ, ◌<◌, ◌≡◌, ◌≢◌, none, refl, true,
  [], ◌∷◌, some, arith,
}
use mathlib.Core.Path.{subst}
use go_cron.Workflow
use go_cron.Workflow.{
  Dependency, Deps, on_success, on_failure, on_skipped, result_pending, result_success,
}
use go_cron.Workflow.Execution.{
  Plan, Execution, has_deps, all_parents_resolved, all_resolved, is_paused, result_of,
  evaluate_children, process_workflow_event, JobDone,
}
use go_cron.Workflow.Execution.Laws.{waiting}
use go_cron.Workflow.Execution.Progress.{IsPlan, Handled, process_workflow_event-Handled}
use go_cron.Workflow.Execution.Conditions.{MayStart}
use go_cron.Workflow.Execution.Started.{Later, evaluate_children-MayStart}
use go_cron.Workflow.Cycle
use go_cron.Workflow.Cycle.{has_cycle}
use go_cron.Workflow.Graph.Removal.{remove_dependency, remove_entry_dependencies}
use go_cron.Workflow.Graph.Mirror.{occurrences, one_if, IsMirror}
use go_cron.Workflow.Graph.Mirror.Kept.{remove_dependency-IsMirror, add_dependency-IsMirror}
use go_cron.Workflow.Graph.Mirror.Removed.{remove_entry_dependencies-IsMirror}
use go_cron.Workflow.Graph.{
  add_edge, has_edge, has_parent, Graph, add_dependency, contains, children_of,
}
use go_cron.Workflow.Tests.{after_success, after_failure}

-- 3 runs after 1 succeeds and 2 is skipped, and 2 after 1 fails.
abbrev triangle : Plan
triangle = record {
  entry_deps =
      (2, after_failure 1 ∷ [])
      ∷ (3, after_success 1 ∷ record { parent_id = 2; condition = on_skipped } ∷ [])
      ∷ [];
  parent_to_children = (1, 2 ∷ 3 ∷ []) ∷ (2, 3 ∷ []) ∷ [];
  paused = (1, false) ∷ (2, false) ∷ (3, false) ∷ [];
}

abbrev first_done : Execution
first_done = record {
  results = (1, result_success) ∷ (2, result_pending) ∷ (3, result_pending) ∷ [];
  started = 1 ∷ [];
}

results :
    (result_of first_done.results 1 ≡ some result_success)
    × (result_of first_done.results 2 ≡ some result_pending)
    × (result_of first_done.results 3 ≡ some result_pending)
unfolding result_of
results = (refl, refl, refl)

two_waiting : waiting first_done.results < 3
unfolding waiting
two_waiting = omega arith

evaluate_children-MayStart_example :
    (f : Execution) × (evaluate_children 3 triangle first_done 1 ≡ some f)
    × Later first_done.results f.results
    × ((id : ℕ)
        → contains id f.started ≡ true
        → (contains id first_done.started ≡ true) ⊎ MayStart triangle f.results id)
evaluate_children-MayStart_example = evaluate_children-MayStart 3 triangle first_done 1 two_waiting

-- 2 runs after 1.
abbrev chain : Plan
chain = record {
  entry_deps = (2, after_success 1 ∷ []) ∷ [];
  parent_to_children = (1, 2 ∷ []) ∷ [];
  paused = (1, false) ∷ (2, false) ∷ [];
}

no_deps : (c : ℕ) → (2 == c) ≡ false → Workflow.deps_of chain.entry_deps c ≡ []
unfolding Workflow.deps_of
no_deps c e = rw e refl

no_child : (c : ℕ) → (2 == c) ≡ false → has_deps (Workflow.deps_of chain.entry_deps c) ≢ true
no_child c e h = cc (sym h ∙ ap has_deps (no_deps c e))

second_mirror :
    (p : ℕ)
    → has_parent p (Workflow.deps_of chain.entry_deps 2) ≡ true
    → contains 2 (children_of chain.parent_to_children p) ≡ true
unfolding Workflow.deps_of children_of
second_mirror p h = elim (Bool-cases (1 == p)) [ inl u ↦ rw u refl | inr u ↦ ground (arith, h, u) ]

second_entry : is_paused chain.paused 2 ≢ none
unfolding is_paused
second_entry e = cc

chain-IsPlan : IsPlan chain
chain-IsPlan = record {
  mirror = λ c p. elim (Bool-cases (2 == c)) [
    | inl t ↦
        subst
          (λ (n : ℕ).
            has_parent p (Workflow.deps_of chain.entry_deps n) ≡ true
            → contains n (children_of chain.parent_to_children p) ≡ true)
          ((==_iff 2 c).0 t) (second_mirror p)
    | inr t ↦ λ h. cc (sym h ∙ ap (has_parent p) (no_deps c t))
  ];
  entries = λ c h. elim (Bool-cases (2 == c)) [
    | inl t ↦ subst (λ (n : ℕ). is_paused chain.paused n ≢ none) ((==_iff 2 c).0 t) second_entry
    | inr t ↦ absurd (no_child c t h)
  ];
}

abbrev waits_for_first : Execution
waits_for_first = record {
  results = (1, result_pending) ∷ (2, result_pending) ∷ [];
  started = 1 ∷ [];
}

second_waits : all_parents_resolved chain waits_for_first.results 2 ≢ true
unfolding all_parents_resolved all_resolved Workflow.deps_of result_of Workflow.is_terminal
second_waits e = cc

first_running : Handled chain waits_for_first []
first_running c r = elim (Bool-cases (2 == c)) [
  | inl t ↦ absurd (
      second_waits (
        subst (λ (n : ℕ). all_parents_resolved chain waits_for_first.results n ≡ true)
          (sym ((==_iff 2 c).0 t)) r.parents))
  | inr t ↦ absurd (no_child c t r.child)
]

still_waiting : waiting waits_for_first.results < 3
unfolding waiting
still_waiting = omega arith

abbrev first_succeeds : JobDone
first_succeeds = record { entry_id = 1; panicked = false; skipped = false }

process_workflow_event-Handled_example :
    (f : Execution) × (process_workflow_event 3 chain waits_for_first first_succeeds ≡ some f)
    × Handled chain f []
process_workflow_event-Handled_example =
    process_workflow_event-Handled 3 chain waits_for_first first_succeeds chain-IsPlan first_running
      still_waiting

-- The maps of the chain 1, 2 agree.
abbrev chained : Graph
chained = record {
  entries = 1 ∷ 2 ∷ 3 ∷ [];
  entry_deps = chain.entry_deps;
  parent_to_children = chain.parent_to_children;
}

chained_second :
    (p : ℕ)
    → occurrences 2 (children_of chained.parent_to_children p)
      ≡ one_if (has_parent p (Workflow.deps_of chained.entry_deps 2))
unfolding occurrences children_of Workflow.deps_of
chained_second p = elim (Bool-cases (1 == p)) [ inl t ↦ rw t refl | inr t ↦ rw t refl ]

chained_other :
    (x p : ℕ)
    → (2 == x) ≡ false
    → occurrences x (children_of chained.parent_to_children p)
      ≡ one_if (has_parent p (Workflow.deps_of chained.entry_deps x))
unfolding occurrences children_of Workflow.deps_of
chained_other x p e = elim (Bool-cases (1 == p)) [ inl t ↦ rw (t, e) refl | inr t ↦ rw (t, e) refl ]

chained-IsMirror : IsMirror chained
chained-IsMirror x p = elim (Bool-cases (2 == x)) [
  | inl t ↦
      subst
        (λ (n : ℕ).
          occurrences n (children_of chained.parent_to_children p)
          ≡ one_if (has_parent p (Workflow.deps_of chained.entry_deps n)))
        ((==_iff 2 x).0 t) (chained_second p)
  | inr t ↦ chained_other x p t
]

remove_dependency-IsMirror_example :
    IsMirror (remove_dependency chained 2 1)
    × (has_parent 1 (Workflow.deps_of (remove_dependency chained 2 1).entry_deps 2) ≡ false)
remove_dependency-IsMirror_example = remove_dependency-IsMirror chained 2 1 chained-IsMirror

remove_entry_dependencies-IsMirror_example :
    IsMirror (remove_entry_dependencies chained 1)
    × ((x : ℕ)
        → (has_parent x (Workflow.deps_of (remove_entry_dependencies chained 1).entry_deps 1)
            ≡ false)
          × (has_parent 1 (Workflow.deps_of (remove_entry_dependencies chained 1).entry_deps x)
              ≡ false))
remove_entry_dependencies-IsMirror_example =
    remove_entry_dependencies-IsMirror chained 1 chained-IsMirror

longer : add_dependency 6 chained 3 2 on_success ≡ some (inr (add_edge chained 3 2 on_success))
unfolding add_dependency Workflow.is_valid has_cycle Cycle.search Cycle.is_visited
    Cycle.push_parents Workflow.deps_of has_edge
longer = refl

add_dependency-IsMirror_example : IsMirror (add_edge chained 3 2 on_success)
add_dependency-IsMirror_example =
    add_dependency-IsMirror 6 chained (add_edge chained 3 2 on_success) 3 2 on_success
      chained-IsMirror longer
