-- ===== src/Workflow/Execution.antt =====
-- cron.go: a run of a workflow. `evaluateChildren` starts or skips the jobs that wait for a result.
pub mod Laws
pub mod Conditions
pub mod Progress
pub mod Started
pub mod Twice
use mathlib.Core.Option
use go_cron.Prelude.{
  ℕ, zero, suc, ◌+◌, Bool, true, false, not, ◌&&◌, ◌==◌, if◌then◌else◌, List, [], ◌∷◌, ◌++◌, Option,
  none, some,
}
use go_cron.Workflow.{
  JobResult, result_pending, result_success, result_failure, result_skipped, is_terminal,
  TriggerCondition, matches, Dependency, Deps, deps_of,
}
use go_cron.Workflow.Graph.{set, children_of}

-- `map[EntryID]JobResult`
abbrev pub Results : Type 0
Results = List (ℕ × JobResult)

unfoldable pub result_of : Results → ℕ → Option JobResult
result_of [] id = none
result_of ((k, r) ∷ rest) id = let other = result_of rest id in if k == id then some r else other

-- What `Cron` knows of its entries: `entryDeps`, `parentToChildren`, and the keys of `entryIndex`
-- with `Paused`.
pub record Plan : Type 0 where
  pub entry_deps : Deps
  pub parent_to_children : List (ℕ × List ℕ)
  pub paused : List (ℕ × Bool)

unfoldable pub is_paused : List (ℕ × Bool) → ℕ → Option Bool
is_paused [] id = none
is_paused ((k, b) ∷ rest) id = let other = is_paused rest id in if k == id then some b else other

-- `WorkflowExecution`, and the jobs that it has started, the last one first.
pub record Execution : Type 0 where
  pub results : Results
  pub started : List ℕ

abbrev pub resolved : Option JobResult → Bool
resolved none = false
resolved (some r) = is_terminal r

abbrev pub satisfied : Option JobResult → TriggerCondition → Bool
satisfied none c = false
satisfied (some r) c = is_terminal r && matches c r

unfoldable pub all_satisfied : Results → List Dependency → Bool
all_satisfied results [] = true
all_satisfied results (d ∷ ds) =
    satisfied (result_of results d.parent_id) d.condition && all_satisfied results ds

abbrev pub has_deps : List Dependency → Bool
has_deps [] = false
has_deps (d ∷ ds) = true

unfoldable pub should_trigger_child : Plan → Results → ℕ → Bool
should_trigger_child plan results child =
    all_satisfied results (deps_of plan.entry_deps child)
    && has_deps (deps_of plan.entry_deps child)

unfoldable pub all_resolved : Results → List Dependency → Bool
all_resolved results [] = true
all_resolved results (d ∷ ds) = resolved (result_of results d.parent_id) && all_resolved results ds

unfoldable pub all_parents_resolved : Plan → Results → ℕ → Bool
all_parents_resolved plan results child = all_resolved results (deps_of plan.entry_deps child)

abbrev pub pending : Option JobResult → Bool
pending none = false
pending (some result_pending) = true
pending (some result_success) = false
pending (some result_failure) = false
pending (some result_skipped) = false

-- What happens to a child: nothing, it starts, or it is skipped, without or with a look at its own
-- children.
pub data Action : Type 0 where
  leave start skip skip_through : Action

unfoldable pub trigger_action : Option Bool → Action
trigger_action none = skip
trigger_action (some true) = skip_through
trigger_action (some false) = start

unfoldable pub child_action : Plan → Results → ℕ → Action
child_action plan results child =
    if not (pending (result_of results child))
    then leave
    else if should_trigger_child plan results child
    then trigger_action (is_paused plan.paused child)
    else if all_parents_resolved plan results child
    then skip_through
    else leave

abbrev pub with_skipped : Execution → ℕ → Execution
with_skipped e child = record e { results = set e.results child result_skipped }

abbrev pub with_started : Execution → ℕ → Execution
with_started e child = record e { started = child ∷ e.started }

-- The loop over the children of an entry, on fuel for the depth of the calls.
unfoldable pub evaluate : ℕ → Plan → List ℕ → Execution → Option Execution
evaluate fuel plan [] e = some e
evaluate zero plan (child ∷ rest) e = none
evaluate (suc fuel) plan (child ∷ rest) e = elim (child_action plan e.results child) [
  | leave ↦ evaluate (suc fuel) plan rest e
  | start ↦ evaluate (suc fuel) plan rest (with_started e child)
  | skip ↦ evaluate (suc fuel) plan rest (with_skipped e child)
  | skip_through ↦
      elim (evaluate fuel plan (children_of plan.parent_to_children child) (with_skipped e child)) [
        | none ↦ none
        | some f ↦ evaluate (suc fuel) plan rest f
      ]
]

unfoldable pub evaluate_children : ℕ → Plan → Execution → ℕ → Option Execution
evaluate_children fuel plan e parent =
    evaluate fuel plan (children_of plan.parent_to_children parent) e

-- `jobDoneEvent`, for an execution that is active.
pub record JobDone : Type 0 where
  pub entry_id : ℕ
  pub panicked : Bool
  pub skipped : Bool

unfoldable pub event_result : JobDone → JobResult
event_result event =
    if event.panicked
    then result_failure
    else if event.skipped
    then result_skipped
    else result_success

unfoldable pub process_workflow_event : ℕ → Plan → Execution → JobDone → Option Execution
process_workflow_event fuel plan e event =
    evaluate_children fuel plan
      (record e { results = set e.results event.entry_id (event_result event) }) event.entry_id

unfoldable pub is_complete : Results → Bool
is_complete [] = true
is_complete ((k, r) ∷ rest) = is_terminal r && is_complete rest
