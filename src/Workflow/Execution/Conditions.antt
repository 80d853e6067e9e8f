-- ===== src/Workflow/Execution/Conditions.antt =====
-- cron.go: the conditions under which `shouldTriggerChild` and `triggerWorkflowChild` start a job.
use go_cron.Prelude.{
  ℕ, ◌≡◌, ◌≢◌, refl, sym, ap, ◌∙◌, true, false, List, [], ◌∷◌, Option, none, some, arith,
}
use mathlib.Core.List.{Memᴰ}
use mathlib.Core.List.Memᴰ.{head, tail}
use mathlib.Core.Path.{subst}
use go_cron.Workflow.{
  JobResult, result_pending, result_success, result_failure, result_skipped, is_terminal,
  TriggerCondition, on_success, on_failure, on_skipped, on_complete, other_condition, matches,
  Dependency, deps_of,
}
use go_cron.Workflow.Execution.{
  Results, result_of, Plan, is_paused, has_deps, satisfied, all_satisfied, should_trigger_child,
}

-- The code's own test for a start.
abbrev pub ShouldStart : Plan → Results → ℕ → Type 0
ShouldStart plan results id =
    (should_trigger_child plan results id ≡ true) × (is_paused plan.paused id ≡ some false)

-- The results after which a job that depends on the parent with a condition may run.
pub data Allows : TriggerCondition → JobResult → Type 0 where
  success : Allows on_success result_success
  failure : Allows on_failure result_failure
  skipped : Allows on_skipped result_skipped
  after_success : Allows on_complete result_success
  after_failure : Allows on_complete result_failure
  after_skipped : Allows on_complete result_skipped

-- A parent has a result that the dependency's condition allows.
abbrev pub IsMet : Results → Dependency → Type 0
IsMet results d = (r : JobResult) × (result_of results d.parent_id ≡ some r) × Allows d.condition r

-- A job may start: it is an entry that is not paused, and has dependencies, all of which are met.
pub record MayStart (plan : Plan) (results : Results) (id : ℕ) : Type 0 where
  pub running : is_paused plan.paused id ≡ some false
  pub depends : deps_of plan.entry_deps id ≢ []
  pub met : (d : Dependency) → Memᴰ d (deps_of plan.entry_deps id) → IsMet results d

matches-Allows : (c : TriggerCondition) (r : JobResult) → matches c r ≡ true → Allows c r
unfolding matches is_terminal
matches-Allows on_success result_success e = success
matches-Allows on_success result_pending e = cc
matches-Allows on_success result_failure e = cc
matches-Allows on_success result_skipped e = cc
matches-Allows on_failure result_failure e = failure
matches-Allows on_failure result_pending e = cc
matches-Allows on_failure result_success e = cc
matches-Allows on_failure result_skipped e = cc
matches-Allows on_skipped result_skipped e = skipped
matches-Allows on_skipped result_pending e = cc
matches-Allows on_skipped result_success e = cc
matches-Allows on_skipped result_failure e = cc
matches-Allows on_complete result_pending e = cc
matches-Allows on_complete result_success e = after_success
matches-Allows on_complete result_failure e = after_failure
matches-Allows on_complete result_skipped e = after_skipped
matches-Allows (other_condition n) r e = cc

satisfied-IsMet :
    (results : Results) (d : Dependency)
    → satisfied (result_of results d.parent_id) d.condition ≡ true
    → IsMet results d
satisfied-IsMet results d h =
    elim (result_of results d.parent_id)
        as (λ (r : Option JobResult).
          satisfied r d.condition ≡ true → (x : JobResult) × (r ≡ some x) × Allows d.condition x) [
            | none ↦ λ e. cc
            | some r ↦ λ e. (r, refl, matches-Allows d.condition r (ground (arith, e)))
          ]
      h

all_satisfied-IsMet :
    (results : Results) (ds : List Dependency)
    → all_satisfied results ds ≡ true
    → (d : Dependency) → Memᴰ d ds
    → IsMet results d
unfolding all_satisfied
all_satisfied-IsMet results [] h d m = elim m [ ]
all_satisfied-IsMet results (x ∷ ds) h d (head e) =
    subst (IsMet results) (sym e) (satisfied-IsMet results x (ground (arith, h)))
all_satisfied-IsMet results (x ∷ ds) h d (tail m) =
    all_satisfied-IsMet results ds (ground (arith, h)) d m

pub should_trigger_child-MayStart :
    (plan : Plan) (results : Results) (id : ℕ)
    → ShouldStart plan results id
    → MayStart plan results id
unfolding should_trigger_child
should_trigger_child-MayStart plan results id (should, running) =
    let ds = deps_of plan.entry_deps id in
    let all : all_satisfied results ds ≡ true = ground (arith, should) in
    let some_deps : has_deps ds ≡ true = ground (arith, should) in
    record {
      running = running;
      depends = λ e. cc (sym some_deps ∙ ap has_deps e);
      met = all_satisfied-IsMet results ds all;
    }
