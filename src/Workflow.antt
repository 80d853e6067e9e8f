-- ===== src/Workflow.antt =====
-- workflow.go: the dependencies between the jobs of a workflow.
pub mod Cycle
pub mod Graph
pub mod Execution
mod Tests
use go_cron.Prelude.{ℕ, Bool, true, false, ◌==◌, if◌then◌else◌, List, [], ◌∷◌}
use go_cron.Prelude.Int.{ℤ}

-- The four constants, and any other value that the type's `int` can have.
pub data TriggerCondition : Type 0 where
  on_success on_failure on_skipped on_complete : TriggerCondition
  other_condition : ℤ → TriggerCondition

pub data JobResult : Type 0 where
  result_pending result_success result_failure result_skipped : JobResult

unfoldable pub is_terminal : JobResult → Bool
is_terminal result_pending = false
is_terminal result_success = true
is_terminal result_failure = true
is_terminal result_skipped = true

-- `Valid`
unfoldable pub is_valid : TriggerCondition → Bool
is_valid on_success = true
is_valid on_failure = true
is_valid on_skipped = true
is_valid on_complete = true
is_valid (other_condition n) = false

unfoldable pub matches : TriggerCondition → JobResult → Bool
matches on_success result_success = true
matches on_failure result_failure = true
matches on_skipped result_skipped = true
matches on_complete r = is_terminal r
matches c r = false

pub record Dependency : Type 0 where
  pub parent_id : ℕ
  pub condition : TriggerCondition

-- `map[EntryID][]Dependency`; the first pair of a key counts.
abbrev pub Deps : Type 0
Deps = List (ℕ × List Dependency)

unfoldable pub deps_of : Deps → ℕ → List Dependency
deps_of [] id = []
deps_of ((k, d) ∷ rest) id = if k == id then d else deps_of rest id
