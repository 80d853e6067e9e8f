-- ===== src/Workflow/Graph.antt =====
-- cron.go: the dependencies that the scheduler keeps for its entries, and `addDependencyDirect`.
pub mod Laws
pub mod Removal
pub mod Mirror
use mathlib.Core.Option
use go_cron.Prelude.{
  ℕ, Bool, true, false, not, ◌&&◌, ◌||◌, ◌==◌, if◌then◌else◌, List, [], ◌∷◌, ◌++◌, Option, none,
  some, ◌⊎◌, inl, inr,
}
use go_cron.Prelude.Int.{ℤ, pos, leb_ℤ}
use go_cron.Workflow.{
  TriggerCondition, on_success, on_failure, on_skipped, on_complete, other_condition, is_valid,
  Dependency, Deps, deps_of,
}
use go_cron.Workflow.Cycle.{is_visited, has_cycle}

-- The fields of `Cron` that hold the dependencies; `entries` are the keys of `entryIndex`.
pub record Graph : Type 0 where
  pub entries : List ℕ
  pub entry_deps : Deps
  pub parent_to_children : List (ℕ × List ℕ)

pub data AddError : Type 0 where
  invalid_condition entry_not_found cycle_detected : AddError

abbrev pub contains : ℕ → List ℕ → Bool
contains id [] = false
contains id (x ∷ xs) = (x == id) || contains id xs

-- Writing a key of a map, and reading one.
unfoldable pub set {ℓ} : {A : Type ℓ} → List (ℕ × A) → ℕ → A → List (ℕ × A)
set [] id x = (id, x) ∷ []
set ((k, y) ∷ rest) id x = if k == id then (k, x) ∷ rest else (k, y) ∷ set rest id x

unfoldable pub children_of : List (ℕ × List ℕ) → ℕ → List ℕ
children_of [] id = []
children_of ((k, l) ∷ rest) id = if k == id then l else children_of rest id

-- The condition as its `int`.
abbrev pub condition_code : TriggerCondition → ℤ
condition_code on_success = pos 0
condition_code on_failure = pos 1
condition_code on_skipped = pos 2
condition_code on_complete = pos 3
condition_code (other_condition n) = n

abbrev pub same_condition : TriggerCondition → TriggerCondition → Bool
same_condition a b =
    leb_ℤ (condition_code a) (condition_code b) && leb_ℤ (condition_code b) (condition_code a)

unfoldable pub has_edge : List Dependency → ℕ → TriggerCondition → Bool
has_edge [] parent c = false
has_edge (d ∷ ds) parent c =
    ((d.parent_id == parent) && same_condition d.condition c) || has_edge ds parent c

abbrev pub has_parent : ℕ → List Dependency → Bool
has_parent p [] = false
has_parent p (d ∷ ds) = (d.parent_id == p) || has_parent p ds

unfoldable pub add_edge : Graph → ℕ → ℕ → TriggerCondition → Graph
add_edge g child parent c =
    let children = children_of g.parent_to_children parent in
    record {
      entries = g.entries;
      entry_deps =
          set g.entry_deps child
            (deps_of g.entry_deps child ++ (record { parent_id = parent; condition = c } ∷ []));
      parent_to_children =
          if contains child children
          then g.parent_to_children
          else set g.parent_to_children parent (children ++ (child ∷ []));
    }

-- With fuel for the search of `hasCycle`.
unfoldable pub add_dependency : ℕ → Graph → ℕ → ℕ → TriggerCondition → Option (AddError ⊎ Graph)
add_dependency fuel g child parent c =
    if not (is_valid c)
    then some (inl invalid_condition)
    else if not (contains child g.entries)
    then some (inl entry_not_found)
    else if not (contains parent g.entries)
    then some (inl entry_not_found)
    else elim (has_cycle fuel g.entry_deps child parent) [
      | none ↦ none
      | some true ↦ some (inl cycle_detected)
      | some false ↦ some (
          inr (
            if has_edge (deps_of g.entry_deps child) parent c
            then g
            else add_edge g child parent c))
    ]
