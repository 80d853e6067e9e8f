-- ===== src/Workflow/Cycle.antt =====
-- workflow.go: `hasCycle`.
pub mod Fuel
pub mod Laws
use go_cron.Prelude.{
  ℕ, zero, suc, ◌+◌, Bool, true, false, ◌||◌, ◌==◌, if◌then◌else◌, List, [], ◌∷◌, Option, none,
  some,
}
use go_cron.Workflow.{Dependency, Deps, deps_of}

-- `visited[id]`; the entries whose value is true.
unfoldable pub is_visited : ℕ → List ℕ → Bool
is_visited id [] = false
is_visited id (v ∷ rest) = (v == id) || is_visited id rest

-- The inner loop; the last element of the source's stack is the first of the list.
unfoldable pub push_parents : List ℕ → List Dependency → List ℕ → List ℕ
push_parents visited [] stack = stack
push_parents visited (d ∷ ds) stack =
    push_parents visited ds (if is_visited d.parent_id visited then stack else d.parent_id ∷ stack)

-- The loop, on fuel.
unfoldable pub search : ℕ → Deps → ℕ → List ℕ → List ℕ → Option Bool
search zero deps child visited stack = none
search (suc fuel) deps child visited [] = some false
search (suc fuel) deps child visited (current ∷ stack) =
    let skip = search fuel deps child visited stack in
    let enter =
      search fuel deps child (current ∷ visited)
        (push_parents (current ∷ visited) (deps_of deps current) stack) in
    if current == child then some true else if is_visited current visited then skip else enter

unfoldable pub has_cycle : ℕ → Deps → ℕ → ℕ → Option Bool
has_cycle fuel deps new_child new_parent =
    let found = search fuel deps new_child [] (new_parent ∷ []) in
    if new_child == new_parent then some true else found
