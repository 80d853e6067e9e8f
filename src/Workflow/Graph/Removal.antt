-- ===== src/Workflow/Graph/Removal.antt =====
-- cron.go: `removeDependencyDirect`, and what `removeEntry` does to the dependencies.
use go_cron.Prelude.{ℕ, Bool, true, false, ◌==◌, if◌then◌else◌, List, [], ◌∷◌}
use go_cron.Workflow.{Dependency, Deps, deps_of}
use go_cron.Workflow.Graph.{Graph, contains, set, children_of}

-- `delete` of a key of a map.
unfoldable pub erase {ℓ} : {A : Type ℓ} → List (ℕ × A) → ℕ → List (ℕ × A)
erase [] id = []
erase ((k, x) ∷ rest) id = let others = erase rest id in if k == id then others else (k, x) ∷ others

-- `slices.DeleteFunc` for the dependencies on one parent.
unfoldable pub without_parent : ℕ → List Dependency → List Dependency
without_parent p [] = []
without_parent p (d ∷ ds) =
    let rest = without_parent p ds in if d.parent_id == p then rest else d ∷ rest

-- The list without its first `id`.
unfoldable pub delete_first : ℕ → List ℕ → List ℕ
delete_first id [] = []
delete_first id (x ∷ xs) = let rest = delete_first id xs in if x == id then xs else x ∷ rest

abbrev pub none_left {ℓ} : {A : Type ℓ} → List A → Bool
none_left [] = true
none_left (x ∷ xs) = false

unfoldable pub drop_parent : Deps → ℕ → ℕ → Deps
drop_parent deps child parent =
    let ds = without_parent parent (deps_of deps child) in
    if none_left ds then erase (set deps child ds) child else set deps child ds

-- The children of an entry without its first `child`; a key without children is deleted.
unfoldable pub unlist : List (ℕ × List ℕ) → ℕ → ℕ → List (ℕ × List ℕ)
unlist lists parent child =
    let children = children_of lists parent in
    if contains child children then set lists parent (delete_first child children) else lists

unfoldable pub drop_child : List (ℕ × List ℕ) → ℕ → ℕ → List (ℕ × List ℕ)
drop_child lists parent child =
    let kept = unlist lists parent child in
    if none_left (children_of kept parent) then erase kept parent else kept

unfoldable pub remove_dependency : Graph → ℕ → ℕ → Graph
remove_dependency g child parent = record {
  entries = g.entries;
  entry_deps = drop_parent g.entry_deps child parent;
  parent_to_children = drop_child g.parent_to_children parent child;
}

unfoldable pub drop_children : List (ℕ × List ℕ) → List Dependency → ℕ → List (ℕ × List ℕ)
drop_children lists [] id = lists
drop_children lists (d ∷ ds) id = drop_children (drop_child lists d.parent_id id) ds id

unfoldable pub remove_edges_as_child : Graph → ℕ → Graph
remove_edges_as_child g id = record {
  entries = g.entries;
  entry_deps = erase g.entry_deps id;
  parent_to_children = drop_children g.parent_to_children (deps_of g.entry_deps id) id;
}

unfoldable pub drop_parents : Deps → List ℕ → ℕ → Deps
drop_parents deps [] id = deps
drop_parents deps (child ∷ rest) id = drop_parents (drop_parent deps child id) rest id

unfoldable pub remove_edges_as_parent : Graph → ℕ → Graph
remove_edges_as_parent g id = record {
  entries = g.entries;
  entry_deps = drop_parents g.entry_deps (children_of g.parent_to_children id) id;
  parent_to_children = erase g.parent_to_children id;
}

unfoldable pub remove_entry_dependencies : Graph → ℕ → Graph
remove_entry_dependencies g id = remove_edges_as_parent (remove_edges_as_child g id) id
