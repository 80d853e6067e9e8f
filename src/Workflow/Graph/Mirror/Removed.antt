-- ===== src/Workflow/Graph/Mirror/Removed.antt =====
-- An entry that is removed takes its dependencies along.
use go_cron.Prelude.{
  ℕ, ◌≤◌, ◌≡◌, refl, ap, ◌∙◌, true, false, not, ◌&&◌, ◌==◌, ==_iff, if◌then◌else◌, Bool-cases, inl,
  inr, List, [], ◌∷◌, arith,
}
use go_cron.Workflow.{Dependency, Deps, deps_of}
use go_cron.Workflow.Graph.{Graph, has_parent, contains, children_of}
use go_cron.Workflow.Graph.Removal.{
  erase, drop_child, drop_children, drop_parent, drop_parents, remove_edges_as_child,
  remove_edges_as_parent, remove_entry_dependencies,
}
use go_cron.Workflow.Graph.Mirror.{occurrences, IsMirror, children_of-erase, deps_of-erase}
use go_cron.Workflow.Graph.Mirror.Kept.{
  occurrences-drop_child, has_parent-drop_parent, contains-occurrences,
}

abbrev ListsOnce : List (ℕ × List ℕ) → Type 0
ListsOnce lists = (x q : ℕ) → occurrences x (children_of lists q) ≤ 1

occurrences-drop_children :
    (lists : List (ℕ × List ℕ)) (ds : List Dependency) (id q x : ℕ)
    → ListsOnce lists
    → occurrences x (children_of (drop_children lists ds id) q)
      ≡ (if (id == x) && has_parent q ds then 0 else occurrences x (children_of lists q))
unfolding drop_children
occurrences-drop_children lists [] id q x once = ground arith
occurrences-drop_children lists (d ∷ ds) id q x once =
    let less = λ (y p : ℕ). occurrences-drop_child lists d.parent_id id p y in
    let still : ListsOnce (drop_child lists d.parent_id id) =
      λ y p. omega (arith, once y p, less y p) in
    let ih = occurrences-drop_children (drop_child lists d.parent_id id) ds id q x still in
    ground (arith, ih, less x q, once x q)

has_parent-drop_parents :
    (deps : Deps) (l : List ℕ) (id q x : ℕ)
    → has_parent q (deps_of (drop_parents deps l id) x)
      ≡ (not (contains x l && (id == q)) && has_parent q (deps_of deps x))
unfolding drop_parents
has_parent-drop_parents deps [] id q x = ground arith
has_parent-drop_parents deps (c ∷ l) id q x = ground (
  arith,
  has_parent-drop_parents (drop_parent deps c id) l id q x,
  has_parent-drop_parent deps c id q x,
)

mirror-once : (g : Graph) → IsMirror g → ListsOnce g.parent_to_children
mirror-once g m x q = ground (arith, m x q)

has_parent-erase :
    (deps : Deps) (id q x : ℕ)
    → has_parent q (deps_of (erase deps id) x) ≡ (not (id == x) && has_parent q (deps_of deps x))
has_parent-erase deps id q x =
    ap (has_parent q) (deps_of-erase deps id x)
    ∙ elim (Bool-cases (id == x)) [ inl t ↦ rw t refl | inr t ↦ rw t refl ]

occurrences-erase :
    (lists : List (ℕ × List ℕ)) (id q x : ℕ)
    → occurrences x (children_of (erase lists id) q)
      ≡ (if id == q then 0 else occurrences x (children_of lists q))
unfolding occurrences
occurrences-erase lists id q x =
    ap (occurrences x) (children_of-erase lists id q)
    ∙ elim (Bool-cases (id == q)) [ inl t ↦ rw t refl | inr t ↦ rw t refl ]

remove_edges_as_child-IsMirror :
    (g : Graph) (id : ℕ) → IsMirror g → IsMirror (remove_edges_as_child g id)
unfolding remove_edges_as_child
remove_edges_as_child-IsMirror g id m x q =
    let own : (id == x) ≡ true
        → has_parent q (deps_of g.entry_deps id) ≡ has_parent q (deps_of g.entry_deps x) =
      λ t. ap (λ (k : ℕ). has_parent q (deps_of g.entry_deps k)) ((==_iff id x).0 t) in
    let list =
      occurrences-drop_children g.parent_to_children (deps_of g.entry_deps id) id q x
        (mirror-once g m) in
    elim (Bool-cases (id == x)) [
      | inl t ↦
          let same = own t in
          ground (arith, m x q, list, has_parent-erase g.entry_deps id q x, t, same)
      | inr t ↦ ground (arith, m x q, list, has_parent-erase g.entry_deps id q x, t)
    ]

remove_edges_as_parent-IsMirror :
    (g : Graph) (id : ℕ) → IsMirror g → IsMirror (remove_edges_as_parent g id)
unfolding remove_edges_as_parent
remove_edges_as_parent-IsMirror g id m x q =
    let children = children_of g.parent_to_children id in
    let list = occurrences-erase g.parent_to_children id q x in
    let left = has_parent-drop_parents g.entry_deps children id q x in
    elim (Bool-cases (id == q)) [
      | inl t ↦
          let at : has_parent id (deps_of g.entry_deps x) ≡ has_parent q (deps_of g.entry_deps x) =
            ap (λ (k : ℕ). has_parent k (deps_of g.entry_deps x)) ((==_iff id q).0 t) in
          ground (arith, m x id, list, left, contains-occurrences x children, t, at)
      | inr t ↦ ground (arith, m x q, list, left, t)
    ]

no_parent :
    (g : Graph) (id x : ℕ)
    → has_parent x (deps_of (remove_edges_as_parent (remove_edges_as_child g id) id).entry_deps id)
      ≡ false
unfolding remove_edges_as_parent remove_edges_as_child
no_parent g id x =
    let without = erase g.entry_deps id in
    let children =
      children_of (drop_children g.parent_to_children (deps_of g.entry_deps id) id) id in
    ground (
      arith,
      has_parent-drop_parents without children id x id,
      has_parent-erase g.entry_deps id x id,
    )

no_child :
    (g : Graph) (id x : ℕ)
    → IsMirror (remove_edges_as_parent g id)
    → has_parent id (deps_of (remove_edges_as_parent g id).entry_deps x) ≡ false
unfolding remove_edges_as_parent
no_child g id x m = ground (arith, m x id, occurrences-erase g.parent_to_children id id x)

-- Where the maps agree, they still do after the dependencies of an entry are removed, and no dependency has the entry as its child or as its parent.
pub remove_entry_dependencies-IsMirror :
    (g : Graph) (id : ℕ)
    → IsMirror g
    → IsMirror (remove_entry_dependencies g id)
      × ((x : ℕ)
          → (has_parent x (deps_of (remove_entry_dependencies g id).entry_deps id) ≡ false)
            × (has_parent id (deps_of (remove_entry_dependencies g id).entry_deps x) ≡ false))
unfolding remove_entry_dependencies
remove_entry_dependencies-IsMirror g id m =
    let first = remove_edges_as_child-IsMirror g id m in
    let rest = remove_edges_as_parent-IsMirror (remove_edges_as_child g id) id first in
    (rest, λ x. (no_parent g id x, no_child (remove_edges_as_child g id) id x rest))
