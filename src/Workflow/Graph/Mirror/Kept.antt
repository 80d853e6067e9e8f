-- ===== src/Workflow/Graph/Mirror/Kept.antt =====
-- The operations on the dependencies keep their two maps in step.
use mathlib.Core.Path.{subst}
use go_cron.Prelude.{
  ℕ, ◌+◌, ◌-◌, ◌≡◌, refl, ap, ◌∙◌, Bool, true, false, not, ◌&&◌, ◌||◌, ◌==◌, ==_iff, Bool-cases,
  inl, inr, List, [], ◌∷◌, ◌++◌, ◌⊎◌, Option, some, none, arith,
}
use go_cron.Workflow.{TriggerCondition, is_valid, Dependency, Deps, deps_of}
use go_cron.Workflow.Graph.{
  Graph, has_parent, contains, children_of, add_edge, AddError, add_dependency, has_edge,
}
use go_cron.Workflow.Cycle.{has_cycle}
use go_cron.Workflow.Graph.Laws.{deps_of-set}
use go_cron.Workflow.Graph.Removal.{drop_parent, drop_child, remove_dependency}
use go_cron.Workflow.Graph.Mirror.{
  occurrences, one_if, IsMirror, children_of-set, has_parent-append, has_parent-without_parent,
  deps_of-drop_parent, children_of-drop_child, occurrences-delete_first,
}

-- What is left of the occurrences and of the parents.
pub occurrences-drop_child :
    (lists : List (ℕ × List ℕ)) (p c q x : ℕ)
    → occurrences x (children_of (drop_child lists p c) q)
      ≡ occurrences x (children_of lists q) - one_if ((p == q) && (c == x))
occurrences-drop_child lists p c q x =
    ap (occurrences x) (children_of-drop_child lists p c q) ∙ elim (Bool-cases (p == q)) [
      | inl t ↦ rw t (
          occurrences-delete_first x c (children_of lists p)
          ∙ ap (λ (k : ℕ). occurrences x (children_of lists k) - one_if (c == x))
              ((==_iff p q).0 t))
      | inr t ↦ rw t (omega arith)
    ]

pub has_parent-drop_parent :
    (deps : Deps) (c p q x : ℕ)
    → has_parent q (deps_of (drop_parent deps c p) x)
      ≡ (not ((c == x) && (p == q)) && has_parent q (deps_of deps x))
has_parent-drop_parent deps c p q x =
    ap (has_parent q) (deps_of-drop_parent deps c p x) ∙ elim (Bool-cases (c == x)) [
      | inl t ↦ rw t (
          has_parent-without_parent q p (deps_of deps c)
          ∙ ap (λ (k : ℕ). not (p == q) && has_parent q (deps_of deps k)) ((==_iff c x).0 t))
      | inr t ↦ rw t refl
    ]

-- Where the maps agree, removeDependencyDirect keeps them in step, and leaves the child without any dependency on the parent.
pub remove_dependency-IsMirror :
    (g : Graph) (child parent : ℕ)
    → IsMirror g
    → IsMirror (remove_dependency g child parent)
      × (has_parent parent (deps_of (remove_dependency g child parent).entry_deps child) ≡ false)
unfolding remove_dependency
remove_dependency-IsMirror g child parent m = (
  λ x p. ground (
    arith,
    m x p,
    occurrences-drop_child g.parent_to_children parent child p x,
    has_parent-drop_parent g.entry_deps child parent p x,
  ),
  ground (arith, has_parent-drop_parent g.entry_deps child parent parent child),
)

occurrences-append :
    (x : ℕ) (l m : List ℕ) → occurrences x (l ++ m) ≡ occurrences x l + occurrences x m
unfolding occurrences
occurrences-append x [] m = omega arith
occurrences-append x (y ∷ l) m = omega (arith, occurrences-append x l m)

pub contains-occurrences : (x : ℕ) (l : List ℕ) → contains x l ≡ not (occurrences x l == 0)
unfolding occurrences
contains-occurrences x [] = ground arith
contains-occurrences x (y ∷ l) = ground (arith, contains-occurrences x l)

has_parent-add_edge :
    (g : Graph) (child parent : ℕ) (c : TriggerCondition) (q x : ℕ)
    → has_parent q (deps_of (add_edge g child parent c).entry_deps x)
      ≡ (((child == x) && (parent == q)) || has_parent q (deps_of g.entry_deps x))
unfolding add_edge
has_parent-add_edge g child parent c q x =
    let added : List Dependency = record { parent_id = parent; condition = c } ∷ [] in
    let ds = deps_of g.entry_deps child in
    ap (has_parent q) (deps_of-set g.entry_deps child x (ds ++ added))
    ∙ elim (Bool-cases (child == x)) [
      | inl t ↦
          let same : has_parent q ds ≡ has_parent q (deps_of g.entry_deps x) =
            ap (λ (k : ℕ). has_parent q (deps_of g.entry_deps k)) ((==_iff child x).0 t) in
          rw t (has_parent-append q ds added ∙ ground (arith, same))
      | inr t ↦ rw t refl
    ]

occurrences-add_edge :
    (g : Graph) (child parent : ℕ) (c : TriggerCondition) (q x : ℕ)
    → occurrences x (children_of (add_edge g child parent c).parent_to_children q)
      ≡ occurrences x (children_of g.parent_to_children q)
        + one_if (
            (child == x)
            && (parent == q)
            && (occurrences x (children_of g.parent_to_children q) == 0))
unfolding add_edge occurrences
occurrences-add_edge g child parent c q x =
    let lists = g.parent_to_children in
    let children = children_of lists parent in
    let listed = contains-occurrences child children in
    elim (Bool-cases (contains child children)) [
      | inl t ↦ rw t (elim (Bool-cases ((child == x) && (parent == q))) [
        | inl u ↦
            let here : occurrences child children ≡ occurrences x (children_of lists q) =
              moved (ground (arith, u)) (ground (arith, u)) in
            ground (arith, listed, t, here)
        | inr u ↦ ground (arith, u)
      ])
      | inr t ↦ rw t (
          ap (occurrences x) (children_of-set lists parent q (children ++ (child ∷ [])))
          ∙ elim (Bool-cases (parent == q)) [
            | inl u ↦
                let sum = occurrences-append x children (child ∷ []) in
                let same : occurrences x children ≡ occurrences x (children_of lists q) =
                  ap (λ (k : ℕ). occurrences x (children_of lists k)) ((==_iff parent q).0 u) in
                rw (u, sum, same)
                  (elim (Bool-cases (child == x)) [
                    | inl v ↦ let here = moved v u in rw v (ground (arith, listed, t, here))
                    | inr v ↦ rw v (ground arith)
                  ])
            | inr u ↦ rw u (ground arith)
          ])
    ]
  where
    moved :
        (child == x) ≡ true
        → (parent == q) ≡ true
        → occurrences child (children_of g.parent_to_children parent)
          ≡ occurrences x (children_of g.parent_to_children q)
    moved e f =
        ap (λ (k : ℕ). occurrences k (children_of g.parent_to_children parent))
          ((==_iff child x).0 e)
        ∙ ap (λ (k : ℕ). occurrences x (children_of g.parent_to_children k)) ((==_iff parent q).0 f)

-- The edge that is added.
add_edge-IsMirror :
    (g : Graph) (child parent : ℕ) (c : TriggerCondition)
    → IsMirror g
    → IsMirror (add_edge g child parent c)
add_edge-IsMirror g child parent c m x p = ground (
  arith,
  m x p,
  has_parent-add_edge g child parent c p x,
  occurrences-add_edge g child parent c p x,
)

abbrev accepted : Graph → Option (AddError ⊎ Graph)
accepted g = some (inr g)

-- Where the maps agree, they still do in the graph that addDependencyDirect returns, whether it adds the edge or finds it there.
pub add_dependency-IsMirror :
    (fuel : ℕ) (g h : Graph) (child parent : ℕ) (c : TriggerCondition)
    → IsMirror g
    → add_dependency fuel g child parent c ≡ some (inr h)
    → IsMirror h
unfolding add_dependency
add_dependency-IsMirror fuel g h child parent c m e = elim (Bool-cases (is_valid c)) [
  | inr s ↦ cc (rw s at e)
  | inl s ↦ elim (Bool-cases (contains child g.entries)) [
    | inr t ↦ cc (rw (s, t) at e)
    | inl t ↦ elim (Bool-cases (contains parent g.entries)) [
      | inr u ↦ cc (rw (s, t, u) at e)
      | inl u ↦ elim (verdicts (has_cycle fuel g.entry_deps child parent)) [
        | inl v ↦ cc (rw (s, t, u, v) at e)
        | inr (inl v) ↦ cc (rw (s, t, u, v) at e)
        | inr (inr v) ↦ elim (Bool-cases (has_edge (deps_of g.entry_deps child) parent c)) [
          | inl w ↦ subst IsMirror (right_inj g h (rw (s, t, u, v, w) at e)) m
          | inr w ↦
              subst IsMirror (right_inj (add_edge g child parent c) h (rw (s, t, u, v, w) at e))
                (add_edge-IsMirror g child parent c m)
        ]
      ]
    ]
  ]
]
  where
    verdicts : (v : Option Bool) → (v ≡ none) ⊎ (v ≡ some true) ⊎ (v ≡ some false)
    verdicts none = inl refl
    verdicts (some true) = inr (inl refl)
    verdicts (some false) = inr (inr refl)

    right_inj : (a b : Graph) → accepted a ≡ accepted b → a ≡ b
    right_inj a b q = cc
