-- ===== src/Workflow/Graph/Laws.antt =====
-- Which dependencies `addDependencyDirect` lets in.
use mathlib.Core.List.{Memᴰ}
use mathlib.Core.List.Memᴰ.{head, tail, append_cases, append_right}
use mathlib.Core.Path.{subst}
use go_cron.Prelude.{
  ℕ, ◌+◌, ◌<◌, ◌≡◌, ◌⊎◌, refl, sym, ap, ◌∙◌, Bool, true, false, ◌==◌, ==_iff, if◌then◌else◌,
  Bool-cases, inl, inr, List, [], ◌∷◌, ◌++◌, some, arith,
}
use go_cron.Workflow.{
  TriggerCondition, on_success, on_failure, on_skipped, on_complete, other_condition, is_valid,
  Dependency, Deps, deps_of,
}
use go_cron.Workflow.Cycle.{has_cycle}
use go_cron.Workflow.Cycle.Fuel.{edges_left}
use go_cron.Workflow.Cycle.Laws.{Parent, Ancestor, itself, above, Verdict, has_cycle-Verdict}
use go_cron.Workflow.Graph.{
  Graph, AddError, invalid_condition, entry_not_found, cycle_detected, contains, set, has_edge,
  add_edge, add_dependency,
}

-- No parent of an entry has the entry among its ancestors.
abbrev pub IsAcyclic : Deps → Type 0
IsAcyclic deps = (a b : ℕ) → Parent deps a b → ¬ (Ancestor deps b a)

Ancestor-trans :
    (deps : Deps) (a b c : ℕ) → Ancestor deps a b → Ancestor deps b c → Ancestor deps a c
Ancestor-trans deps a b c r itself = r
Ancestor-trans deps a b c r (above s p) = above (Ancestor-trans deps a b _ r s) p

pub deps_of-set :
    (deps : Deps) (id j : ℕ) (ds : List Dependency)
    → deps_of (set deps id ds) j ≡ (if id == j then ds else deps_of deps j)
unfolding deps_of set
deps_of-set [] id j ds = refl
deps_of-set ((k, d) ∷ rest) id j ds = elim (Bool-cases (k == id)) [
  | inl t ↦
      let e : k ≡ id = (==_iff k id).0 t in
      rw (t, e) (elim (Bool-cases (id == j)) [ inl q ↦ rw q refl | inr q ↦ rw q refl ])
  | inr t ↦
      let ih = deps_of-set rest id j ds in
      rw (t, ih)
        (elim (Bool-cases (k == j)) [
          | inl q ↦ let other : (id == j) ≡ false = ground (arith, q, t) in rw (q, other) refl
          | inr q ↦ rw q refl
        ])
]

module _ (deps more : Deps) (child parent : ℕ)
    (only : (a b : ℕ) → Parent more a b → Parent deps a b ⊎ ((a ≡ child) × (b ≡ parent))) where
  old_or_through :
      (x y : ℕ)
      → Ancestor more x y
      → Ancestor deps x y ⊎ (Ancestor deps x child × Ancestor deps parent y)
  old_or_through x y itself = inl itself
  old_or_through x y (above {b = b} r p) = elim (only b y p) [
    | inl q ↦ elim (old_or_through x b r) [
      | inl s ↦ inl (above s q)
      | inr (s, t) ↦ inr (s, above t q)
    ]
    | inr (e, f) ↦ elim (old_or_through x b r) [
      | inl s ↦ inr (subst (Ancestor deps x) e s, subst (Ancestor deps parent) (sym f) itself)
      | inr (s, t) ↦ inr (s, subst (Ancestor deps parent) (sym f) itself)
    ]
  ]

  IsAcyclic-more : IsAcyclic deps → ¬ (Ancestor deps parent child) → IsAcyclic more
  IsAcyclic-more acyclic far a b p r = elim (only a b p) [
    | inl q ↦ elim (old_or_through b a r) [
      | inl s ↦ acyclic a b q s
      | inr (s, t) ↦ far (Ancestor-trans deps parent b child (above t q) s)
    ]
    | inr (e, f) ↦ elim (old_or_through b a r) [
      | inl s ↦ far (subst (Ancestor deps parent) e (subst (λ (x : ℕ). Ancestor deps x a) f s))
      | inr (s, t) ↦ far (subst (λ (x : ℕ). Ancestor deps x child) f s)
    ]
  ]

-- The parents after an edge was added.
edge_only :
    (g : Graph) (child parent : ℕ) (c : TriggerCondition) (a b : ℕ)
    → Parent (add_edge g child parent c).entry_deps a b
    → Parent g.entry_deps a b ⊎ ((a ≡ child) × (b ≡ parent))
unfolding add_edge
edge_only g child parent c a b (d, m, e) =
    go (Bool-cases (child == a)) (subst (Memᴰ d) (deps_of-set g.entry_deps child a _) m)
  where
    new : List Dependency
    new = record { parent_id = parent; condition = c } ∷ []

    last :
        Memᴰ d (deps_of g.entry_deps child) ⊎ Memᴰ d new
        → child ≡ a
        → Parent g.entry_deps a b ⊎ ((a ≡ child) × (b ≡ parent))
    last (inl n) q = inl (d, subst (λ (x : ℕ). Memᴰ d (deps_of g.entry_deps x)) q n, e)
    last (inr (head n)) q = inr (sym q, sym e ∙ ap (λ (x : Dependency). x.parent_id) n)
    last (inr (tail n)) q = elim n [ ]

    go :
        ((child == a) ≡ true) ⊎ ((child == a) ≡ false)
        → Memᴰ d (if child == a then deps_of g.entry_deps child ++ new else deps_of g.entry_deps a)
        → Parent g.entry_deps a b ⊎ ((a ≡ child) × (b ≡ parent))
    go (inl t) n =
        last
          (append_cases (deps_of g.entry_deps child) (
            subst
              (λ (x : Bool).
                Memᴰ d (if x then deps_of g.entry_deps child ++ new else deps_of g.entry_deps a))
              t n))
          ((==_iff child a).0 t)
    go (inr t) n = inl (
      d,
      subst
          (λ (x : Bool).
            Memᴰ d (if x then deps_of g.entry_deps child ++ new else deps_of g.entry_deps a))
          t n,
      e,
    )

edge_added :
    (g : Graph) (child parent : ℕ) (c : TriggerCondition)
    → Parent (add_edge g child parent c).entry_deps child parent
unfolding add_edge
edge_added g child parent c =
    let d : Dependency = record { parent_id = parent; condition = c } in
    let same : (child == child) ≡ true = (==_iff child child).1 refl in
    let chosen : (if child == child
          then deps_of g.entry_deps child ++ (d ∷ [])
          else deps_of g.entry_deps child)
        ≡ deps_of g.entry_deps child ++ (d ∷ []) =
      rw same refl in
    let to = deps_of-set g.entry_deps child child (deps_of g.entry_deps child ++ (d ∷ [])) in
    (
      d,
      subst (Memᴰ d) (sym (to ∙ chosen)) (append_right (deps_of g.entry_deps child) (head refl)),
      refl,
    )

edge_there :
    (ds : List Dependency) (parent : ℕ) (c : TriggerCondition)
    → has_edge ds parent c ≡ true
    → (d : Dependency) × Memᴰ d ds × (d.parent_id ≡ parent)
unfolding has_edge
edge_there [] parent c h = ground arith
edge_there (d ∷ ds) parent c h = elim (Bool-cases (has_edge ds parent c)) [
  | inl t ↦ let r = edge_there ds parent c t in (r.0, tail r.1, r.2)
  | inr t ↦ (d, head refl, ground (arith, h, t))
]

-- The conditions that workflow.go names.
pub data IsKnown : TriggerCondition → Type 0 where
  success : IsKnown on_success
  failure : IsKnown on_failure
  skipped : IsKnown on_skipped
  complete : IsKnown on_complete

is_valid-IsKnown : (c : TriggerCondition) → is_valid c ≡ true → IsKnown c
unfolding is_valid
is_valid-IsKnown on_success e = success
is_valid-IsKnown on_failure e = failure
is_valid-IsKnown on_skipped e = skipped
is_valid-IsKnown on_complete e = complete
is_valid-IsKnown (other_condition n) e = cc

unknown : (c : TriggerCondition) → is_valid c ≡ false → ¬ (IsKnown c)
unfolding is_valid
unknown on_success e success = cc
unknown on_failure e failure = cc
unknown on_skipped e skipped = cc
unknown on_complete e complete = cc
unknown (other_condition n) e k = elim k [ ]

-- What `addDependencyDirect` returns: an error for a condition that is not known, for an entry that
-- does not exist or for a circle that the dependency would close, or a graph with the dependency,
-- its condition known and its entries there, and still without circles.
abbrev pub IsAdded : Graph → ℕ → ℕ → TriggerCondition → AddError ⊎ Graph → Type 0
IsAdded g child parent c (inl invalid_condition) = ¬ (IsKnown c)
IsAdded g child parent c (inl entry_not_found) =
    (contains child g.entries ≡ false) ⊎ (contains parent g.entries ≡ false)
IsAdded g child parent c (inl cycle_detected) = Ancestor g.entry_deps parent child
IsAdded g child parent c (inr g') =
    IsKnown c
    × (g'.entries ≡ g.entries)
    × IsAcyclic g'.entry_deps
    × Parent g'.entry_deps child parent

-- In a graph without circles and with fuel for more rounds than one for the parent and one for
-- each dependency, `addDependencyDirect` returns. It reports a condition that is none of the four
-- constants, an entry that does not exist, or that the child is already an ancestor of the parent;
-- otherwise the condition is one of the four, the child has the parent, and the graph has no circle.
pub add_dependency-IsAdded :
    (fuel : ℕ) (g : Graph) (child parent : ℕ) (c : TriggerCondition)
    → IsAcyclic g.entry_deps
    → 1 + edges_left [] g.entry_deps < fuel
    → (r : AddError ⊎ Graph) × (add_dependency fuel g child parent c ≡ some r)
      × IsAdded g child parent c r
unfolding add_dependency
add_dependency-IsAdded fuel g child parent c acyclic f = elim (Bool-cases (is_valid c)) [
  | inr bad ↦ (inl invalid_condition, rw bad refl, unknown c bad)
  | inl valid ↦ elim (Bool-cases (contains child g.entries)) [
    | inr absent ↦ (inl entry_not_found, rw (valid, absent) refl, inl absent)
    | inl present ↦ elim (Bool-cases (contains parent g.entries)) [
      | inr absent ↦ (inl entry_not_found, rw (valid, present, absent) refl, inr absent)
      | inl also ↦
          let v = has_cycle-Verdict g.entry_deps child parent fuel f in
          elim v.0
              as (λ b.
                has_cycle fuel g.entry_deps child parent ≡ some b
                → Verdict g.entry_deps child parent b
                → (r : AddError ⊎ Graph) × (add_dependency fuel g child parent c ≡ some r)
                  × IsAdded g child parent c r) [
                    | true ↦ λ e r. (inl cycle_detected, rw (valid, present, also, e) refl, r)
                    | false ↦ λ e far.
                        elim (Bool-cases (has_edge (deps_of g.entry_deps child) parent c)) [
                          | inl t ↦ (
                            inr g,
                            rw (valid, present, also, e, t) refl,
                            (is_valid-IsKnown c valid, refl, acyclic, edge_there _ parent c t),
                          )
                          | inr t ↦ (
                            inr (add_edge g child parent c),
                            rw (valid, present, also, e, t) refl,
                            (
                              is_valid-IsKnown c valid,
                              unfold add_edge in refl,
                              IsAcyclic-more g.entry_deps _ child parent
                                  (edge_only g child parent c) acyclic far,
                              edge_added g child parent c,
                            ),
                          )
                        ]
                  ]
            (v.1) (v.2)
    ]
  ]
]
