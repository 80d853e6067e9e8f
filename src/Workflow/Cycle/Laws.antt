-- ===== src/Workflow/Cycle/Laws.antt =====
-- `hasCycle` and the ancestors of an entry.
use mathlib.Core.List.{Memᴰ}
use mathlib.Core.List.Memᴰ.{head, tail}
use mathlib.Core.Path.{subst}
use go_cron.Prelude.{
  ℕ, zero, suc, ◌+◌, ◌<◌, ◌≡◌, ◌⊎◌, refl, sym, ap, ◌∙◌, Bool, true, false, ◌==◌, ==_iff,
  if◌then◌else◌, Bool-cases, inl, inr, length, List, [], ◌∷◌, some, arith,
}
use go_cron.Workflow.{Dependency, Deps, deps_of}
use go_cron.Workflow.Cycle.{is_visited, push_parents, search, has_cycle}
use go_cron.Workflow.Cycle.Fuel.{edges_left, edges_left-enter, push_parents-length}

-- `p` is a parent of `c`.
abbrev pub Parent : Deps → ℕ → ℕ → Type 0
Parent deps c p = (d : Dependency) × Memᴰ d (deps_of deps c) × (d.parent_id ≡ p)

-- A chain of parents leads from the first entry to the second.
pub data Ancestor (deps : Deps) : ℕ → ℕ → Type 0 where
  itself : {a : ℕ} → Ancestor deps a a
  above : {a b c : ℕ} → Ancestor deps a b → Parent deps b c → Ancestor deps a c

stays :
    (visited : List ℕ) (ds : List Dependency) (stack : List ℕ) (x : ℕ)
    → Memᴰ x stack
    → Memᴰ x (push_parents visited ds stack)
unfolding push_parents
stays visited [] stack x m = m
stays visited (d ∷ ds) stack x m = elim (Bool-cases (is_visited d.parent_id visited)) [
  | inl t ↦ rw t (stays visited ds stack x m)
  | inr t ↦ rw t (stays visited ds (d.parent_id ∷ stack) x (tail m))
]

-- A parent is visited, or it is on the stack afterwards.
pushed :
    (visited : List ℕ) (ds : List Dependency) (stack : List ℕ) (d : Dependency)
    → Memᴰ d ds
    → (is_visited d.parent_id visited ≡ true) ⊎ Memᴰ d.parent_id (push_parents visited ds stack)
unfolding push_parents
pushed visited [] stack d m = elim m [ ]
pushed visited (d' ∷ ds) stack d (head e) = elim (Bool-cases (is_visited d'.parent_id visited)) [
  | inl t ↦ inl (ap (λ (x : Dependency). is_visited x.parent_id visited) e ∙ t)
  | inr t ↦ inr (
      rw t (
        stays visited ds (d'.parent_id ∷ stack) d.parent_id
          (head (ap (λ (x : Dependency). x.parent_id) e))))
]
pushed visited (d' ∷ ds) stack d (tail m) = pushed visited ds _ d m

-- What is on the stack afterwards was there or is a parent.
from :
    (visited : List ℕ) (ds : List Dependency) (stack : List ℕ) (x : ℕ)
    → Memᴰ x (push_parents visited ds stack)
    → Memᴰ x stack ⊎ ((d : Dependency) × Memᴰ d ds × (d.parent_id ≡ x))
unfolding push_parents
from visited [] stack x m = inl m
from visited (d ∷ ds) stack x m =
    go (λ s n. from visited ds s x n) (Bool-cases (is_visited d.parent_id visited))
  where
    widen :
        ((s : List ℕ)
          → Memᴰ x (push_parents visited ds s)
          → Memᴰ x s ⊎ ((d' : Dependency) × Memᴰ d' ds × (d'.parent_id ≡ x)))
        → (s : List ℕ)
        → (Memᴰ x s → Memᴰ x stack ⊎ ((d' : Dependency) × Memᴰ d' (d ∷ ds) × (d'.parent_id ≡ x)))
        → Memᴰ x (push_parents visited ds s)
        → Memᴰ x stack ⊎ ((d' : Dependency) × Memᴰ d' (d ∷ ds) × (d'.parent_id ≡ x))
    widen rest s base n = elim (rest s n) [ inl b ↦ base b | inr (d', i, e) ↦ inr (d', tail i, e) ]

    added :
        Memᴰ x (d.parent_id ∷ stack)
        → Memᴰ x stack ⊎ ((d' : Dependency) × Memᴰ d' (d ∷ ds) × (d'.parent_id ≡ x))
    added (head e) = inr (d, head refl, sym e)
    added (tail n) = inl n

    go :
        ((s : List ℕ)
          → Memᴰ x (push_parents visited ds s)
          → Memᴰ x s ⊎ ((d' : Dependency) × Memᴰ d' ds × (d'.parent_id ≡ x)))
        → (is_visited d.parent_id visited ≡ true) ⊎ (is_visited d.parent_id visited ≡ false)
        → Memᴰ x stack ⊎ ((d' : Dependency) × Memᴰ d' (d ∷ ds) × (d'.parent_id ≡ x))
    go rest (inl t) =
        widen rest stack (λ n. inl n)
          (subst
            (λ (b : Bool).
              Memᴰ x (push_parents visited ds (if b then stack else d.parent_id ∷ stack)))
            t m)
    go rest (inr t) = widen rest (d.parent_id ∷ stack) added (
        subst
          (λ (b : Bool).
            Memᴰ x (push_parents visited ds (if b then stack else d.parent_id ∷ stack)))
          t m)

module _ (deps : Deps) (child parent : ℕ) where
  -- The search has not met the child; the parents of what it has visited are visited or waiting.
  record IsSearching (visited stack : List ℕ) : Type 0 where
    missed : is_visited child visited ≡ false
    closed :
        (v p : ℕ)
        → is_visited v visited ≡ true
        → Parent deps v p
        → (is_visited p visited ≡ true) ⊎ Memᴰ p stack
    begun : (is_visited parent visited ≡ true) ⊎ Memᴰ parent stack
    reached : (x : ℕ) → Memᴰ x stack → Ancestor deps parent x

  start : IsSearching [] (parent ∷ [])
  unfolding is_visited
  start = record {
    missed = refl;
    closed = λ v p e r. ground arith;
    begun = inr (head refl);
    reached = λ x m. elim m [
      | head e ↦ subst (Ancestor deps parent) (sym e) itself
      | tail n ↦ elim n [ ]
    ];
  }

  abbrev pub Verdict : Bool → Type 0
  Verdict true = Ancestor deps parent child
  Verdict false = ¬ (Ancestor deps parent child)

  all_visited :
      (visited : List ℕ)
      → IsSearching visited []
      → (a : ℕ) → Ancestor deps parent a
      → is_visited a visited ≡ true
  all_visited visited s a itself = elim s.begun [ inl e ↦ e | inr m ↦ elim m [ ] ]
  all_visited visited s a (above r p) = elim (s.closed _ a (all_visited visited s _ r) p) [
    | inl e ↦ e
    | inr m ↦ elim m [ ]
  ]

  -- The search goes on past an entry that it visited before.
  skip :
      (c : ℕ) (visited stack : List ℕ)
      → is_visited c visited ≡ true
      → IsSearching visited (c ∷ stack)
      → IsSearching visited stack
  skip c visited stack h s = record {
    missed = s.missed;
    closed = λ v p e r. drop p (s.closed v p e r);
    begun = drop parent s.begun;
    reached = λ x m. s.reached x (tail m);
  }
    where
      drop :
          (p : ℕ)
          → (is_visited p visited ≡ true) ⊎ Memᴰ p (c ∷ stack)
          → (is_visited p visited ≡ true) ⊎ Memᴰ p stack
      drop p (inl e) = inl e
      drop p (inr (head e)) = inl (ap (λ (x : ℕ). is_visited x visited) e ∙ h)
      drop p (inr (tail m)) = inr m

  -- It visits an entry and goes on to its parents.
  enter :
      (c : ℕ) (visited stack : List ℕ)
      → (c == child) ≡ false
      → IsSearching visited (c ∷ stack)
      → IsSearching (c ∷ visited) (push_parents (c ∷ visited) (deps_of deps c) stack)
  unfolding is_visited
  enter c visited stack h s = record {
    missed = rw h s.missed;
    closed = λ v p e r. elim (Bool-cases (c == v)) [
      | inl t ↦ parents v p ((==_iff c v).0 t) r
      | inr t ↦ keep p (s.closed v p (ground (arith, e, t)) r)
    ];
    begun = keep parent s.begun;
    reached = λ x m. elim (from (c ∷ visited) (deps_of deps c) stack x m) [
      | inl n ↦ s.reached x (tail n)
      | inr r ↦ above (s.reached c (head refl)) r
    ];
  }
    where
      after : List ℕ
      after = push_parents (c ∷ visited) (deps_of deps c) stack

      keep :
          (p : ℕ)
          → (is_visited p visited ≡ true) ⊎ Memᴰ p (c ∷ stack)
          → (is_visited p (c ∷ visited) ≡ true) ⊎ Memᴰ p after
      keep p (inl e) = inl (ground (arith, e))
      keep p (inr (head e)) = inl (ground (arith, e))
      keep p (inr (tail m)) = inr (stays (c ∷ visited) (deps_of deps c) stack p m)

      parents :
          (v p : ℕ) → c ≡ v → Parent deps v p → (is_visited p (c ∷ visited) ≡ true) ⊎ Memᴰ p after
      parents v p e (d, m, q) =
          subst (λ (x : ℕ). (is_visited x (c ∷ visited) ≡ true) ⊎ Memᴰ x after) q
            (pushed (c ∷ visited) (deps_of deps c) stack d
              (subst (λ (x : ℕ). Memᴰ d (deps_of deps x)) (sym e) m))

  search-Verdict :
      (fuel : ℕ) (visited stack : List ℕ)
      → IsSearching visited stack
      → length stack + edges_left visited deps < fuel
      → (b : Bool) × (search fuel deps child visited stack ≡ some b) × Verdict b
  unfolding search
  search-Verdict zero visited stack s f = ground arith
  search-Verdict (suc fuel) visited [] s f =
      (false, refl, λ r. ground (arith, all_visited visited s child r, s.missed))
  search-Verdict (suc fuel) visited (c ∷ stack) s f = elim (Bool-cases (c == child)) [
    | inl t ↦ (
      true,
      rw t refl,
      subst (Ancestor deps parent) ((==_iff c child).0 t) (s.reached c (head refl)),
    )
    | inr t ↦ elim (Bool-cases (is_visited c visited)) [
      | inl v ↦
          let ih = search-Verdict fuel visited stack (skip c visited stack v s) (omega arith) in
          (ih.0, rw (t, v) ih.1, ih.2)
      | inr v ↦
          let less = edges_left-enter c visited deps v in
          let more = push_parents-length (c ∷ visited) (deps_of deps c) stack in
          let ih =
            search-Verdict fuel (c ∷ visited) (push_parents (c ∷ visited) (deps_of deps c) stack)
              (enter c visited stack t s) (omega (arith, less, more)) in
          (ih.0, rw (t, v) ih.1, ih.2)
    ]
  ]

  -- With fuel for more rounds than one for the new parent and one for each dependency, `hasCycle`
  -- returns, and its answer is whether a chain of parents leads from the new parent to the new
  -- child.
  pub has_cycle-Verdict :
      (fuel : ℕ)
      → 1 + edges_left [] deps < fuel
      → (b : Bool) × (has_cycle fuel deps child parent ≡ some b) × Verdict b
  unfolding has_cycle
  has_cycle-Verdict fuel f = elim (Bool-cases (child == parent)) [
    | inl t ↦
        (true, rw t refl, subst (Ancestor deps parent) (sym ((==_iff child parent).0 t)) itself)
    | inr t ↦ let x = search-Verdict fuel [] (parent ∷ []) start f in (x.0, rw t (x.1), x.2)
  ]
