-- ===== src/Workflow/Cycle/Fuel.antt =====
-- How many rounds the search of `hasCycle` takes.
use go_cron.Prelude.{
  ℕ, ◌+◌, ◌≤◌, ◌≡◌, false, ◌==◌, ==_iff, if◌then◌else◌, Bool-cases, inl, inr, length, List, [], ◌∷◌,
  arith,
}
use go_cron.Workflow.{Dependency, Deps, deps_of}
use go_cron.Workflow.Cycle.{is_visited, push_parents}

-- The number of the dependencies of the entries that are not visited.
unfoldable pub edges_left : List ℕ → Deps → ℕ
edges_left visited [] = 0
edges_left visited ((k, d) ∷ rest) =
    (if is_visited k visited then 0 else length d) + edges_left visited rest

edges_left_mono :
    (c : ℕ) (visited : List ℕ) (deps : Deps)
    → edges_left (c ∷ visited) deps ≤ edges_left visited deps
unfolding edges_left is_visited
edges_left_mono c visited [] = omega arith
edges_left_mono c visited ((k, d) ∷ rest) =
    let ih = edges_left_mono c visited rest in ground (arith, ih)

pub edges_left-enter :
    (c : ℕ) (visited : List ℕ) (deps : Deps)
    → is_visited c visited ≡ false
    → length (deps_of deps c) + edges_left (c ∷ visited) deps ≤ edges_left visited deps
unfolding edges_left is_visited deps_of
edges_left-enter c visited [] h = omega arith
edges_left-enter c visited ((k, d) ∷ rest) h = elim (Bool-cases (k == c)) [
  | inl t ↦
      let e : k ≡ c = (==_iff k c).0 t in
      let mono = edges_left_mono c visited rest in rw (e, h) (ground (arith, mono))
  | inr t ↦ let ih = edges_left-enter c visited rest h in rw t (ground (arith, ih))
]

pub push_parents-length :
    (visited : List ℕ) (ds : List Dependency) (stack : List ℕ)
    → length (push_parents visited ds stack) ≤ length ds + length stack
unfolding push_parents
push_parents-length visited [] stack = omega arith
push_parents-length visited (d ∷ ds) stack = elim (Bool-cases (is_visited d.parent_id visited)) [
  | inl t ↦ let ih = push_parents-length visited ds stack in rw t (omega (arith, ih))
  | inr t ↦
      let ih = push_parents-length visited ds (d.parent_id ∷ stack) in rw t (omega (arith, ih))
]
