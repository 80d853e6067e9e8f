-- ===== src/Workflow/Graph/Mirror.antt =====
-- `parentToChildren` lists each child of an entry once, and no other.
pub mod Kept
pub mod Removed
use mathlib.Core.Path.{subst}
use go_cron.Prelude.{
  ℕ, suc, ◌+◌, ◌-◌, ◌≤◌, ◌≡◌, refl, sym, ap, ◌∙◌, Bool, true, false, not, ◌&&◌, ◌||◌, ◌==◌, ==_iff,
  if◌then◌else◌, Bool-cases, inl, inr, List, [], ◌∷◌, ◌++◌, ◌⊎◌, Option, some, none, arith,
}
use go_cron.Workflow.{TriggerCondition, Dependency, Deps, deps_of}
use go_cron.Workflow.Graph.{
  Graph, has_parent, contains, set, children_of, add_edge, AddError, add_dependency, has_edge,
}
use go_cron.Workflow.Graph.Laws.{deps_of-set}
use go_cron.Workflow.Graph.Removal.{
  erase, without_parent, delete_first, none_left, drop_parent, unlist, drop_child, drop_children,
  drop_parents, remove_dependency, remove_edges_as_child, remove_edges_as_parent,
  remove_entry_dependencies,
}

unfoldable pub occurrences : ℕ → List ℕ → ℕ
occurrences x [] = 0
occurrences x (y ∷ ys) = (if y == x then 1 else 0) + occurrences x ys

abbrev pub one_if : Bool → ℕ
one_if true = 1
one_if false = 0

-- The two maps of the dependencies agree.
abbrev pub IsMirror : Graph → Type 0
IsMirror g =
    (x p : ℕ)
    → occurrences x (children_of g.parent_to_children p)
      ≡ one_if (has_parent p (deps_of g.entry_deps x))

pub children_of-set :
    (lists : List (ℕ × List ℕ)) (id j : ℕ) (l : List ℕ)
    → children_of (set lists id l) j ≡ (if id == j then l else children_of lists j)
unfolding children_of set
children_of-set [] id j l = refl
children_of-set ((k, x) ∷ rest) id j l = elim (Bool-cases (k == id)) [
  | inl t ↦
      let e : k ≡ id = (==_iff k id).0 t in
      rw (t, e) (elim (Bool-cases (id == j)) [ inl q ↦ rw q refl | inr q ↦ rw q refl ])
  | inr t ↦
      let ih = children_of-set rest id j l in
      rw (t, ih)
        (elim (Bool-cases (k == j)) [
          | inl q ↦ let other : (id == j) ≡ false = ground (arith, q, t) in rw (q, other) refl
          | inr q ↦ rw q refl
        ])
]

pub children_of-erase :
    (lists : List (ℕ × List ℕ)) (id j : ℕ)
    → children_of (erase lists id) j ≡ (if id == j then [] else children_of lists j)
unfolding children_of erase
children_of-erase [] id j = elim (Bool-cases (id == j)) [ inl q ↦ rw q refl | inr q ↦ rw q refl ]
children_of-erase ((k, x) ∷ rest) id j =
    let ih = children_of-erase rest id j in
    elim (Bool-cases (k == id)) [
      | inl t ↦
          let e : k ≡ id = (==_iff k id).0 t in
          rw (t, ih, e) (elim (Bool-cases (id == j)) [ inl q ↦ rw q refl | inr q ↦ rw q refl ])
      | inr t ↦
          rw (t, ih)
            (elim (Bool-cases (k == j)) [
              | inl q ↦ let other : (id == j) ≡ false = ground (arith, q, t) in rw (q, other) refl
              | inr q ↦ rw q refl
            ])
    ]

pub deps_of-erase :
    (deps : Deps) (id j : ℕ) → deps_of (erase deps id) j ≡ (if id == j then [] else deps_of deps j)
unfolding deps_of erase
deps_of-erase [] id j = elim (Bool-cases (id == j)) [ inl q ↦ rw q refl | inr q ↦ rw q refl ]
deps_of-erase ((k, x) ∷ rest) id j =
    let ih = deps_of-erase rest id j in
    elim (Bool-cases (k == id)) [
      | inl t ↦
          let e : k ≡ id = (==_iff k id).0 t in
          rw (t, ih, e) (elim (Bool-cases (id == j)) [ inl q ↦ rw q refl | inr q ↦ rw q refl ])
      | inr t ↦
          rw (t, ih)
            (elim (Bool-cases (k == j)) [
              | inl q ↦ let other : (id == j) ≡ false = ground (arith, q, t) in rw (q, other) refl
              | inr q ↦ rw q refl
            ])
    ]

pub has_parent-append :
    (p : ℕ) (l m : List Dependency) → has_parent p (l ++ m) ≡ (has_parent p l || has_parent p m)
has_parent-append p [] m = refl
has_parent-append p (d ∷ l) m = ground (arith, has_parent-append p l m)

pub has_parent-without_parent :
    (q p : ℕ) (ds : List Dependency)
    → has_parent q (without_parent p ds) ≡ (not (p == q) && has_parent q ds)
unfolding without_parent
has_parent-without_parent q p [] = ground arith
has_parent-without_parent q p (d ∷ ds) =
    let ih = has_parent-without_parent q p ds in
    elim (Bool-cases (d.parent_id == p)) [
      | inl t ↦ rw t (ground (arith, ih, t))
      | inr t ↦ rw t (ground (arith, ih, t))
    ]

none_left-nil {ℓ} : {A : Type ℓ} (l : List A) → none_left l ≡ true → [] ≡ l
none_left-nil [] h = refl
none_left-nil (x ∷ xs) h = cc

pub deps_of-drop_parent :
    (deps : Deps) (c p x : ℕ)
    → deps_of (drop_parent deps c p) x
      ≡ (if c == x then without_parent p (deps_of deps c) else deps_of deps x)
unfolding drop_parent
deps_of-drop_parent deps c p x =
    let ds = without_parent p (deps_of deps c) in
    elim (Bool-cases (none_left ds)) [
      | inl t ↦ rw t (
          deps_of-erase (set deps c ds) c x ∙ elim (Bool-cases (c == x)) [
            | inl q ↦ rw q (none_left-nil ds t)
            | inr q ↦ rw q (deps_of-set deps c x ds ∙ rw q refl)
          ])
      | inr t ↦ rw t (deps_of-set deps c x ds)
    ]

delete_first-absent : (c : ℕ) (l : List ℕ) → contains c l ≡ false → delete_first c l ≡ l
unfolding delete_first
delete_first-absent c [] h = refl
delete_first-absent c (x ∷ l) h =
    let other : (x == c) ≡ false = ground (arith, h) in
    rw (other, delete_first-absent c l (ground (arith, h))) refl

children_of-unlist :
    (lists : List (ℕ × List ℕ)) (p c q : ℕ)
    → children_of (unlist lists p c) q
      ≡ (if p == q then delete_first c (children_of lists p) else children_of lists q)
unfolding unlist
children_of-unlist lists p c q = elim (Bool-cases (contains c (children_of lists p))) [
  | inl t ↦ rw t (children_of-set lists p q (delete_first c (children_of lists p)))
  | inr t ↦
      rw (t, delete_first-absent c (children_of lists p) t)
        (elim (Bool-cases (p == q)) [
          | inl s ↦ rw s (ap (children_of lists) (sym ((==_iff p q).0 s)))
          | inr s ↦ rw s refl
        ])
]

pub children_of-drop_child :
    (lists : List (ℕ × List ℕ)) (p c q : ℕ)
    → children_of (drop_child lists p c) q
      ≡ (if p == q then delete_first c (children_of lists p) else children_of lists q)
unfolding drop_child
children_of-drop_child lists p c q =
    let kept = unlist lists p c in
    elim (Bool-cases (none_left (children_of kept p))) [
      | inl t ↦ rw t (
          children_of-erase kept p q ∙ elim (Bool-cases (p == q)) [
            | inl s ↦
                let same : (p == p) ≡ true = ground arith in
                rw s (
                  none_left-nil (children_of kept p) t
                  ∙ children_of-unlist lists p c p
                  ∙ rw same refl)
            | inr s ↦ rw s (children_of-unlist lists p c q ∙ rw s refl)
          ])
      | inr t ↦ rw t (children_of-unlist lists p c q)
    ]

pub occurrences-delete_first :
    (x c : ℕ) (l : List ℕ) → occurrences x (delete_first c l) ≡ occurrences x l - one_if (c == x)
unfolding occurrences delete_first
occurrences-delete_first x c [] = omega arith
occurrences-delete_first x c (y ∷ l) =
    let ih = occurrences-delete_first x c l in
    elim (Bool-cases (y == c)) [
      | inl t ↦ rw t (ground (arith, t))
      | inr t ↦ rw t (ground (arith, t, ih))
    ]
