-- ===== src/Domain/Tasks/Acyclic/Correct.antt =====
-- `assertAcyclic` as a whole: it ends, and it accepts exactly the graphs without a cycle.
use horseness.Common.{
  ℕ, zero, suc, String, List, [], ◌∷◌, true, member, distinct, string_eq, length, Result,
  Result-cases, >>=-eq-err, ok, err, ◌>>=◌, str_eq_iff, ◌≡◌, ◌≢◌, ap, add, ◌⊎◌, inl, inr, refl, ◌↔◌,
  ◌∙◌, Bool-cases, arith,
}
use horseness.Domain.Tasks.Types.{dependency_cycle}
use horseness.Domain.Tasks.Dependencies.{DependencyEdge}
use horseness.Domain.Tasks.Acyclic.{
  Stop, thrown, out_of_fuel, Marks, visit, visit_all, outgoing, leave, assert_acyclic, check_edges,
}
use horseness.Domain.Tasks.Acyclic.Order.{Depends, Reach, direct, through, Topo-acyclic}
use horseness.Domain.Tasks.Acyclic.Search.{
  visit_all-AllDone, visit-Done, visit_all-cycle, visit-cycle, visit_all-ends, visit-ends,
}

-- The checked edges lead from tasks to tasks.
check_edges-closed :
    (tasks ids : List String) (edges : List DependencyEdge) (u v : String)
    → check_edges tasks ids edges ≡ ok tt
    → Depends edges u v
    → (member u tasks ≡ true) × (member v tasks ≡ true)
unfolding check_edges outgoing member
check_edges-closed tasks ids [] u v h d = cc
check_edges-closed tasks ids (e ∷ es) u v h d = ground (
  arith,
  check_edges-closed tasks (e.edge_id ∷ ids) es u v,
  str_eq_iff e.source_task_id u,
  str_eq_iff e.dependent_task_id v,
)

abbrev start : Marks
start = record { visiting = []; visited = [] }

-- The search behind the checks.
abbrev search_from : List String → List DependencyEdge → Result Stop Marks
search_from tasks edges = visit_all (visit edges (suc (length tasks))) tasks start

-- What the checks ask before the search.
pub record IsChecked (tasks : List String) (edges : List DependencyEdge) : Type 0 where
  pub tasks_distinct : distinct tasks ≡ true
  pub edges_checked : check_edges tasks [] edges ≡ ok tt

assert_acyclic-checked :
    (tasks : List String) (edges : List DependencyEdge)
    → IsChecked tasks edges
    → assert_acyclic tasks edges ≡ (search_from tasks edges >>= λ m. ok tt)
unfolding assert_acyclic
assert_acyclic-checked tasks edges c = rw (c.tasks_distinct, c.edges_checked, assert_acyclic) refl

search-ends :
    (tasks : List String) (edges : List DependencyEdge)
    → IsChecked tasks edges
    → search_from tasks edges ≢ err out_of_fuel
search-ends tasks edges c =
    visit_all-ends edges (visit edges (suc (length tasks))) tasks (suc (length tasks))
      (visit-Done edges (suc (length tasks)))
      (visit-ends edges tasks (λ u v d. (check_edges-closed tasks [] edges u v c.edges_checked d).1)
        (suc (length tasks)))
      tasks start
      (record {
        enough = omega arith;
        once = unfold distinct in refl;
        known = λ u p. absurd (unfold member in cc);
      })
      tt (λ t p. p)

search-cycle :
    (tasks : List String) (edges : List DependencyEdge)
    → search_from tasks edges ≡ err (thrown dependency_cycle)
    → (x : String) × Reach edges x x
search-cycle tasks edges h =
    visit_all-cycle edges (visit edges (suc (length tasks))) (visit-Done edges (suc (length tasks)))
      (visit-cycle edges (suc (length tasks))) tasks start tt
      (λ t p u q. absurd (unfold member in cc)) h

start_of :
    {edges : List DependencyEdge} {u w : String}
    → Reach edges u w
    → (v : String) × Depends edges u v
start_of (direct u v d) = (v, d)
start_of (through u v w d r) = (v, d)

search_sound :
    (tasks : List String) (edges : List DependencyEdge) (m : Marks)
    → IsChecked tasks edges
    → search_from tasks edges ≡ ok m
    → (x : String) → Reach edges x x
    → ⊥
search_sound tasks edges m c h x r =
    let done : _ =
      visit_all-AllDone edges (visit edges (suc (length tasks)))
        (visit-Done edges (suc (length tasks))) tasks start m tt h in
    let (v, d) = start_of r in
    Topo-acyclic edges m.visited x done.order
      (done.marks x (check_edges-closed tasks [] edges x v c.edges_checked d).0) r

-- The two ways in which the search itself stops.
IsSearchStop : Stop → Type 0
IsSearchStop s = (s ≡ out_of_fuel) ⊎ (s ≡ thrown dependency_cycle)

visit_all-stop :
    (f : String → Marks → Result Stop Marks)
    → ((t : String) (m : Marks) (s : Stop) → f t m ≡ err s → IsSearchStop s)
    → (ts : List String) (m : Marks) (s : Stop) → visit_all f ts m ≡ err s
    → IsSearchStop s
unfolding visit_all
visit_all-stop f one [] m s h = absurd (cc)
visit_all-stop f one (t ∷ ts) m s h = elim (Result-cases (f t m)) [
  | inl (k, e) ↦ visit_all-stop f one ts k s (rw e at h)
  | inr (x, e) ↦ one t m s (e ∙ (rw e at h))
]

visit-stop :
    (edges : List DependencyEdge) (n : ℕ) (t : String) (m : Marks) (s : Stop)
    → visit edges n t m ≡ err s
    → IsSearchStop s
unfolding visit IsSearchStop
visit-stop edges zero t m s h = ground arith
visit-stop edges (suc n) t m s h = elim (Bool-cases (member t m.visiting)) [
  | inl p ↦ inr (cc (rw p at h))
  | inr p ↦ elim (Bool-cases (member t m.visited)) [
    | inl q ↦ absurd (cc (rw (p, q) at h))
    | inr q ↦
        visit_all-stop (visit edges n) (visit-stop edges n) (outgoing edges t)
          (record m { visiting = add t m.visiting }) s
          (>>=-eq-err
            (visit_all (visit edges n) (outgoing edges t)
              (record m { visiting = add t m.visiting }))
            (leave t) (rw (p, q) at h))
  ]
]

search-cases :
    (tasks : List String) (edges : List DependencyEdge)
    → IsChecked tasks edges
    → ((m : Marks) × (search_from tasks edges ≡ ok m))
      ⊎ (search_from tasks edges ≡ err (thrown dependency_cycle))
unfolding IsSearchStop
search-cases tasks edges c = elim (Result-cases (search_from tasks edges)) [
  | inl found ↦ inl found
  | inr (s, e) ↦
      elim (visit_all-stop (visit edges (suc (length tasks)))
        (visit-stop edges (suc (length tasks))) tasks start s e) [
          | inl p ↦ absurd (search-ends tasks edges c (e ∙ ap (λ (x : Stop). err x) p))
          | inr p ↦ inr (e ∙ ap (λ (x : Stop). err x) p)
        ]
]

-- For tasks without repetition and checked edges between them, `assertAcyclic` ends, within a
-- recursion depth of one more than the number of tasks: it returns exactly when no task depends on
-- itself through any chain of edges, and throws `DEPENDENCY_CYCLE` exactly when one does.
pub assert_acyclic_correct :
    (tasks : List String) (edges : List DependencyEdge)
    → IsChecked tasks edges
    → ((assert_acyclic tasks edges ≡ ok tt) ↔ ((x : String) → Reach edges x x → ⊥))
      × ((assert_acyclic tasks edges ≡ err (thrown dependency_cycle))
          ↔ ((x : String) × Reach edges x x))
      × ((assert_acyclic tasks edges ≡ ok tt)
          ⊎ (assert_acyclic tasks edges ≡ err (thrown dependency_cycle)))
assert_acyclic_correct tasks edges c =
    rw (assert_acyclic-checked tasks edges c) (elim (search-cases tasks edges c) [
      | inl (m, e) ↦
          let none_cyclic : (x : String) → Reach edges x x → ⊥ = search_sound tasks edges m c e in
          rw e (
            (λ h. none_cyclic, λ h. refl),
            (λ h. absurd (cc), λ w. absurd (none_cyclic w.0 w.1)),
            inl refl,
          )
      | inr e ↦
          let (x, r) = search-cycle tasks edges e in
          rw e ((λ h. absurd (cc), λ h. absurd (h x r)), (λ h. (x, r), λ w. refl), inr refl)
    ])
