-- ===== src/Domain/Tasks/Acyclic/Search.antt =====
-- The search of `assertAcyclic` meets its specification: it always ends, it accepts only graphs
-- without a cycle, and it reports a cycle only where there is one.
use mathlib.Core.Path.{subst}
use horseness.Common.{
  ℕ, zero, suc, ◌+◌, ◌<◌, String, List, [], ◌∷◌, true, false, add, delete, member, member-head,
  member-tail, member-add, distinct, string_eq, beq_refl, length, length-le_of_distinct, Result,
  Result-cases, >>=-eq-ok, >>=-eq-err, length-add, distinct-add, ok, err, str_eq, str_eq_iff, ◌≡◌,
  ◌≢◌, inl, inr, ap, ◌∙◌, sym, Bool-cases, arith,
}
use horseness.Domain.Tasks.Types.{dependency_cycle}
use horseness.Domain.Tasks.Dependencies.{DependencyEdge}
use horseness.Domain.Tasks.Acyclic.{
  Stop, thrown, out_of_fuel, Marks, visit, visit_all, outgoing, leave,
}
use horseness.Domain.Tasks.Acyclic.Order.{Depends, Reach, direct, Reach-snoc, Topo}

module _ (edges : List DependencyEdge) where
  -- What a visit that returns has done.
  pub record Done (t : String) (m k : Marks) : Type 0 where
    pub visiting : k.visiting ≡ m.visiting
    pub grows : (x : String) → member x m.visited ≡ true → member x k.visited ≡ true
    pub marks : member t k.visited ≡ true
    pub order : Topo edges k.visited

  pub record AllDone (ts : List String) (m k : Marks) : Type 0 where
    pub visiting : k.visiting ≡ m.visiting
    pub grows : (x : String) → member x m.visited ≡ true → member x k.visited ≡ true
    pub marks : (x : String) → member x ts ≡ true → member x k.visited ≡ true
    pub order : Topo edges k.visited

  -- A visit that does its work does it along a list.
  pub visit_all-AllDone :
      (f : String → Marks → Result Stop Marks)
      → ((t : String) (m k : Marks) → Topo edges m.visited → f t m ≡ ok k → Done t m k)
      → (ts : List String) (m k : Marks) → Topo edges m.visited
      → visit_all f ts m ≡ ok k
      → AllDone ts m k
  unfolding visit_all member
  visit_all-AllDone f one [] m k o h =
      let e : m ≡ k = cc in
      record {
        visiting = ap (λ (n : Marks). n.visiting) (sym e);
        grows = λ x p. subst (λ (n : Marks). member x n.visited ≡ true) e p;
        marks = λ x p. cc;
        order = subst (λ (n : Marks). Topo edges n.visited) e o;
      }
  visit_all-AllDone f one (t ∷ ts) m k o h = elim (Result-cases (f t m)) [
    | inl (n, e) ↦
        let first : Done t m n = one t m n o e in
        let rest : AllDone ts n k = visit_all-AllDone f one ts n k first.order (rw e at h) in
        record {
          visiting = rest.visiting ∙ first.visiting;
          grows = λ x p. rest.grows x (first.grows x p);
          marks = λ x p. elim (Bool-cases (str_eq t x)) [
            | inl q ↦ rest.grows x (rw (← (str_eq_iff t x).0 q) first.marks)
            | inr q ↦ rest.marks x (ground arith)
          ];
          order = rest.order;
        }
    | inr (s, e) ↦ absurd (cc (rw e at h))
  ]

  -- Leaving a task puts it before all that it depends on, which its visit has marked.
  add-Topo :
      (t : String) (order : List String)
      → ((w : String) → Depends edges t w → member w order ≡ true)
      → Topo edges order
      → Topo edges (add t order)
  unfolding add
  add-Topo t order d o = elim (Bool-cases (member t order)) [
    | inl p ↦ rw (p, add) o
    | inr p ↦ rw (p, add) (p, d, o)
  ]

  delete-add : (t : String) (xs : List String) → member t xs ≡ false → delete t (add t xs) ≡ xs
  unfolding add delete
  delete-add t xs p = ground (arith, beq_refl t)

  pub visit-Done :
      (n : ℕ) (t : String) (m k : Marks)
      → Topo edges m.visited
      → visit edges n t m ≡ ok k
      → Done t m k
  unfolding visit
  visit-Done zero t m k o h = absurd (cc)
  visit-Done (suc n) t m k o h = elim (Bool-cases (member t m.visiting)) [
    | inl p ↦ absurd (cc (rw p at h))
    | inr p ↦ elim (Bool-cases (member t m.visited)) [
      | inl q ↦
          let e : m ≡ k = cc (rw (p, q) at h) in
          record {
            visiting = ap (λ (n : Marks). n.visiting) (sym e);
            grows = λ x r. subst (λ (n : Marks). member x n.visited ≡ true) e r;
            marks = subst (λ (n : Marks). member t n.visited ≡ true) e q;
            order = subst (λ (n : Marks). Topo edges n.visited) e o;
          }
      | inr q ↦
          let inside : Marks = record m { visiting = add t m.visiting } in
          let (l, e, u) =
            >>=-eq-ok (visit_all (visit edges n) (outgoing edges t) inside) (λ l. ok (leave t l))
              (rw (p, q) at h) in
          let rest : AllDone (outgoing edges t) inside l =
            visit_all-AllDone (visit edges n) (visit-Done n) (outgoing edges t) inside l o e in
          let left : leave t l ≡ k = cc u in
          subst (λ (x : Marks). Done t m x) left
            (record {
              visiting = rw rest.visiting (delete-add t m.visiting p);
              grows = λ x r. rw (member-add x t l.visited) (ground (arith, rest.grows x r));
              marks = rw (member-add t t l.visited) (ground (arith, beq_refl t));
              order = add-Topo t l.visited rest.marks rest.order;
            })
    ]
  ]

  -- What a visit that reports a cycle knows: every task being visited reaches it.
  abbrev pub AllReach : Marks → String → Type 0
  AllReach m t = (u : String) → member u m.visiting ≡ true → Reach edges u t

  abbrev pub Cyclic : Type 0
  Cyclic = (x : String) × Reach edges x x

  pub visit_all-cycle :
      (f : String → Marks → Result Stop Marks)
      → ((t : String) (m k : Marks) → Topo edges m.visited → f t m ≡ ok k → Done t m k)
      → ((t : String) (m : Marks)
          → Topo edges m.visited
          → AllReach m t
          → f t m ≡ err (thrown dependency_cycle)
          → Cyclic)
      → (ts : List String) (m : Marks) → Topo edges m.visited
      → ((t : String) → member t ts ≡ true → AllReach m t)
      → visit_all f ts m ≡ err (thrown dependency_cycle)
      → Cyclic
  unfolding visit_all
  visit_all-cycle f did one [] m o r h = absurd (cc)
  visit_all-cycle f did one (t ∷ ts) m o r h = elim (Result-cases (f t m)) [
    | inl (k, e) ↦
        let first : Done t m k = did t m k o e in
        visit_all-cycle f did one ts k first.order
          (λ x p u q. r x (member-tail x t ts p) u (rw (← first.visiting) q)) (rw e at h)
    | inr (s, e) ↦ one t m o (r t (member-head t ts)) (e ∙ (rw e at h))
  ]

  pub visit-cycle :
      (n : ℕ) (t : String) (m : Marks)
      → Topo edges m.visited
      → AllReach m t
      → visit edges n t m ≡ err (thrown dependency_cycle)
      → Cyclic
  unfolding visit
  visit-cycle zero t m o r h = absurd (cc)
  visit-cycle (suc n) t m o r h = elim (Bool-cases (member t m.visiting)) [
    | inl p ↦ (t, r t p)
    | inr p ↦ elim (Bool-cases (member t m.visited)) [
      | inl q ↦ absurd (cc (rw (p, q) at h))
      | inr q ↦
          visit_all-cycle (visit edges n) (visit-Done n) (visit-cycle n) (outgoing edges t)
            (record m { visiting = add t m.visiting }) o
            (λ x d u g. elim (Bool-cases (str_eq t u)) [
              | inl w ↦ rw (← (str_eq_iff t u).0 w) (direct t x d)
              | inr w ↦ Reach-snoc edges x (r u (ground (arith, member-add u t m.visiting))) d
            ])
            (>>=-eq-err
              (visit_all (visit edges n) (outgoing edges t)
                (record m { visiting = add t m.visiting }))
              (leave t) (rw (p, q) at h))
    ]
  ]

  -- The fuel that is left and the tasks being visited are more than all tasks.
  pub record HasFuel (tasks : List String) (n : ℕ) (m : Marks) : Type 0 where
    pub enough : length tasks < n + length m.visiting
    pub once : distinct m.visiting ≡ true
    pub known : (u : String) → member u m.visiting ≡ true → member u tasks ≡ true

  pub visit_all-ends :
      (f : String → Marks → Result Stop Marks) (tasks : List String) (n : ℕ)
      → ((t : String) (m k : Marks) → Topo edges m.visited → f t m ≡ ok k → Done t m k)
      → ((t : String) (m : Marks)
          → HasFuel tasks n m
          → Topo edges m.visited
          → member t tasks ≡ true
          → f t m ≢ err out_of_fuel)
      → (ts : List String) (m : Marks) → HasFuel tasks n m
      → Topo edges m.visited
      → ((t : String) → member t ts ≡ true → member t tasks ≡ true)
      → visit_all f ts m ≢ err out_of_fuel
  unfolding visit_all
  visit_all-ends f tasks n did one [] m w o r h = cc
  visit_all-ends f tasks n did one (t ∷ ts) m w o r h = elim (Result-cases (f t m)) [
    | inl (k, e) ↦
        let first : Done t m k = did t m k o e in
        let v : k.visiting ≡ m.visiting = first.visiting in
        visit_all-ends f tasks n did one ts k
          (record {
            enough = rw v w.enough;
            once = rw v w.once;
            known = λ u p. w.known u (rw (← v) p);
          })
          first.order (λ x p. r x (member-tail x t ts p)) (rw e at h)
    | inr (s, e) ↦ one t m w o (r t (member-head t ts)) (e ∙ (rw e at h))
  ]

  module _ (tasks : List String)
      (closed : (u v : String) → Depends edges u v → member v tasks ≡ true) where
    pub visit-ends :
        (n : ℕ) (t : String) (m : Marks)
        → HasFuel tasks n m
        → Topo edges m.visited
        → member t tasks ≡ true
        → visit edges n t m ≢ err out_of_fuel
    unfolding visit
    visit-ends zero t m w o k h =
        absurd (omega (arith, length-le_of_distinct m.visiting tasks w.once w.known, w.enough))
    visit-ends (suc n) t m w o k h = elim (Bool-cases (member t m.visiting)) [
      | inl p ↦ cc (rw p at h)
      | inr p ↦ elim (Bool-cases (member t m.visited)) [
        | inl q ↦ cc (rw (p, q) at h)
        | inr q ↦
            visit_all-ends (visit edges n) tasks n (visit-Done n) (visit-ends n) (outgoing edges t)
              (record m { visiting = add t m.visiting })
              (record {
                enough = omega (arith, w.enough, length-add t m.visiting p);
                once = distinct-add t m.visiting w.once;
                known = λ u g. ground (arith, member-add u t m.visiting, str_eq_iff t u, w.known u);
              })
              o (closed t)
              (>>=-eq-err
                (visit_all (visit edges n) (outgoing edges t)
                  (record m { visiting = add t m.visiting }))
                (leave t) (rw (p, q) at h))
      ]
    ]
