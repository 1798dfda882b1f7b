-- ===== src/Domain/Tasks/Acyclic/Order.antt =====
-- The dependency graph, and lists of tasks in topological order.
use horseness.Common.{
  String, List, [], ◌∷◌, true, false, member, string_eq, ◌≡◌, inl, inr, Bool-cases, str_eq,
  str_eq_iff, arith,
}
use horseness.Domain.Tasks.Dependencies.{DependencyEdge}
use horseness.Domain.Tasks.Acyclic.{outgoing}

-- `v` depends on `u`: some edge leads from `u` to `v`.
abbrev pub Depends : List DependencyEdge → String → String → Type 0
Depends edges u v = member v (outgoing edges u) ≡ true

-- A chain of one or more dependencies.
pub data Reach (edges : List DependencyEdge) : String → String → Type 0 where
  direct : (u v : String) → Depends edges u v → Reach edges u v
  through : (u v w : String) → Depends edges u v → Reach edges v w → Reach edges u w

pub Reach-snoc :
    (edges : List DependencyEdge) {u v : String} (w : String)
    → Reach edges u v
    → Depends edges v w
    → Reach edges u w
Reach-snoc edges w (direct u v d) e = through u v w d (direct v w e)
Reach-snoc edges w (through u x v d r) e = through u x w d (Reach-snoc edges w r e)

-- Each task stands once, before (nearer the head than) all that depend on it stand behind it.
abbrev pub Topo : List DependencyEdge → List String → Type 0
Topo edges [] = Unit
Topo edges (v ∷ rest) =
    (member v rest ≡ false)
    × ((w : String) → Depends edges v w → member w rest ≡ true)
    × Topo edges rest

module _ (edges : List DependencyEdge) where
  pub Topo-closed :
      (order : List String) {u w : String}
      → Topo edges order
      → member u order ≡ true
      → Reach edges u w
      → member w order ≡ true
  unfolding member
  Topo-closed [] t m r = cc
  Topo-closed (v ∷ rest) t m (direct u w d) = elim (Bool-cases (str_eq v u)) [
    | inl p ↦ ground (arith, t.1 w (rw ((str_eq_iff v u).0 p) d))
    | inr p ↦ ground (arith, Topo-closed rest t.2 (ground arith) (direct u w d))
  ]
  Topo-closed (v ∷ rest) t m (through u x w d r) = elim (Bool-cases (str_eq v u)) [
    | inl p ↦ ground (arith, Topo-closed rest t.2 (t.1 x (rw ((str_eq_iff v u).0 p) d)) r)
    | inr p ↦ ground (arith, Topo-closed rest t.2 (ground arith) (through u x w d r))
  ]

  -- A chain from the head leads into the rest.
  head-rest :
      (v : String) (rest : List String) {u w : String}
      → Topo edges (v ∷ rest)
      → v ≡ u
      → Reach edges u w
      → member w rest ≡ true
  head-rest v rest t p (direct u w d) = t.1 w (rw p d)
  head-rest v rest t p (through u x w d r) = Topo-closed rest t.2 (t.1 x (rw p d)) r

  pub Topo-acyclic :
      (order : List String) (u : String)
      → Topo edges order
      → member u order ≡ true
      → Reach edges u u
      → ⊥
  unfolding member
  Topo-acyclic [] u t m r = cc
  Topo-acyclic (v ∷ rest) u t m r = elim (Bool-cases (str_eq v u)) [
    | inl p ↦
        let e : v ≡ u = (str_eq_iff v u).0 p in
        let back : member u rest ≡ true = head-rest v rest t e r in ground (arith, t.0)
    | inr p ↦ Topo-acyclic rest u t.2 (ground arith) r
  ]
