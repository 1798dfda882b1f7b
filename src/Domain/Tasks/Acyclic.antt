-- ===== src/Domain/Tasks/Acyclic.antt =====
-- packages/domain/src/tasks.ts, `assertAcyclic`: the depth-first search for a dependency cycle.
pub mod Order
pub mod Search
pub mod Correct
use horseness.Common.{
  ℕ, zero, suc, String, List, [], ◌∷◌, Bool, true, false, not, ◌&&◌, ◌||◌, add, delete, member,
  distinct, string_eq, length, Result, ok, err, ◌>>=◌, ◌>>◌, guard, if◌then◌else◌, str_eq,
}
use horseness.Domain.Tasks.Types.{TaskError, invalid_dependency, dependency_cycle}
use horseness.Domain.Tasks.Dependencies.{DependencyEdge, validate_dependency_edge}

-- What ends the search early: a `DomainError`, or fuel that did not suffice.
pub data Stop : Type 0 where
  thrown : TaskError → Stop
  out_of_fuel : Stop

abbrev pub lift {ℓ} : {A : Type ℓ} → Result TaskError A → Result Stop A
lift (ok a) = ok a
lift (err e) = err (thrown e)

-- The loop over the edges; `ids` are the edge identities seen so far.
unfoldable pub check_edges :
    List String → List String → List DependencyEdge → Result TaskError (Unit {0})
unfolding validate_dependency_edge
check_edges tasks ids [] = ok tt
check_edges tasks ids (e ∷ es) =
    let rest = check_edges tasks (e.edge_id ∷ ids) es in
    do
      validate_dependency_edge e
      guard
          (not (member e.edge_id ids)
            && member e.source_task_id tasks
            && member e.dependent_task_id tasks)
          invalid_dependency
      rest

-- `outgoing.get(task) ?? []` behind that loop.
unfoldable pub outgoing : List DependencyEdge → String → List String
outgoing [] task = []
outgoing (e ∷ es) task =
    let rest = outgoing es task in
    if str_eq e.source_task_id task then e.dependent_task_id ∷ rest else rest

-- The two sets.
pub record Marks : Type 0 where
  pub visiting : List String
  pub visited : List String

-- `for (const next of list) visit(next)`
unfoldable pub visit_all :
    (String → Marks → Result Stop Marks) → List String → Marks → Result Stop Marks
visit_all visit [] m = ok m
visit_all visit (t ∷ ts) m = do k ← visit t m; visit_all visit ts k

abbrev leave : String → Marks → Marks
leave task m = record { visiting = delete task m.visiting; visited = add task m.visited }

-- The fuel bounds the depth of the calls.
unfoldable pub visit : List DependencyEdge → ℕ → String → Marks → Result Stop Marks
unfolding visit_all
visit edges zero task m = err out_of_fuel
visit edges (suc n) task m =
    let deeper =
      visit_all (visit edges n) (outgoing edges task)
        (record m { visiting = add task m.visiting }) in
    if member task m.visiting
    then err (thrown dependency_cycle)
    else if member task m.visited
    then ok m
    else (do k ← deeper; ok (leave task k))

unfoldable pub assert_acyclic : List String → List DependencyEdge → Result Stop (Unit {0})
assert_acyclic tasks edges = do
  lift (guard (distinct tasks) invalid_dependency)
  lift (check_edges tasks [] edges)
  m ← visit_all (visit edges (suc (length tasks))) tasks (record { visiting = []; visited = [] })
  ok tt
