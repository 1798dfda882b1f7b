-- ===== src/Tests/Tasks.antt =====
-- Runs of the other functions of packages/domain/src/tasks.ts.
use horseness.Common.{
  ℕ, String, Option, none, some, List, [], ◌∷◌, true, false, not, ◌&&◌, every, any, member,
  distinct, string_eq, ok, err, if◌then◌else◌, ◌≡◌, ◌⊎◌, ◌↔◌, refl, truthy, str_eq, add, delete,
}
use horseness.Common.Sort.{swap}
use horseness.Domain.Tasks.Types.{
  succeeded, failed, cancelled, DispatchState, AttemptGenerationState, active, dependency_cycle,
  invalid_dependency, invalid_attempt_generation,
}
use horseness.Domain.Tasks.Lifecycle.{CompletionPredicate, SchedulabilityInput}
use horseness.Domain.Tasks.Dependencies.{
  DependencyEdge, DependencyOutcome, requires_success, validate_dependency_edge, edge_ok,
  evaluate_dependencies, evaluate_dependencies_lem, is_known, is_released, cancels, reason_codes_of,
}
use horseness.Domain.Tasks.Acyclic.{assert_acyclic, check_edges, thrown, outgoing, visit, visit_all}
use horseness.Domain.Tasks.Acyclic.Order.{Reach}
use horseness.Domain.Tasks.Acyclic.Correct.{IsChecked, assert_acyclic_correct}
use horseness.Domain.Tasks.Resolution.{ResolveInput, TaskResolution, resolve_task, terminals}
use horseness.Domain.Tasks.Resolution.Arbitration.{resolve_task-Rearranged, numbered}
use horseness.Domain.Tasks.Resolution.Winner.{Decided, resolve_task-Decided}

abbrev edge : String → String → String → DependencyEdge
edge id source dependent = record {
  edge_id = id;
  source_task_id = source;
  dependent_task_id = dependent;
  edge_type = requires_success;
  allowed_outcomes = none;
  release_predicate = "p";
  propagate_cancellation = true;
}

abbrev names : List String
names = "a" ∷ "b" ∷ "c" ∷ []

abbrev chain_edges : List DependencyEdge
chain_edges = edge "1" "a" "b" ∷ edge "2" "b" "c" ∷ []

abbrev loop_edges : List DependencyEdge
loop_edges = edge "1" "a" "b" ∷ edge "2" "b" "c" ∷ edge "3" "c" "a" ∷ []

chain_accepted : assert_acyclic names chain_edges ≡ ok tt
unfolding assert_acyclic check_edges validate_dependency_edge outgoing visit visit_all truthy str_eq
    member add delete distinct
chain_accepted = refl

loop_refused : assert_acyclic names loop_edges ≡ err (thrown dependency_cycle)
unfolding assert_acyclic check_edges validate_dependency_edge outgoing visit visit_all truthy str_eq
    member add delete distinct
loop_refused = refl

loop-IsChecked : IsChecked names loop_edges
unfolding check_edges validate_dependency_edge truthy str_eq member distinct
loop-IsChecked = record { tasks_distinct = refl; edges_checked = refl }

assert_acyclic_correct_example :
    ((assert_acyclic names loop_edges ≡ ok tt) ↔ ((x : String) → Reach loop_edges x x → ⊥))
    × ((assert_acyclic names loop_edges ≡ err (thrown dependency_cycle))
        ↔ ((x : String) × Reach loop_edges x x))
    × ((assert_acyclic names loop_edges ≡ ok tt)
        ⊎ (assert_acyclic names loop_edges ≡ err (thrown dependency_cycle)))
assert_acyclic_correct_example = assert_acyclic_correct names loop_edges loop-IsChecked

abbrev outcomes : String → Option DependencyOutcome
outcomes id =
    if str_eq id "1"
    then some (record {
      edge_id = "1";
      edge_type = requires_success;
      source_task_id = "a";
      task_resolution_event_sequence = 4;
      task_resolution_digest = "d";
      winning_generation = some 1;
      resolution = cancelled;
    })
    else none

evaluate_dependencies_lem_example : evaluate_dependencies outcomes chain_edges ≡ (
    if every edge_ok chain_edges
    then ok (record {
      satisfied =
          every (is_known outcomes) chain_edges
          && every (is_released outcomes) chain_edges
          && not (any (cancels outcomes) chain_edges);
      unknown = not (every (is_known outcomes) chain_edges);
      cancellation_propagated = any (cancels outcomes) chain_edges;
      reason_codes = reason_codes_of (record {
        unknown = not (every (is_known outcomes) chain_edges);
        unsatisfied = not (every (is_released outcomes) chain_edges);
        cancellation = any (cancels outcomes) chain_edges;
      });
    })
    else err invalid_dependency)
evaluate_dependencies_lem_example = evaluate_dependencies_lem outcomes chain_edges

abbrev attempt : ℕ → DispatchState → Option ℕ → AttemptGenerationState
attempt n state sequence = record {
  attempt_id = "attempt";
  generation = n;
  state = state;
  binding_digest = "binding";
  idempotency_key_digest = "key";
  provider_handle = none;
  terminal_event_sequence = sequence;
  finding_codes = [];
}

abbrev question : ResolveInput ℕ
question = record {
  task_id = "t";
  generations =
      attempt 1 (DispatchState.terminal failed) (some 5)
      ∷ attempt 2 (DispatchState.terminal succeeded) (some 9)
      ∷ [];
  retry_policy_digest = "policy";
  retry_permitted = false;
  cancellation_requested = false;
  observation_cursor = 0;
}

abbrev turned : List AttemptGenerationState
turned =
    attempt 2 (DispatchState.terminal succeeded) (some 9)
    ∷ attempt 1 (DispatchState.terminal failed) (some 5)
    ∷ []

resolve_task-Rearranged_example :
    resolve_task question ≡ resolve_task (record question { generations = turned })
resolve_task-Rearranged_example = resolve_task-Rearranged question turned (
    swap (attempt 1 (DispatchState.terminal failed) (some 5))
      (attempt 2 (DispatchState.terminal succeeded) (some 9)) [])

resolve_task-Decided_example :
    ((o : Option (TaskResolution ℕ))
      → resolve_task question ≡ ok o
      → Decided question (terminals question.generations) o)
    × ((numbered question.generations ≡ false)
        ↔ (resolve_task question ≡ err invalid_attempt_generation))
resolve_task-Decided_example = resolve_task-Decided question

abbrev idle : SchedulabilityInput
idle = record {
  lifecycle = active;
  contract_valid = true;
  dependencies_satisfied = true;
  has_unknown_dependency = false;
  cancellation_propagated = false;
  authorization_allowed = true;
  quota_allowed = true;
  live_attempt = false;
  unknown_outcome = false;
}

abbrev identity : CompletionPredicate ℕ → String
identity _ = "receipt"
