-- ===== src/Domain/Tasks/Lifecycle.antt =====
-- packages/domain/src/tasks.ts: completion policies, the task lifecycle and schedulability.
use horseness.Common.{
  ℕ, String, List, [], ◌∷◌, Bool, true, false, not, ◌||◌, ◌≡◌, ◌≢◌, ◌⊎◌, ◌↔◌, every, member,
  string_eq, Result, ok, err, if◌then◌else◌, arith,
}
use horseness.Domain.Tasks.Types.{
  TaskError, invalid_completion_policy, illegal_task_transition, Resolution, cancelled,
  TaskLifecycle, draft, active, resolved, Schedulability, ineligible, blocked, ready, running,
}

-- A cursor is data that this file only hashes, so its type is a parameter.
pub data CompletionPredicate (Cursor : Type 0) : Type 0 where
  receipt_only : CompletionPredicate Cursor
  canonical_change : String → String → ℕ → String → CompletionPredicate Cursor
  artifact_published : List String → List String → CompletionPredicate Cursor
  approval_recorded : String → String → Cursor → String → CompletionPredicate Cursor

pub data CompletionPolicy (Cursor : Type 0) : Type 0 where
  predicate : CompletionPredicate Cursor → CompletionPolicy Cursor
  all : List (CompletionPredicate Cursor) → CompletionPolicy Cursor

abbrev pub predicates :
    {Cursor : Type 0} → CompletionPolicy Cursor → List (CompletionPredicate Cursor)
predicates (predicate p) = p ∷ []
predicates (all ps) = ps

-- `identity` is `completionPredicateIdentity`, a SHA-256 digest of the predicate's canonical JSON.
module _ {Cursor : Type 0} (identity : CompletionPredicate Cursor → String) where
  unfoldable pub completion_policy_satisfied :
      CompletionPolicy Cursor → List String → Result TaskError Bool
  completion_policy_satisfied policy durable = elim (predicates policy) [
    | [] ↦ err invalid_completion_policy
    | p ∷ ps ↦ ok (every (λ q. member (identity q) durable) (p ∷ ps))
  ]

pub data TaskLifecycleInput : Type 0 where
  activate : TaskLifecycleInput
  resolve : Resolution → TaskLifecycleInput

unfoldable pub reduce_task_lifecycle :
    TaskLifecycle → TaskLifecycleInput → Result TaskError TaskLifecycle
reduce_task_lifecycle draft activate = ok active
reduce_task_lifecycle draft (resolve cancelled) = ok (resolved cancelled)
reduce_task_lifecycle active (resolve r) = ok (resolved r)
reduce_task_lifecycle _ _ = err illegal_task_transition

-- The lifecycle of a task over a list of inputs, each refused input changing nothing.
unfoldable pub run_lifecycle : TaskLifecycle → List TaskLifecycleInput → TaskLifecycle
unfolding reduce_task_lifecycle
run_lifecycle s [] = s
run_lifecycle s (i ∷ is) =
    run_lifecycle (elim (reduce_task_lifecycle s i) [ ok t ↦ t | err _ ↦ s ]) is

pub record SchedulabilityInput : Type 0 where
  pub lifecycle : TaskLifecycle
  pub contract_valid : Bool
  pub dependencies_satisfied : Bool
  pub has_unknown_dependency : Bool
  pub cancellation_propagated : Bool
  pub authorization_allowed : Bool
  pub quota_allowed : Bool
  pub live_attempt : Bool
  pub unknown_outcome : Bool

abbrev pub is_task_terminal : TaskLifecycle → Bool
is_task_terminal (resolved _) = true
is_task_terminal _ = false

abbrev is_draft : TaskLifecycle → Bool
is_draft draft = true
is_draft _ = false

unfoldable pub derive_schedulability : SchedulabilityInput → Schedulability
derive_schedulability i =
    if is_task_terminal i.lifecycle
    then Schedulability.terminal
    else if is_draft i.lifecycle || not i.contract_valid || i.cancellation_propagated
    then ineligible
    else if i.unknown_outcome
    then Schedulability.unknown_outcome
    else if i.live_attempt
    then running
    else if not i.dependencies_satisfied
        || i.has_unknown_dependency
        || not i.authorization_allowed
        || not i.quota_allowed
    then blocked
    else ready

-- A task is ready exactly when it is active with a valid contract, nothing cancels it, no attempt
-- is live or of unknown outcome, its dependencies are known and satisfied, and authorization and
-- quota both allow it.
pub derive_schedulability-ready :
    (i : SchedulabilityInput)
    → (derive_schedulability i ≡ ready) ↔ (
        (i.lifecycle ≡ active)
        × (i.contract_valid ≡ true)
        × (i.cancellation_propagated ≡ false)
        × (i.unknown_outcome ≡ false)
        × (i.live_attempt ≡ false)
        × (i.dependencies_satisfied ≡ true)
        × (i.has_unknown_dependency ≡ false)
        × (i.authorization_allowed ≡ true)
        × (i.quota_allowed ≡ true))
unfolding derive_schedulability
derive_schedulability-ready i = ground arith

-- A resolved task keeps its resolution whatever inputs follow.
pub run_lifecycle-resolved :
    (r : Resolution) (is : List TaskLifecycleInput) → run_lifecycle (resolved r) is ≡ resolved r
unfolding run_lifecycle
run_lifecycle-resolved r [] = ground arith
run_lifecycle-resolved r (activate ∷ is) = run_lifecycle-resolved r is
run_lifecycle-resolved r (resolve x ∷ is) = run_lifecycle-resolved r is

abbrev is_activate : TaskLifecycleInput → Bool
is_activate activate = true
is_activate (resolve _) = false

abbrev pub has_activate : List TaskLifecycleInput → Bool
has_activate [] = false
has_activate (i ∷ is) = is_activate i || has_activate is

-- From a draft, inputs without an `activate` leave the task a draft or cancelled: only a task that
-- is activated reaches `succeeded` or `failed`.
pub run_lifecycle-draft :
    (is : List TaskLifecycleInput)
    → has_activate is ≡ false
    → (run_lifecycle draft is ≡ draft) ⊎ (run_lifecycle draft is ≡ resolved cancelled)
unfolding run_lifecycle
run_lifecycle-draft [] h = ground arith
run_lifecycle-draft (activate ∷ is) h = cc
run_lifecycle-draft (resolve Resolution.succeeded ∷ is) h = run_lifecycle-draft is h
run_lifecycle-draft (resolve Resolution.failed ∷ is) h = run_lifecycle-draft is h
run_lifecycle-draft (resolve cancelled ∷ is) h = ground (arith, run_lifecycle-resolved cancelled is)

module _ {Cursor : Type 0} (identity : CompletionPredicate Cursor → String) where
  -- A completion policy is satisfied exactly when it names at least one predicate and the identity
  -- of each predicate that it names is durable; a policy that names none is refused.
  pub completion_policy_satisfied_lem :
      (policy : CompletionPolicy Cursor) (durable : List String)
      → ((completion_policy_satisfied identity policy durable ≡ ok true) ↔ (
          (predicates policy ≢ [])
          × (every (λ q. member (identity q) durable) (predicates policy) ≡ true)))
        × ((completion_policy_satisfied identity policy durable ≡ err invalid_completion_policy)
            ↔ (predicates policy ≡ []))
  unfolding completion_policy_satisfied
  completion_policy_satisfied_lem policy durable = ground arith
