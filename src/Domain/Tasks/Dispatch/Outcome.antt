-- ===== src/Domain/Tasks/Dispatch/Outcome.antt =====
-- What the dispatch state machine never changes, and how an outcome is reached.
use horseness.Common.{
  String, none, some, List, [], ◌∷◌, Bool, true, false, ◌||◌, Result-cases, ok, ◌≡◌, ◌⊎◌, inl, inr,
  ◌∙◌, truthy, str_eq_iff, arith,
}
use horseness.Domain.Tasks.Types.{Resolution, DispatchState, AttemptGenerationState, planned}
use horseness.Domain.Tasks.Dispatch.{
  DispatchInput, reduce_dispatch, run_dispatch, reconcile_not_found_idempotent,
  commit_launch_intent, terminal_receipt, record_handle, reconcile_found,
}

-- The identity of a generation: what its attempt, number, binding and key are.
pub record SameGeneration (s t : AttemptGenerationState) : Type 0 where
  pub attempt_id : t.attempt_id ≡ s.attempt_id
  pub generation : t.generation ≡ s.generation
  pub binding_digest : t.binding_digest ≡ s.binding_digest
  pub idempotency_key_digest : t.idempotency_key_digest ≡ s.idempotency_key_digest

pub reduce_dispatch-SameGeneration :
    (s t : AttemptGenerationState) (i : DispatchInput)
    → reduce_dispatch s i ≡ ok t
    → SameGeneration s t
unfolding reduce_dispatch
reduce_dispatch-SameGeneration s t (terminal_receipt r n x) h = ground arith
reduce_dispatch-SameGeneration s t i h = ground arith

SameGeneration-trans :
    (s t u : AttemptGenerationState) → SameGeneration s t → SameGeneration t u → SameGeneration s u
SameGeneration-trans s t u a b = ground arith

-- No list of inputs changes the attempt, the generation number, the binding or the idempotency key.
pub run_dispatch-SameGeneration :
    (s : AttemptGenerationState) (is : List DispatchInput) → SameGeneration s (run_dispatch s is)
unfolding run_dispatch
run_dispatch-SameGeneration s [] = ground arith
run_dispatch-SameGeneration s (i ∷ is) = elim (Result-cases (reduce_dispatch s i)) [
  | inl (t, e) ↦ rw e (
      SameGeneration-trans s t _ (reduce_dispatch-SameGeneration s t i e)
        (run_dispatch-SameGeneration t is))
  | inr (x, e) ↦ rw e (run_dispatch-SameGeneration s is)
]

-- What is recorded of an outcome.
pub record SameOutcome (s t : AttemptGenerationState) : Type 0 where
  pub state : t.state ≡ s.state
  pub provider_handle : t.provider_handle ≡ s.provider_handle
  pub terminal_event_sequence : t.terminal_event_sequence ≡ s.terminal_event_sequence

reduce_dispatch-SameOutcome :
    (s t : AttemptGenerationState) (i : DispatchInput) (r : Resolution)
    → s.state ≡ DispatchState.terminal r
    → reduce_dispatch s i ≡ ok t
    → SameOutcome s t
unfolding reduce_dispatch
reduce_dispatch-SameOutcome s t (terminal_receipt x n y) r k h = ground arith
reduce_dispatch-SameOutcome s t i r k h = ground arith

-- The first recorded outcome stands: after it no list of inputs, conflicting receipts included,
-- changes the state, the handle or the sequence of the terminal event.
pub run_dispatch-terminal :
    (s : AttemptGenerationState) (is : List DispatchInput) (r : Resolution)
    → s.state ≡ DispatchState.terminal r
    → SameOutcome s (run_dispatch s is)
unfolding run_dispatch
run_dispatch-terminal s [] r k = ground arith
run_dispatch-terminal s (i ∷ is) r k = elim (Result-cases (reduce_dispatch s i)) [
  | inl (t, e) ↦
      let one : SameOutcome s t = reduce_dispatch-SameOutcome s t i r k e in
      let more : SameOutcome t (run_dispatch t is) = run_dispatch-terminal t is r (one.state ∙ k) in
      rw e (ground arith)
  | inr (x, e) ↦ rw e (run_dispatch-terminal s is r k)
]

abbrev is_commit : DispatchInput → Bool
is_commit commit_launch_intent = true
is_commit _ = false

abbrev pub has_commit : List DispatchInput → Bool
has_commit [] = false
has_commit (i ∷ is) = is_commit i || has_commit is

reduce_dispatch-planned :
    (s t : AttemptGenerationState) (i : DispatchInput)
    → s.state ≡ planned
    → is_commit i ≡ false
    → reduce_dispatch s i ≡ ok t
    → t.state ≡ planned
unfolding reduce_dispatch
reduce_dispatch-planned s t (terminal_receipt x n y) k c h = ground arith
reduce_dispatch-planned s t i k c h = ground arith

-- A planned generation stays planned under every list of inputs without `commit-launch-intent`.
pub run_dispatch-planned :
    (s : AttemptGenerationState) (is : List DispatchInput)
    → s.state ≡ planned
    → has_commit is ≡ false
    → (run_dispatch s is).state ≡ planned
unfolding run_dispatch
run_dispatch-planned s [] k c = k
run_dispatch-planned s (i ∷ is) k c = elim (Result-cases (reduce_dispatch s i)) [
  | inl (t, e) ↦
      rw (e, run_dispatch)
        (run_dispatch-planned t is (reduce_dispatch-planned s t i k (ground arith) e)
          (ground arith))
  | inr (x, e) ↦ rw (e, run_dispatch) (run_dispatch-planned s is k (ground arith))
]

-- A recorded handle that is not empty is never replaced: after an accepted input it is the same,
-- or the input was `reconcile-not-found-idempotent`, which plans the generation anew without one.
pub reduce_dispatch-handle :
    (s t : AttemptGenerationState) (i : DispatchInput) (known : String)
    → s.provider_handle ≡ some known
    → truthy known ≡ true
    → reduce_dispatch s i ≡ ok t
    → (t.provider_handle ≡ some known)
      ⊎ ((i ≡ reconcile_not_found_idempotent) × (t.state ≡ planned) × (t.provider_handle ≡ none))
unfolding reduce_dispatch
reduce_dispatch-handle s t (terminal_receipt x n y) known k c h = ground arith
reduce_dispatch-handle s t (record_handle x) known k c h = ground (arith, str_eq_iff known x)
reduce_dispatch-handle s t (reconcile_found x) known k c h = ground (arith, str_eq_iff known x)
reduce_dispatch-handle s t i known k c h = ground arith
