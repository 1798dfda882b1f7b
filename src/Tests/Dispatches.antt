-- ===== src/Tests/Dispatches.antt =====
-- Runs of the dispatch state machine of packages/domain/src/tasks.ts.
use horseness.Common.{
  none, some, List, [], ◌∷◌, ok, ◌≡◌, ◌⊎◌, refl, truthy, str_eq, distinct, member, arith,
}
use horseness.Domain.Tasks.Types
use horseness.Domain.Tasks.Types.{
  Resolution, succeeded, failed, DispatchState, AttemptGenerationState, planned,
  launch_intent_committed, provider_handle_recorded, cancel_requested,
}
use horseness.Domain.Tasks.Dispatch.{
  DispatchInput, commit_launch_intent, record_handle, acknowledge, terminal_receipt, request_cancel,
  reduce_dispatch, run_dispatch, RetryScheduled, reuse, authorize_duplicate_risk_generation,
  reconcile_not_found_idempotent,
}
use horseness.Domain.Tasks.Dispatch.Invariant.{IsValid, run_dispatch-IsValid}
use horseness.Domain.Tasks.Dispatch.Outcome.{
  SameGeneration, SameOutcome, run_dispatch-SameGeneration, run_dispatch-terminal,
  reduce_dispatch-handle,
}

abbrev fresh : AttemptGenerationState
fresh = record {
  attempt_id = "attempt";
  generation = 1;
  state = planned;
  binding_digest = "binding";
  idempotency_key_digest = "key";
  provider_handle = none;
  terminal_event_sequence = none;
  finding_codes = [];
}

abbrev handled : AttemptGenerationState
handled = record fresh { state = provider_handle_recorded; provider_handle = some "h1" }

abbrev finished : AttemptGenerationState
finished = record handled {
  state = DispatchState.terminal succeeded;
  terminal_event_sequence = some 9;
}

abbrev lost : AttemptGenerationState
lost = record handled { state = DispatchState.unknown_outcome }

abbrev life : List DispatchInput
life =
    commit_launch_intent
    ∷ record_handle "h1"
    ∷ record_handle "h2"
    ∷ acknowledge
    ∷ terminal_receipt succeeded 9 none
    ∷ terminal_receipt failed 12 none
    ∷ []

life_outcome : (run_dispatch fresh life).state ≡ DispatchState.terminal succeeded
unfolding run_dispatch reduce_dispatch truthy str_eq member
life_outcome = refl

fresh-IsValid : IsValid fresh
unfolding distinct
fresh-IsValid = ground arith

run_dispatch-IsValid_example : IsValid (run_dispatch fresh life)
run_dispatch-IsValid_example = run_dispatch-IsValid fresh life fresh-IsValid

run_dispatch-terminal_example : SameOutcome finished (run_dispatch finished life)
run_dispatch-terminal_example = run_dispatch-terminal finished life succeeded refl

run_dispatch-SameGeneration_example : SameGeneration fresh (run_dispatch fresh life)
run_dispatch-SameGeneration_example = run_dispatch-SameGeneration fresh life

abbrev hasty : List DispatchInput
hasty = record_handle "h1" ∷ acknowledge ∷ terminal_receipt succeeded 9 none ∷ []

cancelled_state : AttemptGenerationState
cancelled_state = record handled { state = cancel_requested }

handled_cancel : reduce_dispatch handled request_cancel ≡ ok cancelled_state
unfolding reduce_dispatch cancelled_state
handled_cancel = refl

reduce_dispatch-handle_example :
    (cancelled_state.provider_handle ≡ some "h1")
    ⊎ ((request_cancel ≡ reconcile_not_found_idempotent)
        × (cancelled_state.state ≡ planned)
        × (cancelled_state.provider_handle ≡ none))
reduce_dispatch-handle_example =
    reduce_dispatch-handle handled cancelled_state request_cancel "h1" refl
      (unfold truthy str_eq in refl) handled_cancel

abbrev request : RetryScheduled
request = record {
  attempt_id = "attempt";
  prior_generation = 1;
  generation = 0;
  retry_ordinal = 1;
  retry_policy_digest = "policy";
  not_before = "2025-01-01T00:00:00Z";
  pin_decision = reuse;
  fork_pin_digest = "pin";
  reason = "failed";
  provider_idempotency_key_digest = "key2";
}

abbrev next_generation : AttemptGenerationState
next_generation = record fresh {
  generation = 2;
  binding_digest = "binding2";
  idempotency_key_digest = "key2";
  finding_codes = Types.duplicate_risk_authorized ∷ [];
}

lost_again : authorize_duplicate_risk_generation lost "binding2" "key2" ≡ ok next_generation
unfolding authorize_duplicate_risk_generation truthy str_eq
lost_again = refl
