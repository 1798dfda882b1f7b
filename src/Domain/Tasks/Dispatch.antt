-- ===== src/Domain/Tasks/Dispatch.antt =====
-- packages/domain/src/tasks.ts: the dispatch state machine of one attempt generation, retries and
-- the duplicate-risk generation.
pub mod Invariant
pub mod Outcome
use horseness.Common.{
  ℕ, ◌+◌, String, Option, none, some, List, [], ◌∷◌, ◌++◌, Bool, true, false, not, ◌&&◌, ◌||◌,
  member, Result, ok, err, if◌then◌else◌, ltb, ◌==◌, truthy, str_eq,
}
use horseness.Domain.Tasks.Types
use horseness.Domain.Tasks.Types.{
  TaskError, Resolution, DispatchState, FindingCode, AttemptGenerationState, resolution_beq,
  invalid_attempt_state, invalid_event_sequence, receipt_pre_handoff, invalid_provider_handle,
  illegal_dispatch_transition, retry_not_permitted, duplicate_risk_not_permitted, planned,
  launch_intent_committed, provider_handle_recorded, acknowledged, cancel_requested,
  reconciliation_required, late_terminal_receipt, conflicting_late_terminal_receipt,
  conflicting_provider_handle, late_dispatch_fact, duplicate_risk_authorized, finding_eq,
}

pub data DispatchInput : Type 0 where
  commit_launch_intent : DispatchInput
  record_handle : String → DispatchInput
  acknowledge request_cancel cancel_handed_off require_reconciliation : DispatchInput
  reconcile_found : String → DispatchInput
  reconcile_not_found_idempotent reconcile_ambiguous : DispatchInput
  terminal_receipt : Resolution → ℕ → Option String → DispatchInput
  manual_resolution : Resolution → ℕ → DispatchInput

abbrev pub is_terminal : DispatchState → Bool
is_terminal (DispatchState.terminal _) = true
is_terminal _ = false

unfoldable pub finding : AttemptGenerationState → FindingCode → AttemptGenerationState
finding s code =
    if member code s.finding_codes
    then s
    else record s { finding_codes = s.finding_codes ++ code ∷ [] }

abbrev is_some {ℓ} : {A : Type ℓ} → Option A → Bool
is_some none = false
is_some (some _) = true

-- `known && known !== handle`
abbrev conflicts : Option String → String → Bool
conflicts none handle = false
conflicts (some known) handle = truthy known && not (str_eq known handle)

-- `handle && known && handle !== known`
abbrev receipt_conflicts : Option String → Option String → Bool
receipt_conflicts known none = false
receipt_conflicts known (some handle) = truthy handle && conflicts known handle

-- `known ?? handle ?? null`
abbrev coalesce : Option String → Option String → Option String
coalesce (some known) handle = some known
coalesce none handle = handle

-- The branch of `record-handle` and `reconcile-found` once the state admits the input.
unfoldable pub take_handle :
    AttemptGenerationState → String → DispatchState → Result TaskError AttemptGenerationState
unfolding finding
take_handle s handle next =
    if not (truthy handle)
    then err invalid_provider_handle
    else if conflicts s.provider_handle handle
    then ok (finding s conflicting_provider_handle)
    else ok (record s { state = next; provider_handle = some handle })

abbrev late_code : Resolution → Resolution → FindingCode
late_code outcome state =
    if resolution_beq outcome state
    then late_terminal_receipt
    else conflicting_late_terminal_receipt

-- The branch of `terminal-receipt`, by the state.
unfoldable pub receive_terminal :
    DispatchState
    → AttemptGenerationState
    → Resolution
    → ℕ
    → Option String
    → Result TaskError AttemptGenerationState
unfolding finding
receive_terminal (DispatchState.terminal r) s outcome sequence handle =
    ok (finding s (late_code outcome r))
receive_terminal planned s outcome sequence handle = err receipt_pre_handoff
receive_terminal _ s outcome sequence handle =
    if receipt_conflicts s.provider_handle handle
    then ok (finding s conflicting_provider_handle)
    else ok (record s {
      state = DispatchState.terminal outcome;
      provider_handle = coalesce s.provider_handle handle;
      terminal_event_sequence = some sequence;
    })

-- The `switch`, by the input and the state; the last clause is the `throw` behind it.
unfoldable pub transition :
    DispatchInput → DispatchState → AttemptGenerationState → Result TaskError AttemptGenerationState
unfolding take_handle finding receive_terminal
transition (terminal_receipt outcome sequence handle) state s =
    if ltb sequence 1
    then err invalid_event_sequence
    else receive_terminal state s outcome sequence handle
transition _ (DispatchState.terminal _) s = ok (finding s late_dispatch_fact)
transition commit_launch_intent planned s = ok (record s { state = launch_intent_committed })
transition (record_handle h) planned s = err illegal_dispatch_transition
transition (record_handle h) launch_intent_committed s = take_handle s h provider_handle_recorded
transition (record_handle h) reconciliation_required s = take_handle s h provider_handle_recorded
transition (record_handle h) state s = take_handle s h state
transition acknowledge provider_handle_recorded s = ok (record s { state = acknowledged })
transition acknowledge acknowledged s = ok (record s { state = acknowledged })
transition request_cancel launch_intent_committed s = ok (record s { state = cancel_requested })
transition request_cancel provider_handle_recorded s = ok (record s { state = cancel_requested })
transition request_cancel acknowledged s = ok (record s { state = cancel_requested })
transition request_cancel reconciliation_required s = ok (record s { state = cancel_requested })
transition request_cancel DispatchState.unknown_outcome s =
    ok (record s { state = cancel_requested })
transition DispatchInput.cancel_handed_off cancel_requested s =
    ok (record s { state = DispatchState.cancel_handed_off })
transition require_reconciliation launch_intent_committed s =
    ok (record s { state = reconciliation_required })
transition require_reconciliation provider_handle_recorded s =
    ok (record s { state = reconciliation_required })
transition require_reconciliation acknowledged s = ok (record s { state = reconciliation_required })
transition require_reconciliation cancel_requested s =
    ok (record s { state = reconciliation_required })
transition require_reconciliation DispatchState.cancel_handed_off s =
    ok (record s { state = reconciliation_required })
transition (reconcile_found h) reconciliation_required s = take_handle s h provider_handle_recorded
transition reconcile_not_found_idempotent reconciliation_required s =
    ok (record s { state = planned; provider_handle = none })
transition reconcile_ambiguous reconciliation_required s =
    ok (record s { state = DispatchState.unknown_outcome })
transition (manual_resolution outcome sequence) DispatchState.unknown_outcome s =
    if ltb 0 sequence
    then ok (record s {
      state = DispatchState.terminal outcome;
      terminal_event_sequence = some sequence;
    })
    else err illegal_dispatch_transition
transition _ _ s = err illegal_dispatch_transition

unfoldable pub reduce_dispatch :
    AttemptGenerationState → DispatchInput → Result TaskError AttemptGenerationState
unfolding transition
reduce_dispatch s input =
    if ltb s.generation 1 || is_some s.terminal_event_sequence && not (is_terminal s.state)
    then err invalid_attempt_state
    else transition input s.state s

-- A list of inputs, each refused input leaving the state as it was.
unfoldable pub run_dispatch : AttemptGenerationState → List DispatchInput → AttemptGenerationState
run_dispatch s [] = s
run_dispatch s (i ∷ is) = run_dispatch (elim (reduce_dispatch s i) [ ok t ↦ t | err _ ↦ s ]) is

pub data PinDecision : Type 0 where
  reuse refresh : PinDecision

pub record RetryScheduled : Type 0 where
  pub attempt_id : String
  pub prior_generation : ℕ
  pub generation : ℕ
  pub retry_ordinal : ℕ
  pub retry_policy_digest : String
  pub not_before : String
  pub pin_decision : PinDecision
  pub fork_pin_digest : String
  pub reason : String
  pub provider_idempotency_key_digest : String

-- `input` is the record that is returned, less its `generation`, whose value here is not read.
unfoldable pub schedule_retry :
    RetryScheduled → AttemptGenerationState → Result TaskError RetryScheduled
schedule_retry input prior =
    if not (is_terminal prior.state)
      || not (prior.generation == input.prior_generation)
      || ltb input.retry_ordinal 1
      || not (truthy input.provider_idempotency_key_digest)
      || str_eq input.provider_idempotency_key_digest prior.idempotency_key_digest
    then err retry_not_permitted
    else ok (record input { generation = input.prior_generation + 1 })

abbrev is_unknown_outcome : DispatchState → Bool
is_unknown_outcome DispatchState.unknown_outcome = true
is_unknown_outcome _ = false

unfoldable pub authorize_duplicate_risk_generation :
    AttemptGenerationState → String → String → Result TaskError AttemptGenerationState
authorize_duplicate_risk_generation prior new_binding new_key =
    if not (is_unknown_outcome prior.state)
      || not (truthy new_binding)
      || str_eq new_key prior.idempotency_key_digest
    then err duplicate_risk_not_permitted
    else ok (record {
      attempt_id = prior.attempt_id;
      generation = prior.generation + 1;
      state = planned;
      binding_digest = new_binding;
      idempotency_key_digest = new_key;
      provider_handle = none;
      terminal_event_sequence = none;
      finding_codes = duplicate_risk_authorized ∷ [];
    })
