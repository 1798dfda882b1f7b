-- ===== src/Orchestrator/Receipts/Apply.antt =====
-- packages/orchestrator/src/receipts/receipt-projection.ts: what an authenticated receipt, a retry
-- decision and a cancellation do to the projection.
use horseness.Common.{
  ℕ, String, Option, none, some, List, [], ◌∷◌, map, Bool, true, false, not, ◌&&◌, ◌||◌, ltb, ◌==◌,
  add, delete, nat_eq, str_eq, truthy, Result, ok, err, ◌>>=◌, ◌>>◌, guard, if◌then◌else◌,
}
use horseness.Common.Maps.{get, put, has}
use horseness.Domain.Forks.{CompositeCursor, cursor_beq}
use horseness.Domain.Tasks.Types.{Resolution, TaskError, AttemptGenerationState}
use horseness.Domain.Tasks.Dispatch.{terminal_receipt, reduce_dispatch, is_terminal}
use horseness.Domain.Receipts.{
  ReceiptError, ReceiptRuntime, AttemptReceiptCore, verify_attempt_receipt,
}
use horseness.Orchestrator.Receipts.{
  ProjectionError, arbitration_authority_unauthenticated, arbitration_authority_stale,
  receipt_mismatch, unauthenticated_receipt_event, unknown_attempt_generation,
  receipt_binding_mismatch, receipt_grant_mismatch, receipt_operation_mismatch, invalid_receipt,
  dispatch, ReceiptGenerationOutcome, AttemptReceiptProjection, ReceiptEvent, AttemptBinding,
  AttemptAuthority, Issued, permitted, denied, RetryVerdict, RetryDecision, Cancellation,
  same_identity, code_text, with_findings, register_receipt_generation, resolve,
}

-- `state.taskId ?? taskId`
abbrev pub or_else : Option String → String → Option String
or_else none task = some task
or_else (some t) task = some t

abbrev pub no_other : Option String → String → Bool
no_other none task = true
no_other (some t) task = str_eq t task

abbrev keep_first : Option ℕ → ℕ → Option ℕ
keep_first none n = some n
keep_first (some m) n = some m

-- The checks that a retry decision and a cancellation share; `current` is the cursor of the
-- reader's view.
unfoldable pub check_arbitration :
    Bool
    → CompositeCursor
    → CompositeCursor
    → AttemptReceiptProjection
    → String
    → ℕ
    → String
    → Result ProjectionError (Unit {0})
check_arbitration issued current cursor s attempt_id generation task_id = do
  guard issued arbitration_authority_unauthenticated
  guard (cursor_beq current cursor) arbitration_authority_stale
  guard
      (str_eq attempt_id s.attempt_id && has generation s.generations && no_other s.task_id task_id)
      receipt_mismatch

-- The retry set under a decision.
abbrev pub decided : RetryVerdict → ℕ → List ℕ → List ℕ
decided permitted g gs = add g gs
decided denied g gs = delete g gs

-- The checks of `validateAuthority` on the receipt, once the generation is known.
unfoldable pub check_receipt :
    AttemptReceiptCore
    → AttemptBinding
    → String
    → String
    → AttemptGenerationState
    → Result ProjectionError (Unit {0})
check_receipt r b principal grant_digest g = do
  guard
      (str_eq g.binding_digest b.digest
        && str_eq r.attempt_context_binding_digest b.digest
        && str_eq r.context_manifest_core_digest b.context_manifest_core_digest
        && str_eq r.fork_pin_digest b.fork_pin_digest)
      receipt_binding_mismatch
  guard
      (str_eq r.producer_principal_id principal
        && str_eq r.producer_principal_id b.allowed_producer_principal_id
        && str_eq r.producer_grant_digest grant_digest
        && str_eq r.producer_grant_digest b.allowed_producer_grant_digest)
      receipt_grant_mismatch
  guard
      (str_eq r.provider_id b.provider_id
        && str_eq r.provider_operation_id b.provider_operation_id
        && str_eq r.provider_idempotency_key_digest b.provider_idempotency_key_digest
        && str_eq g.idempotency_key_digest b.provider_idempotency_key_digest)
      receipt_operation_mismatch

abbrev lift_receipt {ℓ} : {A : Type ℓ} → Result ReceiptError A → Result ProjectionError A
lift_receipt (ok a) = ok a
lift_receipt (err e) = err (invalid_receipt e)

abbrev lift_dispatch :
    Result TaskError AttemptGenerationState → Result ProjectionError AttemptGenerationState
lift_dispatch (ok g) = ok g
lift_dispatch (err e) = err (dispatch e)

abbrev found : Option AttemptGenerationState → Result ProjectionError AttemptGenerationState
found none = err unknown_attempt_generation
found (some g) = ok g

abbrev pub is_sequence : Option ℕ → ℕ → Bool
is_sequence none n = false
is_sequence (some m) n = m == n

abbrev pub outcome_record : ReceiptEvent → AttemptGenerationState → ReceiptGenerationOutcome
outcome_record e g = record {
  generation = g.generation;
  outcome = e.receipt.core.outcome;
  receipt_digest = e.receipt.receipt_digest;
  receipt_id = e.receipt.receipt_id;
  terminal_event_sequence = e.event_sequence;
}

pub data ReceiptInput : Type 0 where
  generation : AttemptGenerationState → ReceiptInput
  retry : CompositeCursor → RetryDecision → ReceiptInput
  cancellation : CompositeCursor → Cancellation → ReceiptInput
  receipt : Issued ReceiptEvent → Issued AttemptAuthority → ReceiptInput

module _ (runtime : ReceiptRuntime) (digest : String → Resolution → Option ℕ → ℕ → String) where
  unfoldable pub apply_retry_decision :
      AttemptReceiptProjection
      → CompositeCursor
      → RetryDecision
      → Result ProjectionError AttemptReceiptProjection
  apply_retry_decision s current d = do
    check_arbitration d.issued current d.cursor s d.attempt_id d.generation d.task_id
    ok (
        resolve digest
          (record s {
            task_id = or_else s.task_id d.task_id;
            retry_permitted_generations =
                decided d.decision d.generation s.retry_permitted_generations;
          })
          d.event_sequence)

  unfoldable pub apply_cancellation :
      AttemptReceiptProjection
      → CompositeCursor
      → Cancellation
      → Result ProjectionError AttemptReceiptProjection
  apply_cancellation s current c = do
    check_arbitration c.issued current c.cursor s c.attempt_id c.generation c.task_id
    ok (elim s.resolution [
      | some _ ↦ with_findings s ("LATE_EXPLICIT_CANCELLATION" ∷ [])
      | none ↦
          resolve digest
            (record s {
              task_id = some c.task_id;
              explicit_cancellation_event_sequence =
                  keep_first s.explicit_cancellation_event_sequence c.event_sequence;
            })
            c.event_sequence
    ])

  unfoldable pub validate_authority :
      Issued ReceiptEvent
      → Issued AttemptAuthority
      → AttemptReceiptProjection
      → Result ProjectionError AttemptGenerationState
  validate_authority event authority s = do
    guard (same_identity event.identity authority.identity) unauthenticated_receipt_event
    lift_receipt (verify_attempt_receipt runtime event.value.receipt)
    guard (not (ltb event.value.event_sequence 1) && truthy event.value.event_digest)
        unauthenticated_receipt_event
    guard
        (str_eq event.value.receipt.core.attempt_id s.attempt_id
          && str_eq event.value.receipt.core.attempt_id authority.value.binding.attempt_id
          && event.value.receipt.core.generation == authority.value.binding.generation)
        receipt_mismatch
    g ← found (get event.value.receipt.core.generation s.generations)
    check_receipt event.value.receipt.core authority.value.binding
        event.value.authenticated_principal_id authority.value.grant_digest g
    ok g

  -- The end of `projectAuthenticatedReceipt`, with the generation after its terminal receipt.
  unfoldable pub record_outcome :
      AttemptReceiptProjection
      → ReceiptEvent
      → AttemptGenerationState
      → Result ProjectionError AttemptReceiptProjection
  record_outcome s e g =
      if not (is_terminal g.state) || not (is_sequence g.terminal_event_sequence e.event_sequence)
      then ok (
          with_findings (record s { generations = put g.generation g s.generations })
            (map code_text g.finding_codes))
      else do
        guard (no_other s.task_id e.receipt.core.task_id) receipt_mismatch
        ok (
            resolve digest
              (record s {
                task_id = or_else s.task_id e.receipt.core.task_id;
                generations = put g.generation g s.generations;
                outcomes = put g.generation (outcome_record e g) s.outcomes;
              })
              e.event_sequence)

  -- By the outcome that is recorded for the generation, and the resolution.
  unfoldable pub project_receipt :
      AttemptReceiptProjection
      → ReceiptEvent
      → AttemptAuthority
      → AttemptGenerationState
      → Result ProjectionError AttemptReceiptProjection
  unfolding record_outcome
  project_receipt s e a g = elim (get e.receipt.core.generation s.outcomes) [
    | some prior ↦ ok (
        with_findings s (
          (if str_eq prior.receipt_digest e.receipt.receipt_digest
            then "DUPLICATE_RECEIPT"
            else "RECEIPT_TERMINAL_CONFLICT")
          ∷ []))
    | none ↦ elim s.resolution [
      | some _ ↦ ok (with_findings s ("LATE_GENERATION_RECEIPT" ∷ []))
      | none ↦ do
        h ← lift_dispatch (
            reduce_dispatch g
              (terminal_receipt e.receipt.core.outcome e.event_sequence a.provider_handle))
        record_outcome s e h
    ]
  ]

  unfoldable pub project_authenticated_receipt :
      AttemptReceiptProjection
      → Issued ReceiptEvent
      → Issued AttemptAuthority
      → Result ProjectionError AttemptReceiptProjection
  project_authenticated_receipt s event authority = do
    g ← validate_authority event authority s
    project_receipt s event.value authority.value g

  unfoldable pub receipt_step :
      AttemptReceiptProjection → ReceiptInput → Result ProjectionError AttemptReceiptProjection
  receipt_step s (generation g) = register_receipt_generation s g
  receipt_step s (retry current d) = apply_retry_decision s current d
  receipt_step s (cancellation current c) = apply_cancellation s current c
  receipt_step s (receipt e a) = project_authenticated_receipt s e a

  -- A list of inputs, each refused input leaving the projection as it was.
  unfoldable pub run_receipts :
      AttemptReceiptProjection → List ReceiptInput → AttemptReceiptProjection
  run_receipts s [] = s
  run_receipts s (i ∷ is) = run_receipts (elim (receipt_step s i) [ ok t ↦ t | err _ ↦ s ]) is
