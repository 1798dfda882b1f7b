-- ===== src/Domain/Tasks/Retry.antt =====
-- packages/domain/src/tasks.ts: what a scheduled retry and a duplicate-risk generation promise.
use horseness.Common.{
  ◌+◌, ◌≤◌, String, true, ok, ◌≡◌, ◌≢◌, ◌↔◌, truthy, distinct, str_eq_iff, arith,
}
use horseness.Domain.Tasks.Types.{DispatchState, AttemptGenerationState, planned}
use horseness.Domain.Tasks.Dispatch.{
  RetryScheduled, schedule_retry, authorize_duplicate_risk_generation, is_terminal,
}
use horseness.Domain.Tasks.Dispatch.Invariant.{IsValid}

-- A retry is granted exactly for the generation that it names, in a terminal state, with a retry
-- ordinal of at least 1 and a fresh idempotency key that is not empty; it is then the request with
-- the generation number one higher, and any other request is refused.
pub schedule_retry_lem :
    (input : RetryScheduled) (prior : AttemptGenerationState)
    → ((schedule_retry input prior ≡ ok (record input { generation = input.prior_generation + 1 }))
        ↔ ((is_terminal prior.state ≡ true)
            × (prior.generation ≡ input.prior_generation)
            × (1 ≤ input.retry_ordinal)
            × (truthy input.provider_idempotency_key_digest ≡ true)
            × (input.provider_idempotency_key_digest ≢ prior.idempotency_key_digest)))
      × ((t : RetryScheduled)
          → schedule_retry input prior ≡ ok t
          → t ≡ record input { generation = input.prior_generation + 1 })
unfolding schedule_retry
schedule_retry_lem input prior =
    let key : _ = str_eq_iff input.provider_idempotency_key_digest prior.idempotency_key_digest in
    ((λ h. ground (arith, key), λ h. ground (arith, key)), λ t h. ground (arith, key))

-- A duplicate-risk generation exists only behind an unknown outcome and with another key; it is
-- the next generation of the same attempt with the given binding and key, planned and valid.
pub authorize_duplicate_risk_generation_lem :
    (prior next : AttemptGenerationState) (binding key : String)
    → authorize_duplicate_risk_generation prior binding key ≡ ok next
    → (prior.state ≡ DispatchState.unknown_outcome)
      × (key ≢ prior.idempotency_key_digest)
      × (next.attempt_id ≡ prior.attempt_id)
      × (next.generation ≡ prior.generation + 1)
      × (next.binding_digest ≡ binding)
      × (next.idempotency_key_digest ≡ key)
      × (next.state ≡ planned)
      × IsValid next
unfolding authorize_duplicate_risk_generation distinct
authorize_duplicate_risk_generation_lem prior next binding key h =
    ground (arith, str_eq_iff key prior.idempotency_key_digest)
