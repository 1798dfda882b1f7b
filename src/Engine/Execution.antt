-- ===== src/Engine/Execution.antt =====
-- packages/policy/src/evaluator.ts: `evaluateExecutionPolicy`, on an input that has passed the checks
-- of its shape.
use horseness.Common.{
  String, none, List, [], Result, ok, err, ◌>>=◌, ◌≡◌, refl, Result-cases, inl, inr,
}
use horseness.Domain.Forks.{CompositeCursor}
use horseness.Domain.Delta.Scope.{ScopeError}
use horseness.Engine.Order.{PolicyEffect, PolicySlot}
use horseness.Engine.Rules.{RuleInput, AdmissionExplanation}
use horseness.Engine.Evaluator.{slot_digest, normalize_decision, evaluate_document}
use horseness.Engine.Inputs.{
  EvaluationClock, AdmissionInput, AdmissionResult, AdmissionEvaluation, AdmissionRuntime, decided,
}
use horseness.Engine.Admission.{
  combine, snapshot_explanations, approval_decision, evaluate_policies, evaluate_admission,
}

pub record ExecutionInput : Type 0 where
  pub intent_digest : String
  pub subject : RuleInput
  pub pinned_policy : PolicySlot
  pub current_policy : PolicySlot
  pub evaluation_clock : EvaluationClock

pub record ExecutionEvaluation : Type 0 where
  pub intent_digest : String
  pub result : PolicyEffect
  pub constraints : List String
  pub explanations : List AdmissionExplanation
  pub pinned_policy_digest : String
  pub current_policy_digest : String
  pub evaluation_observation_cursor : CompositeCursor
  pub authority_time : String

module _ (runtime : AdmissionRuntime) where
  unfoldable pub evaluate_execution_policy : ExecutionInput → Result ScopeError ExecutionEvaluation
  unfolding evaluate_document combine
  evaluate_execution_policy input = do
    pinned ← evaluate_document runtime.engine input.pinned_policy input.subject
    current ← evaluate_document runtime.engine input.current_policy input.subject
    let combined = combine runtime pinned current
    ok (record {
      intent_digest = input.intent_digest;
      result = combined.result;
      constraints = combined.constraints;
      explanations = combined.explanations;
      pinned_policy_digest = slot_digest runtime.engine input.pinned_policy;
      current_policy_digest = slot_digest runtime.engine input.current_policy;
      evaluation_observation_cursor = input.evaluation_clock.observation_cursor;
      authority_time = input.evaluation_clock.authority_time;
    })

  -- What an execution asks of the policies that a proposal is admitted by.
  abbrev pub execution_of : String → AdmissionInput → ExecutionInput
  execution_of intent input = record {
    intent_digest = intent;
    subject = input.subject;
    pinned_policy = input.pinned_policy;
    current_policy = input.current_policy;
    evaluation_clock = input.evaluation_clock;
  }

  abbrev pub admission_result :
      Result ScopeError AdmissionEvaluation → Result ScopeError AdmissionResult
  admission_result (ok e) = ok e.result
  admission_result (err e) = err e

  abbrev pub execution_result :
      Result ScopeError ExecutionEvaluation → Result ScopeError AdmissionResult
  execution_result (ok e) = ok (decided e.result)
  execution_result (err e) = err e

  -- An execution is decided as a proposal with the same subject, policies and clock is that is in no
  -- conflict, whose snapshots stand, and that has no approval.
  pub evaluate_execution_policy-evaluate_admission :
      (intent : String) (input : AdmissionInput)
      → input.precondition_conflict ≡ none
      → input.approval ≡ none
      → snapshot_explanations runtime input ≡ []
      → execution_result (evaluate_execution_policy (execution_of intent input))
        ≡ admission_result (evaluate_admission runtime input)
  unfolding evaluate_execution_policy evaluate_admission evaluate_policies approval_decision
      normalize_decision
  evaluate_execution_policy-evaluate_admission intent input calm alone quiet =
      rw (calm, alone, quiet)
        (elim (Result-cases (evaluate_document runtime.engine input.pinned_policy input.subject)) [
          | inl p ↦
              elim (Result-cases
                (evaluate_document runtime.engine input.current_policy input.subject)) [
                  | inl c ↦ rw (p.1, c.1) refl
                  | inr c ↦ rw (p.1, c.1) refl
                ]
          | inr p ↦ rw p.1 refl
        ])
