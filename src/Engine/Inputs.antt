-- ===== src/Engine/Inputs.antt =====
-- packages/policy/src/evaluator.ts: what `evaluateAdmission` reads and gives, and the order of cursors.
use horseness.Common.{
  ℕ, String, Option, List, Bool, false, ◌&&◌, ◌==◌, leb, ltb, str_eq, if◌then◌else◌,
}
use horseness.Domain.Forks.{CompositeCursor}
use horseness.Engine.Order.{PolicyEffect, PolicySlot}
use horseness.Engine.Rules.{RuleInput, AdmissionExplanation, result_rank}
use horseness.Engine.Evaluator.{EngineRuntime}

pub record ApprovalBinding : Type 0 where
  pub approval_id : String
  pub proposal_digest : String
  pub base_revision : ℕ
  pub base_state_hash : String
  pub pinned_policy_digest : String
  pub current_policy_digest : String
  pub approver_principal_id : String
  pub approver_grant_digest : String
  pub allowed_action : String
  pub issue_observation_cursor : CompositeCursor
  pub evaluation_observation_cursor : CompositeCursor
  pub issued_at : String
  pub expires_at : String

pub record SnapshotExpectation : Type 0 where
  pub issue_observation_cursor : CompositeCursor
  pub evaluation_observation_cursor : CompositeCursor
  pub expected_grant_digest : String
  pub observed_grant_digest : String
  pub expected_quota_digest : String
  pub observed_quota_digest : String
  pub quota_available : Bool
  pub authenticated_approver_principal_id : String

pub record EvaluationClock : Type 0 where
  pub authority_time : String
  pub observation_cursor : CompositeCursor

pub record AdmissionInput : Type 0 where
  pub proposal_digest : String
  pub proposal_author_principal_id : String
  pub base_revision : ℕ
  pub base_state_hash : String
  pub subject : RuleInput
  pub pinned_policy : PolicySlot
  pub current_policy : PolicySlot
  pub snapshots : SnapshotExpectation
  pub evaluation_clock : EvaluationClock
  pub approval : Option ApprovalBinding
  pub precondition_conflict : Option String

pub data AdmissionResult : Type 0 where
  conflicted : AdmissionResult
  decided : PolicyEffect → AdmissionResult

pub record AdmissionEvaluation : Type 0 where
  pub result : AdmissionResult
  pub constraints : List String
  pub explanations : List AdmissionExplanation
  pub pinned_policy_digest : String
  pub current_policy_digest : String
  pub evaluation_observation_cursor : CompositeCursor
  pub authority_time : String

-- A sequence, a hash and an epoch are not after others.
abbrev component_not_after : ℕ → String → ℕ → ℕ → String → ℕ → Bool
component_not_after sequence hash epoch sequence_2 hash_2 epoch_2 =
    if ltb sequence_2 sequence
    then false
    else if sequence == sequence_2
    then str_eq hash hash_2 && epoch == epoch_2
    else leb epoch epoch_2

unfoldable pub cursor_not_after : CompositeCursor → CompositeCursor → Bool
cursor_not_after a b =
    str_eq a.workspace_id b.workspace_id
    && str_eq a.run_id b.run_id
    && component_not_after a.workspace_sequence a.workspace_envelope_hash a.workspace_context_epoch
        b.workspace_sequence b.workspace_envelope_hash b.workspace_context_epoch
    && component_not_after a.run_sequence a.run_envelope_hash a.run_context_epoch b.run_sequence
        b.run_envelope_hash b.run_context_epoch

abbrev pub is_effect : PolicyEffect → PolicyEffect → Bool
is_effect a b = result_rank a == result_rank b

-- What the module takes from the JavaScript runtime beside the evaluator's: the order of `sort`
-- without a comparator, the order of `localeCompare` on the members of two explanations, and the
-- comparison of the instants of two dates.
pub record AdmissionRuntime : Type 0 where
  pub engine : EngineRuntime
  pub utf16_before : String → String → Bool
  pub locale_before : AdmissionExplanation → AdmissionExplanation → Bool
  pub date_leb : String → String → Bool
  pub date_ltb : String → String → Bool
