-- ===== src/Tests/Approvals.antt =====
-- A proposal that the current policy wants an approval for, with an approval that holds.
use horseness.Common.{none, some, [], ◌∷◌, true, ok, ◌≡◌, refl, str_eq, unique_texts}
use horseness.Common.Sort.{sort}
use horseness.Domain.Forks.{CompositeCursor, cursor_beq}
use horseness.Engine.Order.{compare_utf8, accepted, approval_required, no_policy, document}
use horseness.Engine.Inputs.{
  ApprovalBinding, AdmissionInput, AdmissionEvaluation, AdmissionRuntime, decided, cursor_not_after,
}
use horseness.Engine.Admission.{snapshot_explanations, evaluate_admission}
use horseness.Engine.Execution.{
  execution_of, execution_result, admission_result, evaluate_execution_policy,
  evaluate_execution_policy-evaluate_admission,
}
use horseness.Engine.Accepted.{Backed, evaluate_admission-accepted}
use horseness.Tests.Policies.{reviewed}

abbrev runtime : AdmissionRuntime
runtime = record {
  engine = record { utf8 = λ t. []; text_of = λ t. "/"; no_policy_digest = "none" };
  utf16_before = λ a b. true;
  locale_before = λ a b. true;
  date_leb = λ a b. true;
  date_ltb = λ a b. true;
}

abbrev cursor : CompositeCursor
cursor = record {
  workspace_id = "w";
  workspace_sequence = 3;
  workspace_envelope_hash = "h";
  workspace_context_epoch = 1;
  run_id = "r";
  run_sequence = 2;
  run_envelope_hash = "g";
  run_context_epoch = 0;
}

abbrev approval : ApprovalBinding
approval = record {
  approval_id = "a";
  proposal_digest = "p";
  base_revision = 4;
  base_state_hash = "s";
  pinned_policy_digest = "none";
  current_policy_digest = "pd";
  approver_principal_id = "alice";
  approver_grant_digest = "grant";
  allowed_action = "merge";
  issue_observation_cursor = cursor;
  evaluation_observation_cursor = cursor;
  issued_at = "2026-01-01T00:00:00Z";
  expires_at = "2026-01-02T00:00:00Z";
}

abbrev input : AdmissionInput
input = record {
  proposal_digest = "p";
  proposal_author_principal_id = "bob";
  base_revision = 4;
  base_state_hash = "s";
  subject = record { action = "merge"; paths = []; version = "1"; evidence = [] };
  pinned_policy = no_policy;
  current_policy = document (record {
    policy_id = "p";
    revision = 1;
    predecessor_digest = none;
    rules = reviewed ∷ [];
    policy_digest = "pd";
  });
  snapshots = record {
    issue_observation_cursor = cursor;
    evaluation_observation_cursor = cursor;
    expected_grant_digest = "grant";
    observed_grant_digest = "grant";
    expected_quota_digest = "q";
    observed_quota_digest = "q";
    quota_available = true;
    authenticated_approver_principal_id = "alice";
  };
  evaluation_clock = record {
    authority_time = "2026-01-01T12:00:00Z";
    observation_cursor = cursor;
  };
  approval = some approval;
  precondition_conflict = none;
}

abbrev evaluation : AdmissionEvaluation
evaluation = record {
  result = decided accepted;
  constraints = [];
  explanations =
      record {
        policy_digest = "none";
        rule_id = "NO_POLICY";
        subject = "*";
        result = accepted;
        code = "NO_POLICY";
      }
      ∷ record {
        policy_digest = "pd";
        rule_id = "reviewed";
        subject = "merge|*|*";
        result = accepted;
        code = "APPROVAL_SATISFIED";
      }
      ∷ [];
  pinned_policy_digest = "none";
  current_policy_digest = "pd";
  evaluation_observation_cursor = cursor;
  authority_time = "2026-01-01T12:00:00Z";
}

evaluate_admission-accepted_example : (input.precondition_conflict ≡ none) × Backed runtime input
unfolding evaluate_admission str_eq cursor_beq sort compare_utf8 unique_texts
evaluate_admission-accepted_example = evaluate_admission-accepted runtime input evaluation refl refl

abbrev unapproved : AdmissionInput
unapproved = record {
  proposal_digest = "p";
  proposal_author_principal_id = "bob";
  base_revision = 4;
  base_state_hash = "s";
  subject = record { action = "merge"; paths = []; version = "1"; evidence = [] };
  pinned_policy = no_policy;
  current_policy = document (record {
    policy_id = "p";
    revision = 1;
    predecessor_digest = none;
    rules = reviewed ∷ [];
    policy_digest = "pd";
  });
  snapshots = record {
    issue_observation_cursor = cursor;
    evaluation_observation_cursor = cursor;
    expected_grant_digest = "grant";
    observed_grant_digest = "grant";
    expected_quota_digest = "q";
    observed_quota_digest = "q";
    quota_available = true;
    authenticated_approver_principal_id = "alice";
  };
  evaluation_clock = record {
    authority_time = "2026-01-01T12:00:00Z";
    observation_cursor = cursor;
  };
  approval = none;
  precondition_conflict = none;
}

evaluate_execution_policy-evaluate_admission_example :
    execution_result runtime
      (evaluate_execution_policy runtime (execution_of runtime "intent" unapproved))
    ≡ admission_result runtime (evaluate_admission runtime unapproved)
unfolding snapshot_explanations str_eq cursor_beq cursor_not_after
evaluate_execution_policy-evaluate_admission_example =
    evaluate_execution_policy-evaluate_admission runtime "intent" unapproved refl refl refl

execution_wants_approval :
    execution_result runtime
      (evaluate_execution_policy runtime (execution_of runtime "intent" unapproved))
    ≡ ok (decided approval_required)
unfolding evaluate_execution_policy str_eq cursor_beq sort compare_utf8 unique_texts
execution_wants_approval = refl
