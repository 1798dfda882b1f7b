-- ===== src/Engine/Admission.antt =====
-- packages/policy/src/evaluator.ts: the decision of a proposal, `evaluateAdmission`, and of an
-- execution, `evaluateExecutionPolicy`, on inputs that have passed the checks of their shape.
use horseness.Common.{
  String, Option, none, some, List, [], ◌∷◌, ◌++◌, Bool, true, false, not, ◌&&◌, ◌==◌, leb, any,
  map, str_eq, unique_texts, Result, ok, ◌>>=◌, if◌then◌else◌,
}
use horseness.Common.Sort.{sort}
use horseness.Domain.Forks.{cursor_beq}
use horseness.Domain.Delta.Scope.{ScopeError}
use horseness.Engine.Order.{PolicyEffect, accepted, approval_required, quarantined, rejected}
use horseness.Engine.Rules.{AdmissionExplanation, AdmissionDecision, result_rank}
use horseness.Engine.Evaluator.{
  explanation_before, unique_sorted, normalize_decision, slot_digest, evaluate_document,
}
use horseness.Engine.Inputs.{
  ApprovalBinding, SnapshotExpectation, AdmissionInput, AdmissionResult, AdmissionEvaluation,
  AdmissionRuntime, conflicted, decided, cursor_not_after, is_effect,
}

module _ (runtime : AdmissionRuntime) where
  -- `normalizeDecision(combinePolicyDecisions(...))`
  unfoldable pub combine : AdmissionDecision → AdmissionDecision → AdmissionDecision
  unfolding normalize_decision result_rank
  combine pinned current = normalize_decision runtime.engine (record {
    result =
        if leb (result_rank current.result) (result_rank pinned.result)
        then pinned.result
        else current.result;
    constraints =
        sort runtime.utf16_before (unique_texts (pinned.constraints ++ current.constraints));
    explanations = sort runtime.locale_before (pinned.explanations ++ current.explanations);
  })

  abbrev explain : AdmissionInput → String → PolicyEffect → String → AdmissionExplanation
  explain input subject result code = record {
    policy_digest = slot_digest runtime.engine input.current_policy;
    rule_id = "AUTHORITY_SNAPSHOT";
    subject = subject;
    result = result;
    code = code;
  }

  abbrev unless : Bool → AdmissionExplanation → List AdmissionExplanation
  unless true e = []
  unless false e = e ∷ []

  -- What is wrong with the snapshots.
  unfoldable pub snapshot_explanations : AdmissionInput → List AdmissionExplanation
  unfolding cursor_not_after
  snapshot_explanations input =
      let s : SnapshotExpectation = input.snapshots in
      unless (cursor_beq s.evaluation_observation_cursor input.evaluation_clock.observation_cursor)
        (explain input "cursor" rejected "STALE_EVALUATION_CURSOR")
      ++ unless (cursor_not_after s.issue_observation_cursor s.evaluation_observation_cursor)
          (explain input "issue-cursor" rejected "ISSUE_CURSOR_AFTER_EVALUATION")
      ++ unless (str_eq s.expected_grant_digest s.observed_grant_digest)
          (explain input "grant" rejected "STALE_GRANT_SNAPSHOT")
      ++ unless (str_eq s.expected_quota_digest s.observed_quota_digest)
          (explain input "quota" rejected "STALE_QUOTA_SNAPSHOT")
      ++ unless s.quota_available (explain input "quota" quarantined "QUOTA_EXHAUSTED")

  -- The decision that something is wrong with the snapshots.
  unfoldable pub wrong_snapshots : List AdmissionExplanation → AdmissionDecision
  unfolding normalize_decision result_rank
  wrong_snapshots explanations = normalize_decision runtime.engine (record {
    result =
        if any (λ item. is_effect item.result rejected) explanations then rejected else quarantined;
    constraints = [];
    explanations = explanations;
  })

  abbrev pub snapshot_of : List AdmissionExplanation → Option AdmissionDecision
  snapshot_of [] = none
  snapshot_of (e ∷ es) = some (wrong_snapshots (e ∷ es))

  abbrev pub snapshot_decision : AdmissionInput → Option AdmissionDecision
  snapshot_decision input = snapshot_of (snapshot_explanations input)

  unfoldable pub approval_holds : AdmissionInput → ApprovalBinding → Bool
  unfolding cursor_not_after
  approval_holds input a =
      str_eq a.proposal_digest input.proposal_digest
      && a.base_revision == input.base_revision
      && str_eq a.base_state_hash input.base_state_hash
      && str_eq a.pinned_policy_digest (slot_digest runtime.engine input.pinned_policy)
      && str_eq a.current_policy_digest (slot_digest runtime.engine input.current_policy)
      && str_eq a.approver_principal_id input.snapshots.authenticated_approver_principal_id
      && not (str_eq a.approver_principal_id input.proposal_author_principal_id)
      && str_eq a.approver_grant_digest input.snapshots.observed_grant_digest
      && str_eq a.allowed_action input.subject.action
      && cursor_beq a.issue_observation_cursor input.snapshots.issue_observation_cursor
      && cursor_beq a.evaluation_observation_cursor input.snapshots.evaluation_observation_cursor
      && cursor_not_after a.issue_observation_cursor a.evaluation_observation_cursor
      && runtime.date_leb a.issued_at input.evaluation_clock.authority_time
      && runtime.date_ltb input.evaluation_clock.authority_time a.expires_at

  abbrev satisfied : AdmissionExplanation → AdmissionExplanation
  satisfied item =
      if is_effect item.result approval_required
      then record {
        policy_digest = item.policy_digest;
        rule_id = item.rule_id;
        subject = item.subject;
        result = accepted;
        code = "APPROVAL_SATISFIED";
      }
      else item

  -- The decision when the approval holds.
  abbrev pub approved : AdmissionDecision → AdmissionDecision
  approved combined =
      let explanations : List AdmissionExplanation = map satisfied combined.explanations in
      record {
        result =
            if any (λ item. is_effect item.result rejected) explanations
            then rejected
            else if any (λ item. is_effect item.result quarantined) explanations
            then quarantined
            else accepted;
        constraints = combined.constraints;
        explanations = explanations;
      }

  abbrev pub with_approval :
      AdmissionInput → Option ApprovalBinding → AdmissionDecision → AdmissionDecision
  with_approval input none combined = combined
  with_approval input (some a) combined =
      if not (is_effect combined.result approval_required)
      then combined
      else if approval_holds input a
      then approved combined
      else combined

  unfoldable pub approval_decision : AdmissionInput → AdmissionDecision → AdmissionDecision
  unfolding approval_holds normalize_decision result_rank
  approval_decision input combined =
      normalize_decision runtime.engine (with_approval input input.approval combined)

  -- The decision of the policies, and of the snapshots when these are wrong.
  abbrev pub with_snapshot : AdmissionDecision → Option AdmissionDecision → AdmissionDecision
  with_snapshot combined none = combined
  with_snapshot combined (some s) = combine combined s

  abbrev evaluation : AdmissionInput → AdmissionResult → AdmissionDecision → AdmissionEvaluation
  evaluation input result d = record {
    result = result;
    constraints = unique_sorted runtime.engine d.constraints;
    explanations = sort (explanation_before runtime.engine) d.explanations;
    pinned_policy_digest = slot_digest runtime.engine input.pinned_policy;
    current_policy_digest = slot_digest runtime.engine input.current_policy;
    evaluation_observation_cursor = input.snapshots.evaluation_observation_cursor;
    authority_time = input.evaluation_clock.authority_time;
  }

  abbrev conflict : AdmissionInput → String → AdmissionDecision
  conflict input code = record {
    result = rejected;
    constraints = [];
    explanations =
        record {
          policy_digest = slot_digest runtime.engine input.pinned_policy;
          rule_id = "PRECONDITION";
          subject = "proposal";
          result = rejected;
          code = code;
        }
        ∷ [];
  }

  -- The part of `evaluateAdmission` behind the check of a conflict.
  unfoldable pub evaluate_policies : AdmissionInput → Result ScopeError AdmissionEvaluation
  unfolding evaluate_document combine snapshot_explanations approval_decision unique_sorted
      wrong_snapshots
  evaluate_policies input = do
    pinned ← evaluate_document runtime.engine input.pinned_policy input.subject
    current ← evaluate_document runtime.engine input.current_policy input.subject
    let combined = with_snapshot (combine pinned current) (snapshot_decision input)
    let final = approval_decision input combined
    ok (evaluation input (decided final.result) final)

  unfoldable pub evaluate_admission : AdmissionInput → Result ScopeError AdmissionEvaluation
  unfolding evaluate_policies unique_sorted
  evaluate_admission input = elim input.precondition_conflict [
    | some code ↦ ok (evaluation input conflicted (conflict input code))
    | none ↦ evaluate_policies input
  ]
