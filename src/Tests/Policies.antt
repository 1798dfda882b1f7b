-- ===== src/Tests/Policies.antt =====
-- A policy whose second rule wants evidence that is not presented, under a runtime where a text has
-- no bytes.
use horseness.Common.{none, some, [], ◌∷◌, true, ok, ◌≤◌, ◌≡◌, ◌⊎◌, refl, str_eq, unique_texts}
use horseness.Common.Maps.{get}
use horseness.Common.Sort.{sort, All, Any}
use horseness.Engine.Order.{
  compare_utf8, PolicyRule, PolicyDocument, accepted, approval_required, quarantined,
}
use horseness.Engine.Rules.{
  RuleInput, AdmissionDecision, result_rank, applies, rule_outcome, strictest,
}
use horseness.Engine.Evaluator.{
  EngineRuntime, evaluate_document, evaluate_rules, normalize_decision,
}
use horseness.Engine.Strictest.{outcome_of, evaluate_document_lem}

abbrev runtime : EngineRuntime
runtime = record { utf8 = λ t. []; text_of = λ t. "/"; no_policy_digest = "none" }

abbrev input : RuleInput
input = record { action = "merge"; paths = []; version = "1"; evidence = [] }

abbrev pub reviewed : PolicyRule
reviewed = record {
  rule_id = "reviewed";
  subject = record { action = some "merge"; path_prefix = none; version = none };
  effect = approval_required;
  constraints = [];
  evidence = [];
}

abbrev tested : PolicyRule
tested = record {
  rule_id = "tested";
  subject = record { action = none; path_prefix = none; version = some "1" };
  effect = accepted;
  constraints = [];
  evidence = record { evidence_id = "run"; digest = "r"; path = "log"; version = "1" } ∷ [];
}

abbrev policy : PolicyDocument
policy = record {
  policy_id = "p";
  revision = 1;
  predecessor_digest = none;
  rules = reviewed ∷ tested ∷ [];
  policy_digest = "pd";
}

abbrev decision : AdmissionDecision
decision = record {
  result = quarantined;
  constraints = [];
  explanations =
      record {
        policy_digest = "pd";
        rule_id = "reviewed";
        subject = "merge|*|*";
        result = approval_required;
        code = "RULE_APPROVAL_REQUIRED";
      }
      ∷ record {
        policy_digest = "pd";
        rule_id = "tested";
        subject = "*|*|1";
        result = quarantined;
        code = "EVIDENCE_MISSING";
      }
      ∷ [];
}

evaluate_document_lem_example :
    All
      (λ rule.
        applies rule input ≡ ok true
        → result_rank (outcome_of runtime input rule) ≤ result_rank decision.result)
      policy.rules
    × ((decision.result ≡ accepted)
        ⊎ Any
            (λ rule.
              (applies rule input ≡ ok true) × (outcome_of runtime input rule ≡ decision.result))
            policy.rules)
unfolding evaluate_document evaluate_rules normalize_decision strictest sort applies rule_outcome
    str_eq get unique_texts compare_utf8
evaluate_document_lem_example = evaluate_document_lem runtime input policy decision refl
