-- ===== src/Engine/Evaluator.antt =====
-- packages/policy/src/evaluator.ts: the decision of one policy document. What is presented has passed
-- the checks of its shape.
use horseness.Common.{
  ℕ, String, Option, none, some, List, [], ◌∷◌, ◌++◌, Bool, unique_texts, string_eq, Result, ok,
  ◌>>=◌, if◌then◌else◌,
}
use Prim.Native.String.{◌++◌ as join}
use horseness.Common.Sort.{sort}
use horseness.Domain.Canonical.{Text}
use horseness.Domain.Delta.Scope.{ScopeError}
use horseness.Engine.Order.{
  Sign, compare_utf8, or_next, not_after, PolicyEffect, accepted, PolicyRule, PolicySlot, no_policy,
  document,
}
use horseness.Engine.Rules.{
  RuleInput, AdmissionExplanation, AdmissionDecision, effect_text, evidence_by_id, rule_outcome,
  applies, strictest,
}

-- What the module takes from the JavaScript runtime: the UTF-8 bytes of a text, the text of a path;
-- and the digest of the empty policy.
pub record EngineRuntime : Type 0 where
  pub utf8 : String → List ℕ
  pub text_of : Text → String
  pub no_policy_digest : String

-- What the rules that apply contribute: their outcomes, constraints and explanations.
pub record Contribution : Type 0 where
  pub outcomes : List PolicyEffect
  pub constraints : List String
  pub explanations : List AdmissionExplanation

module _ (runtime : EngineRuntime) where
  abbrev pub by : String → String → Sign
  by a b = compare_utf8 (runtime.utf8 a) (runtime.utf8 b)

  abbrev pub explanation_before : AdmissionExplanation → AdmissionExplanation → Bool
  explanation_before a b = not_after (
      or_next (by a.policy_digest b.policy_digest) (
        or_next (by a.rule_id b.rule_id) (
          or_next (by a.subject b.subject)
            (or_next (by (effect_text a.result) (effect_text b.result)) (by a.code b.code)))))

  unfoldable pub unique_sorted : List String → List String
  unique_sorted values = sort (λ a b. not_after (by a b)) (unique_texts values)

  unfoldable pub normalize_decision : AdmissionDecision → AdmissionDecision
  unfolding unique_sorted
  normalize_decision d = record {
    result = d.result;
    constraints = unique_sorted d.constraints;
    explanations = sort explanation_before d.explanations;
  }

  abbrev star : Option String → String
  star none = "*"
  star (some t) = t

  abbrev star_path : Option Text → String
  star_path none = "*"
  star_path (some t) = runtime.text_of t

  abbrev subject_key : PolicyRule → String
  subject_key rule =
      join (star rule.subject.action) (
        join "|" (join (star_path rule.subject.path_prefix) (join "|" (star rule.subject.version))))

  abbrev pub slot_digest : PolicySlot → String
  slot_digest no_policy = runtime.no_policy_digest
  slot_digest (document d) = d.policy_digest

  abbrev pub contribute : String → PolicyRule → PolicyEffect × String → Contribution → Contribution
  contribute digest rule outcome rest = record {
    outcomes = outcome.0 ∷ rest.outcomes;
    constraints = rule.constraints ++ rest.constraints;
    explanations =
        record {
          policy_digest = digest;
          rule_id = rule.rule_id;
          subject = subject_key rule;
          result = outcome.0;
          code = outcome.1;
        }
        ∷ rest.explanations;
  }

  unfoldable pub evaluate_rules :
      String → RuleInput → List PolicyRule → Result ScopeError Contribution
  unfolding applies rule_outcome evidence_by_id
  evaluate_rules digest input [] =
      ok (record { outcomes = []; constraints = []; explanations = [] })
  evaluate_rules digest input (rule ∷ rules) =
      let later : Result ScopeError Contribution = evaluate_rules digest input rules in
      do
        applied ← applies rule input
        rest ← later
        ok (
            if applied
            then contribute digest rule
                (rule_outcome (evidence_by_id [] input.evidence) rule.effect rule.evidence) rest
            else rest)

  abbrev pub default_decision : String → String → String → AdmissionDecision
  default_decision digest rule_id code = record {
    result = accepted;
    constraints = [];
    explanations =
        record {
          policy_digest = digest;
          rule_id = rule_id;
          subject = "*";
          result = accepted;
          code = code;
        }
        ∷ [];
  }

  abbrev pub of_contribution : String → Contribution → AdmissionDecision
  of_contribution digest c = elim c.outcomes [
    | [] ↦ default_decision digest "DEFAULT_ACCEPT" "NO_APPLICABLE_RULE"
    | e ∷ es ↦ record {
      result = strictest accepted (e ∷ es);
      constraints = c.constraints;
      explanations = c.explanations;
    }
  ]

  unfoldable pub evaluate_document : PolicySlot → RuleInput → Result ScopeError AdmissionDecision
  unfolding evaluate_rules normalize_decision strictest
  evaluate_document no_policy input =
      ok (normalize_decision (default_decision runtime.no_policy_digest "NO_POLICY" "NO_POLICY"))
  evaluate_document (document d) input = do
    c ← evaluate_rules d.policy_digest input d.rules
    ok (normalize_decision (of_contribution d.policy_digest c))
