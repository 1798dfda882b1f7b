-- ===== src/Engine/Rules.antt =====
-- packages/policy/src/evaluator.ts: what a rule of a policy asks of an input.
use horseness.Common.{
  ℕ, String, Option, none, some, List, [], ◌∷◌, Bool, true, false, not, ◌||◌, ltb, str_eq,
  string_eq, Result, ok, ◌>>=◌, if◌then◌else◌,
}
use horseness.Common.Maps.{Entries, get, put}
use horseness.Domain.Canonical.{Text}
use horseness.Domain.Delta.Scope.{ScopeError, DeltaAuthorityScope, scope_contains}
use horseness.Engine.Order.{
  PolicyEffect, accepted, approval_required, quarantined, rejected, EvidenceRequirement, PolicyRule,
}

pub record PresentedEvidence : Type 0 where
  pub evidence_id : String
  pub digest : String
  pub path : String
  pub version : String

-- The members of an input that the rules read.
pub record RuleInput : Type 0 where
  pub action : String
  pub paths : List Text
  pub version : String
  pub evidence : List PresentedEvidence

pub record AdmissionExplanation : Type 0 where
  pub policy_digest : String
  pub rule_id : String
  pub subject : String
  pub result : PolicyEffect
  pub code : String

pub record AdmissionDecision : Type 0 where
  pub result : PolicyEffect
  pub constraints : List String
  pub explanations : List AdmissionExplanation

unfoldable pub result_rank : PolicyEffect → ℕ
result_rank accepted = 0
result_rank approval_required = 1
result_rank quarantined = 2
result_rank rejected = 3

abbrev pub effect_text : PolicyEffect → String
effect_text accepted = "accepted"
effect_text approval_required = "approval_required"
effect_text quarantined = "quarantined"
effect_text rejected = "rejected"

abbrev pub rule_code : PolicyEffect → String
rule_code accepted = "RULE_ACCEPTED"
rule_code approval_required = "RULE_APPROVAL_REQUIRED"
rule_code quarantined = "RULE_QUARANTINED"
rule_code rejected = "RULE_REJECTED"

-- `new Map(evidence.map((item) => [item.evidenceId, item]))`
unfoldable pub evidence_by_id :
    Entries String PresentedEvidence → List PresentedEvidence → Entries String PresentedEvidence
evidence_by_id m [] = m
evidence_by_id m (e ∷ es) = evidence_by_id (put e.evidence_id e m) es

-- The outcome of a rule and its code, by the first requirement that is not met.
unfoldable pub rule_outcome :
    Entries String PresentedEvidence
    → PolicyEffect
    → List EvidenceRequirement
    → PolicyEffect × String
rule_outcome observed effect [] = (effect, rule_code effect)
rule_outcome observed effect (r ∷ rs) =
    let rest : PolicyEffect × String = rule_outcome observed effect rs in
    elim (get r.evidence_id observed) [
      | none ↦ (quarantined, "EVIDENCE_MISSING")
      | some e ↦
          if not (str_eq e.digest r.digest)
          then (rejected, "EVIDENCE_DIGEST_SUBSTITUTED")
          else if not (str_eq e.path r.path)
          then (rejected, "EVIDENCE_PATH_SUBSTITUTED")
          else if not (str_eq e.version r.version)
          then (rejected, "EVIDENCE_VERSION_SUBSTITUTED")
          else rest
    ]

abbrev allows : Option String → String → Bool
allows none value = true
allows (some expected) value = str_eq expected value

-- `paths.some((path) => scopeContains(scope, path))`
unfoldable pub some_path : DeltaAuthorityScope → List Text → Result ScopeError Bool
some_path scope [] = ok false
some_path scope (p ∷ ps) =
    let rest : Result ScopeError Bool = some_path scope ps in
    do inside ← scope_contains scope p; if inside then ok true else rest

abbrev policy_scope : Text → DeltaAuthorityScope
policy_scope prefix = record {
  workspace_id = "policy";
  run_id = "policy";
  task_id = "policy";
  roots = prefix ∷ [];
}

abbrev under : Option Text → List Text → Result ScopeError Bool
under none paths = ok true
under (some prefix) paths = some_path (policy_scope prefix) paths

unfoldable pub applies : PolicyRule → RuleInput → Result ScopeError Bool
unfolding some_path
applies rule input =
    let inside : Result ScopeError Bool = under rule.subject.path_prefix input.paths in
    if not (allows rule.subject.action input.action)
      || not (allows rule.subject.version input.version)
    then ok false
    else inside

-- `outcomes.reduce((most, current) => RESULT_RANK[current] > RESULT_RANK[most] ? current : most, most)`
unfoldable pub strictest : PolicyEffect → List PolicyEffect → PolicyEffect
unfolding result_rank
strictest most [] = most
strictest most (e ∷ es) = strictest (if ltb (result_rank most) (result_rank e) then e else most) es
