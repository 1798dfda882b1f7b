-- ===== src/Domain/Policy/Combine.antt =====
-- packages/domain/src/policy.ts, `combinePolicyDecisions`: the decision under the pinned policy and
-- the one under the current policy give one decision.
use horseness.Common.{ℕ, ◌≤◌, String, List, ◌++◌, Bool, leb, if◌then◌else◌, ◌≡◌, ◌⊎◌, arith}
use horseness.Common.Sort.{sort, Rearranged}
use horseness.Common.Rearranged.{sort-Rearranged}
use horseness.Domain.Canonical.{Text}
use horseness.Domain.Delta.Scope.{unique, text_before}

pub data DecisionResult : Type 0 where
  accepted approval_required quarantined rejected : DecisionResult

pub record PolicyExplanation : Type 0 where
  pub policy_digest : String
  pub rule_id : String
  pub subject : String
  pub result : DecisionResult

pub record PolicyDecision : Type 0 where
  pub result : DecisionResult
  pub constraints : List Text
  pub explanations : List PolicyExplanation

unfoldable pub precedence : DecisionResult → ℕ
precedence accepted = 0
precedence approval_required = 1
precedence quarantined = 2
precedence rejected = 3

unfoldable pub stricter : DecisionResult → DecisionResult → DecisionResult
unfolding precedence
stricter pinned current = if leb (precedence current) (precedence pinned) then pinned else current

stricter_lem :
    (p c : DecisionResult)
    → ((stricter p c ≡ p) ⊎ (stricter p c ≡ c))
      × (precedence p ≤ precedence (stricter p c))
      × (precedence c ≤ precedence (stricter p c))
      × (stricter p c ≡ stricter c p)
unfolding stricter precedence
stricter_lem p c = ground arith

-- `before` is the order of `localeCompare` on the members of two explanations, which depends on the
-- locale.
module _ (before : PolicyExplanation → PolicyExplanation → Bool) where
  unfoldable pub combine_policy_decisions : PolicyDecision → PolicyDecision → PolicyDecision
  unfolding stricter
  combine_policy_decisions pinned current = record {
    result = stricter pinned.result current.result;
    constraints = sort text_before (unique (pinned.constraints ++ current.constraints));
    explanations = sort before (pinned.explanations ++ current.explanations);
  }

  -- A combined decision is one of the two and relaxes neither, whichever policy is the pinned one,
  -- and it keeps every explanation of both, as often as they give it.
  pub combine_policy_decisions_lem :
      (pinned current : PolicyDecision)
      → let combined : PolicyDecision = combine_policy_decisions pinned current in
        ((combined.result ≡ pinned.result) ⊎ (combined.result ≡ current.result))
        × (precedence pinned.result ≤ precedence combined.result)
        × (precedence current.result ≤ precedence combined.result)
        × (combined.result ≡ (combine_policy_decisions current pinned).result)
        × Rearranged (pinned.explanations ++ current.explanations) combined.explanations
  unfolding combine_policy_decisions
  combine_policy_decisions_lem pinned current =
      let (one, first, second, either) = stricter_lem pinned.result current.result in
      (
        one,
        first,
        second,
        either,
        sort-Rearranged before (pinned.explanations ++ current.explanations),
      )
