-- ===== src/Tests/Decisions.antt =====
-- Two decisions of packages/domain/src/policy.ts, their explanations ordered by rule.
use horseness.Common.{◌≤◌, [], ◌∷◌, ◌++◌, Bool, str_eq, not, ◌≡◌, ◌⊎◌}
use horseness.Common.Sort.{Rearranged}
use horseness.Domain.Policy.Combine.{
  accepted, quarantined, PolicyExplanation, PolicyDecision, precedence, combine_policy_decisions,
  combine_policy_decisions_lem,
}

-- For the two rules below.
abbrev rule_first : PolicyExplanation → PolicyExplanation → Bool
rule_first a b = not (str_eq a.rule_id "NO_POLICY")

abbrev pinned : PolicyDecision
pinned = record {
  result = accepted;
  constraints = [];
  explanations =
      (record { policy_digest = "d0"; rule_id = "NO_POLICY"; subject = "*"; result = accepted })
      ∷ [];
}

abbrev current : PolicyDecision
current = record {
  result = quarantined;
  constraints = (0x61 ∷ []) ∷ [];
  explanations =
      (record { policy_digest = "d1"; rule_id = "HOLD"; subject = "*"; result = quarantined }) ∷ [];
}

combine_policy_decisions_lem_example :
    (((combine_policy_decisions rule_first pinned current).result ≡ accepted)
      ⊎ ((combine_policy_decisions rule_first pinned current).result ≡ quarantined))
    × (precedence accepted ≤ precedence (combine_policy_decisions rule_first pinned current).result)
    × (precedence quarantined
        ≤ precedence (combine_policy_decisions rule_first pinned current).result)
    × ((combine_policy_decisions rule_first pinned current).result
        ≡ (combine_policy_decisions rule_first current pinned).result)
    × Rearranged
        (pinned.explanations ++ current.explanations)
        (combine_policy_decisions rule_first pinned current).explanations
combine_policy_decisions_lem_example = combine_policy_decisions_lem rule_first pinned current
