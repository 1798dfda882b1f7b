-- ===== src/Engine/Strictest.antt =====
-- packages/policy/src/evaluator.ts: a document's decision is the strictest outcome of its rules.
use horseness.Common.{
  ◌≤◌, String, List, [], ◌∷◌, true, ltb, if◌then◌else◌, Bool-cases, ok, >>=-eq-ok, ok_injective,
  ◌≡◌, refl, sym, ap, ◌∙◌, ◌⊎◌, inl, inr, arith,
}
use horseness.Common.Sort.{All, Any}
use horseness.Engine.Order.{PolicyEffect, accepted, PolicyRule, PolicyDocument, document}
use horseness.Engine.Rules.{
  RuleInput, AdmissionDecision, result_rank, evidence_by_id, rule_outcome, applies, strictest,
}
use horseness.Engine.Evaluator.{
  EngineRuntime, Contribution, evaluate_rules, evaluate_document, normalize_decision,
  of_contribution,
}

-- An outcome that is as strict as each of some outcomes, and is one of them.
abbrev pub IsStrictest : PolicyEffect → List PolicyEffect → PolicyEffect → Type 0
IsStrictest most es r =
    (result_rank most ≤ result_rank r)
    × All (λ e. result_rank e ≤ result_rank r) es
    × ((r ≡ most) ⊎ Any (λ e. e ≡ r) es)

strictest-cons :
    (most e : PolicyEffect) (es : List PolicyEffect)
    → strictest most (e ∷ es)
      ≡ strictest (if ltb (result_rank most) (result_rank e) then e else most) es
unfolding strictest
strictest-cons most e es = refl

strictest-IsStrictest :
    (most : PolicyEffect) (es : List PolicyEffect) (r : PolicyEffect)
    → r ≡ strictest most es
    → IsStrictest most es r
unfolding strictest
strictest-IsStrictest most [] r h = (rw h (omega arith), tt, inl h)
strictest-IsStrictest most (e ∷ es) r h =
    elim (Bool-cases (ltb (result_rank most) (result_rank e))) [
      | inl b ↦
          let step : strictest most (e ∷ es) ≡ strictest e es =
            rw (strictest-cons most e es, b) refl in
          let (first, rest, from) = strictest-IsStrictest e es r (h ∙ step) in
          let more : result_rank most ≤ result_rank e = ground (arith, b) in
          (
            omega (arith, first, more),
            (first, rest),
            elim from [ inl same ↦ inr (inl (sym same)) | inr later ↦ inr (inr later) ],
          )
      | inr b ↦
          let step : strictest most (e ∷ es) ≡ strictest most es =
            rw (strictest-cons most e es, b) refl in
          let (first, rest, from) = strictest-IsStrictest most es r (h ∙ step) in
          let less : result_rank e ≤ result_rank most = ground (arith, b) in
          (
            first,
            (omega (arith, first, less), rest),
            elim from [ inl same ↦ inl same | inr later ↦ inr (inr later) ],
          )
    ]

of_contribution-result :
    (runtime : EngineRuntime) (digest : String) (c : Contribution) (es : List PolicyEffect)
    → c.outcomes ≡ es
    → (of_contribution runtime digest c).result ≡ strictest accepted es
unfolding strictest
of_contribution-result runtime digest c [] h = rw h refl
of_contribution-result runtime digest c (e ∷ es) h = rw h refl

module _ (runtime : EngineRuntime) (input : RuleInput) where
  -- The outcome of a rule on the presented evidence.
  abbrev pub outcome_of : PolicyRule → PolicyEffect
  outcome_of rule = (rule_outcome (evidence_by_id [] input.evidence) rule.effect rule.evidence).0

  -- The outcomes of the rules that apply, from the list of the rules.
  record Collected (rules : List PolicyRule) (outcomes : List PolicyEffect) : Type 0 where
    pub upper :
        (r : PolicyEffect)
        → All (λ e. result_rank e ≤ result_rank r) outcomes
        → All
            (λ rule. applies rule input ≡ ok true → result_rank (outcome_of rule) ≤ result_rank r)
            rules
    pub source :
        (r : PolicyEffect)
        → Any (λ e. e ≡ r) outcomes
        → Any (λ rule. (applies rule input ≡ ok true) × (outcome_of rule ≡ r)) rules

  evaluate_rules-Collected :
      (digest : String) (rules : List PolicyRule) (c : Contribution)
      → evaluate_rules runtime digest input rules ≡ ok c
      → Collected rules c.outcomes
  unfolding evaluate_rules
  evaluate_rules-Collected digest [] c h =
      let none_left : c.outcomes ≡ [] = ap (λ x. x.outcomes) (sym (ok_injective h)) in
      record { upper = λ r a. tt; source = λ r a. rw none_left at a }
  evaluate_rules-Collected digest (rule ∷ rules) c h =
      let (applied, e, h1) = >>=-eq-ok (applies rule input) _ h in
      let (rest, f, h2) = >>=-eq-ok (evaluate_rules runtime digest input rules) _ h1 in
      let later : Collected rules rest.outcomes = evaluate_rules-Collected digest rules rest f in
      elim (Bool-cases applied) [
        | inl b ↦
            let here : c.outcomes ≡ outcome_of rule ∷ rest.outcomes =
              ap (λ x. x.outcomes) (sym (ok_injective (rw b at h2))) in
            record {
              upper = λ r a. let both : _ = rw here at a in (λ yes. both.0, later.upper r both.1);
              source = λ r a. elim (rw here at a) [
                | inl same ↦ inl (rw (e, b) refl, same)
                | inr more ↦ inr (later.source r more)
              ];
            }
        | inr b ↦
            let here : c.outcomes ≡ rest.outcomes =
              ap (λ x. x.outcomes) (sym (ok_injective (rw b at h2))) in
            record {
              upper = λ r a. (λ yes. absurd (cc (yes, e, b)), later.upper r (rw here at a));
              source = λ r a. inr (later.source r (rw here at a));
            }
      ]

  -- A document's decision is at least as strict as the outcome of each rule that applies to the
  -- input; and it is the outcome of such a rule, or acceptance.
  pub evaluate_document_lem :
      (d : PolicyDocument) (decision : AdmissionDecision)
      → evaluate_document runtime (document d) input ≡ ok decision
      → All
          (λ rule.
            applies rule input ≡ ok true
            → result_rank (outcome_of rule) ≤ result_rank decision.result)
          d.rules
        × ((decision.result ≡ accepted)
            ⊎ Any
                (λ rule. (applies rule input ≡ ok true) × (outcome_of rule ≡ decision.result))
                d.rules)
  unfolding evaluate_document normalize_decision strictest
  evaluate_document_lem d decision h =
      let (c, e, h1) = >>=-eq-ok (evaluate_rules runtime d.policy_digest input d.rules) _ h in
      let rules : Collected d.rules c.outcomes =
        evaluate_rules-Collected d.policy_digest d.rules c e in
      let same : decision.result ≡ strictest accepted c.outcomes =
        ap (λ x. x.result) (sym (ok_injective h1))
        ∙ of_contribution-result runtime d.policy_digest c c.outcomes refl in
      let (first, upper, from) = strictest-IsStrictest accepted c.outcomes decision.result same in
      (
        rules.upper decision.result upper,
        elim from [ inl s ↦ inl s | inr a ↦ inr (rules.source decision.result a) ],
      )
