-- ===== src/Engine/Accepted.antt =====
-- packages/policy/src/evaluator.ts: what an accepted proposal has behind it.
use horseness.Common.{
  ◌≤◌, Option, none, some, List, [], ◌∷◌, true, leb, Bool-cases, ok, >>=-eq-ok, ok_injective,
  Option-cases, ◌≡◌, refl, sym, ap, ◌∙◌, ◌⊎◌, inl, inr, arith, any,
}
use horseness.Engine.Order.{PolicyEffect, accepted, approval_required, rejected}
use horseness.Engine.Rules.{AdmissionExplanation, AdmissionDecision, result_rank}
use horseness.Engine.Evaluator.{normalize_decision, evaluate_document}
use horseness.Engine.Inputs.{
  ApprovalBinding, AdmissionInput, AdmissionEvaluation, AdmissionRuntime, decided, is_effect,
}
use horseness.Engine.Admission.{
  combine, snapshot_of, wrong_snapshots, snapshot_decision, snapshot_explanations, approval_holds,
  with_approval, approval_decision, with_snapshot, evaluate_policies, evaluate_admission,
}

is_effect-eq : (a b : PolicyEffect) → is_effect a b ≡ true → a ≡ b
unfolding result_rank
is_effect-eq a b h = ground arith

accepted-rank : result_rank accepted ≡ 0
unfolding result_rank
accepted-rank = refl

required-rank : result_rank approval_required ≡ 1
unfolding result_rank
required-rank = refl

rank-0 : (a : PolicyEffect) → result_rank a ≤ 0 → a ≡ accepted
unfolding result_rank
rank-0 a h = ground (arith, h)

module _ (runtime : AdmissionRuntime) where
  combine-rank :
      (a b : AdmissionDecision)
      → (result_rank a.result ≤ result_rank (combine runtime a b).result)
        × (result_rank b.result ≤ result_rank (combine runtime a b).result)
  unfolding combine normalize_decision
  combine-rank a b = elim (Bool-cases (leb (result_rank b.result) (result_rank a.result))) [
    | inl h ↦ rw h (ground (arith, h))
    | inr h ↦ rw h (ground (arith, h))
  ]

  wrong_snapshots-rank :
      (es : List AdmissionExplanation) → 2 ≤ result_rank (wrong_snapshots runtime es).result
  unfolding wrong_snapshots normalize_decision result_rank
  wrong_snapshots-rank es = elim (Bool-cases (any (λ item. is_effect item.result rejected) es)) [
    | inl b ↦ rw b (omega arith)
    | inr b ↦ rw b (omega arith)
  ]

  -- Wrong snapshots keep a decision from being accepted, with an approval or without.
  with_snapshot-none :
      (d : AdmissionDecision) (es : List AdmissionExplanation)
      → result_rank (with_snapshot runtime d (snapshot_of runtime es)).result ≤ 1
      → (es ≡ []) × ((with_snapshot runtime d (snapshot_of runtime es)).result ≡ d.result)
  with_snapshot-none d [] h = (refl, refl)
  with_snapshot-none d (e ∷ es) h =
      let wrong : 2 ≤ result_rank (wrong_snapshots runtime (e ∷ es)).result =
        wrong_snapshots-rank (e ∷ es) in
      let (own, other) = combine-rank d (wrong_snapshots runtime (e ∷ es)) in
      absurd (omega (arith, wrong, other, h))

  with_approval-accepted :
      (input : AdmissionInput) (o : Option ApprovalBinding) (d : AdmissionDecision)
      → (with_approval runtime input o d).result ≡ accepted
      → (d.result ≡ accepted)
        ⊎ ((d.result ≡ approval_required)
            × (a : ApprovalBinding) × (o ≡ some a)
            × (approval_holds runtime input a ≡ true))
  with_approval-accepted input none d h = inl h
  with_approval-accepted input (some a) d h =
      elim (Bool-cases (is_effect d.result approval_required)) [
        | inl e ↦ elim (Bool-cases (approval_holds runtime input a)) [
          | inl g ↦ inr (is_effect-eq d.result approval_required e, a, refl, g)
          | inr g ↦ inl (rw (e, g) at h)
        ]
        | inr e ↦ inl (rw e at h)
      ]

  -- The decisions of the two policies, none of them stricter than wanting an approval; and, unless
  -- both accept, an approval that holds for the input.
  pub record Backed (input : AdmissionInput) : Type 0 where
    pub pinned : AdmissionDecision
    pub current : AdmissionDecision
    pub from_pinned : evaluate_document runtime.engine input.pinned_policy input.subject ≡ ok pinned
    pub from_current :
        evaluate_document runtime.engine input.current_policy input.subject ≡ ok current
    pub snapshots : snapshot_explanations runtime input ≡ []
    pub pinned_rank : result_rank pinned.result ≤ 1
    pub current_rank : result_rank current.result ≤ 1
    pub approval :
        ((pinned.result ≡ accepted) × (current.result ≡ accepted))
        ⊎ ((a : ApprovalBinding) × (input.approval ≡ some a)
            × (approval_holds runtime input a ≡ true))

  -- The decision of the policies and the snapshots.
  abbrev combined : AdmissionInput → AdmissionDecision → AdmissionDecision → AdmissionDecision
  combined input pinned current =
      with_snapshot runtime (combine runtime pinned current) (snapshot_decision runtime input)

  combined-Backed :
      (input : AdmissionInput) (pinned current : AdmissionDecision)
      → evaluate_document runtime.engine input.pinned_policy input.subject ≡ ok pinned
      → evaluate_document runtime.engine input.current_policy input.subject ≡ ok current
      → (low : result_rank (combined input pinned current).result ≤ 1)
      → (((combined input pinned current).result ≡ accepted)
          ⊎ ((a : ApprovalBinding) × (input.approval ≡ some a)
              × (approval_holds runtime input a ≡ true)))
      → Backed input
  combined-Backed input pinned current from_pinned from_current low either =
      let both : AdmissionDecision = combine runtime pinned current in
      let (none_wrong, keeps) = with_snapshot-none both (snapshot_explanations runtime input) low in
      let (first, second) = combine-rank pinned current in
      let rank : result_rank (combined input pinned current).result ≡ result_rank both.result =
        ap result_rank keeps in
      record {
        pinned = pinned;
        current = current;
        from_pinned = from_pinned;
        from_current = from_current;
        snapshots = none_wrong;
        pinned_rank = omega (arith, first, rank, low);
        current_rank = omega (arith, second, rank, low);
        approval = elim either [
          | inl a ↦
              let zero : result_rank both.result ≡ 0 =
                sym rank ∙ ap result_rank a ∙ accepted-rank in
              inl (
                rank-0 pinned.result (omega (arith, first, zero)),
                rank-0 current.result (omega (arith, second, zero)),
              )
          | inr a ↦ inr a
        ];
      }

  evaluate_policies-Backed :
      (input : AdmissionInput) (e : AdmissionEvaluation)
      → evaluate_policies runtime input ≡ ok e
      → e.result ≡ decided accepted
      → Backed input
  unfolding evaluate_policies approval_decision normalize_decision
  evaluate_policies-Backed input e h accepts =
      let (pinned, from_pinned, h1) =
        >>=-eq-ok (evaluate_document runtime.engine input.pinned_policy input.subject) _ h in
      let (current, from_current, h2) =
        >>=-eq-ok (evaluate_document runtime.engine input.current_policy input.subject) _ h1 in
      let both : AdmissionDecision = combined input pinned current in
      let same : decided (with_approval runtime input input.approval both).result ≡ e.result =
        ap (λ x. x.result) (ok_injective h2) in
      elim (with_approval-accepted input input.approval both (cc (same, accepts))) [
        | inl a ↦
            combined-Backed input pinned current from_pinned from_current
              (omega (arith, ap result_rank a, accepted-rank)) (inl a)
        | inr a ↦
            let (wanted, x, same_as, holds) = a in
            combined-Backed input pinned current from_pinned from_current
              (omega (arith, ap result_rank wanted, required-rank)) (inr (x, same_as, holds))
      ]

  -- A proposal that is accepted is in no conflict, and it is backed.
  pub evaluate_admission-accepted :
      (input : AdmissionInput) (e : AdmissionEvaluation)
      → evaluate_admission runtime input ≡ ok e
      → e.result ≡ decided accepted
      → (input.precondition_conflict ≡ none) × Backed input
  unfolding evaluate_admission
  evaluate_admission-accepted input e h accepts = elim (Option-cases input.precondition_conflict) [
    | inl n ↦ (n, evaluate_policies-Backed input e (rw n at h) accepts)
    | inr c ↦ absurd (cc (ap (λ x. x.result) (ok_injective (rw c.1 at h)), accepts))
  ]
