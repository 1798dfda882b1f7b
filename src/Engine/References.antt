-- ===== src/Engine/References.antt =====
-- packages/policy/src/lifecycle.ts: what the activation sequence tells of the active policy.
use horseness.Common.{
  suc, ◌≤◌, List, [], ◌∷◌, str_eq, Bool-cases, Result, ok, ◌>>=◌, >>=-eq-ok, ok_injective, ◌≡◌,
  refl, sym, ap, ◌∙◌, ◌⊎◌, inl, inr, arith,
}
use horseness.Engine.Order.{PolicyDocument}
use horseness.Engine.Lifecycle.{
  LifecycleError, LifecycleRuntime, PolicyReference, ReferenceStatus, inactive, active,
  check_document, check_reference, activate_policy, deactivate_policy, deactivated,
}

pub data PolicyChange : Type 0 where
  activate : PolicyDocument → PolicyChange
  deactivate : PolicyChange

module _ (runtime : LifecycleRuntime) where
  abbrev pub change_policy : PolicyChange → PolicyReference → Result LifecycleError PolicyReference
  change_policy (activate d) s = activate_policy runtime s d
  change_policy deactivate s = deactivate_policy runtime s

  unfoldable pub run_policy :
      List PolicyChange → PolicyReference → Result LifecycleError PolicyReference
  run_policy [] s = ok s
  run_policy (c ∷ cs) s = change_policy c s >>= λ next. run_policy cs next

  abbrev Grows : PolicyReference → PolicyReference → Type 0
  Grows s t = (t ≡ s) ⊎ (suc s.activation_sequence ≤ t.activation_sequence)

  deactivated-Grows :
      (status : ReferenceStatus) (s : PolicyReference) → Grows s (deactivated runtime status s)
  deactivated-Grows inactive s = inl refl
  deactivated-Grows active s = inr (omega arith)

  change_policy-Grows :
      (c : PolicyChange) (s t : PolicyReference) → change_policy c s ≡ ok t → Grows s t
  unfolding activate_policy deactivate_policy
  change_policy-Grows (activate d) s t h =
      let (x, checked, h1) = >>=-eq-ok (check_document runtime d) _ h in
      let (y, valid, h2) = >>=-eq-ok (check_reference runtime s) _ h1 in
      elim (Bool-cases (str_eq s.active_policy_digest d.policy_digest)) [
        | inl b ↦ inl (sym (ok_injective (rw b at h2)))
        | inr b ↦
            let grown : suc s.activation_sequence ≡ t.activation_sequence =
              ap (λ x. x.activation_sequence) (ok_injective (rw b at h2)) in
            inr (omega (arith, grown))
      ]
  change_policy-Grows deactivate s t h =
      let (y, valid, h1) = >>=-eq-ok (check_reference runtime s) _ h in
      rw (sym (ok_injective h1)) (deactivated-Grows s.status s)

  Grows-trans : (s t u : PolicyReference) → Grows s t → Grows t u → Grows s u
  Grows-trans s t u (inl a) (inl b) = inl (b ∙ a)
  Grows-trans s t u (inl a) (inr b) =
      let same : t.activation_sequence ≡ s.activation_sequence =
        ap (λ x. x.activation_sequence) a in
      inr (omega (arith, same, b))
  Grows-trans s t u (inr a) (inl b) =
      let same : u.activation_sequence ≡ t.activation_sequence =
        ap (λ x. x.activation_sequence) b in
      inr (omega (arith, same, a))
  Grows-trans s t u (inr a) (inr b) = inr (omega (arith, a, b))

  run_policy-Grows :
      (cs : List PolicyChange) (s t : PolicyReference) → run_policy cs s ≡ ok t → Grows s t
  unfolding run_policy
  run_policy-Grows [] s t h = inl (sym (ok_injective h))
  run_policy-Grows (c ∷ cs) s t h =
      let (next, one, rest) = >>=-eq-ok (change_policy c s) _ h in
      Grows-trans s next t (change_policy-Grows c s next one) (run_policy-Grows cs next t rest)

  -- When a run of activations and deactivations ends with the activation sequence that it started
  -- with, it has left the whole reference as it was: the sequence never comes back to a value under
  -- which another policy was active.
  pub run_policy-same :
      (cs : List PolicyChange) (s t : PolicyReference)
      → run_policy cs s ≡ ok t
      → t.activation_sequence ≡ s.activation_sequence
      → t ≡ s
  run_policy-same cs s t h same = elim (run_policy-Grows cs s t h) [
    | inl unchanged ↦ unchanged
    | inr grown ↦ absurd (omega (arith, grown, same))
  ]
