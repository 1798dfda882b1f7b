-- ===== src/Tests/References.antt =====
-- References to a policy: one that is active already, and a policy that another replaces.
use horseness.Common.{none, some, [], ◌∷◌, ok, err, ◌≡◌, refl, str_eq, distinct}
use horseness.Engine.Order.{PolicyDocument}
use horseness.Engine.Lifecycle.{
  LifecycleRuntime, PolicyReference, active, policy_lineage_invalid, check_document,
  activate_policy, deactivate_policy,
}
use horseness.Engine.References.{activate, deactivate, run_policy, run_policy-same}

abbrev runtime : LifecycleRuntime
runtime = record {
  utf8 = λ t. [];
  units_of = λ t. [];
  core_digest = λ id revision predecessor rules. id;
  no_policy_digest = "none";
}

abbrev policy : PolicyDocument
policy = record {
  policy_id = "pd";
  revision = 0;
  predecessor_digest = none;
  rules = [];
  policy_digest = "pd";
}

abbrev in_force : PolicyReference
in_force = record { status = active; active_policy_digest = "pd"; activation_sequence = 3 }

run_policy-same_example : in_force ≡ in_force
unfolding run_policy str_eq activate_policy distinct
run_policy-same_example = run_policy-same runtime (activate policy ∷ []) in_force in_force refl refl

switched_off_and_on :
    run_policy runtime (deactivate ∷ deactivate ∷ activate policy ∷ []) in_force
    ≡ ok (record { status = active; active_policy_digest = "pd"; activation_sequence = 5 })
unfolding run_policy str_eq activate_policy deactivate_policy distinct
switched_off_and_on = refl

first_revision_has_predecessor :
    check_document runtime (record policy { predecessor_digest = some "before" })
    ≡ err policy_lineage_invalid
unfolding check_document str_eq
first_revision_has_predecessor = refl
