-- ===== src/Tests/Registries.antt =====
-- A fork created under a concrete authority, with digests that name the fork.
use horseness.Common.{
  none, [], ◌∷◌, true, false, ok, ◌≡◌, refl, str_eq, string_eq, truthy, distinct,
}
use horseness.Common.Maps.{has}
use horseness.Domain.Delta.Scope.{canonical_scope}
use horseness.Domain.Forks.{
  CompositeCursor, composite, ForkPinCore, SealedForkPin, cursor_beq, validate_fork_pin_core,
  seal_fork_pin, create_fork_pin,
}
use horseness.Orchestrator.Forks.{
  ForkAuthorityCapability, ForkSourceSnapshot, ForkAuthorizationSnapshot, ForkProjection,
  ForkDigests, empty_fork_projection, check_authority, context_version_ok, one_scope,
}
use horseness.Orchestrator.Forks.Registry.{
  store, authenticate, scope_digest, pin_input, create_projected_fork, reuse_projected_fork,
  identities_of, create, run_forks,
}
use horseness.Orchestrator.Forks.Stored.{IsRegistry, run_forks-IsRegistry}
use horseness.Orchestrator.Forks.Reuse.{expecting, reuse-create}

abbrev cursor : CompositeCursor
cursor = record {
  workspace_id = "w";
  workspace_sequence = 4;
  workspace_envelope_hash = "wh";
  workspace_context_epoch = 1;
  run_id = "r";
  run_sequence = 2;
  run_envelope_hash = "rh";
  run_context_epoch = 1;
}

abbrev source : ForkSourceSnapshot
source = record {
  workspace_id = "w";
  run_id = "r";
  observation_cursor = cursor;
  context_version = composite 1 1 cursor;
  canonical_revision = 3;
  canonical_state_hash = "state";
  dependency_join_snapshot_digest = "join";
  scope = record { workspace_id = "w"; run_id = "r"; task_id = "t"; roots = [] };
  pinned_policy_digest = "policy";
}

abbrev authorization : ForkAuthorizationSnapshot
authorization = record {
  workspace_id = "w";
  run_id = "r";
  observation_cursor = cursor;
  context_version = composite 1 1 cursor;
  principal_id = "p";
  grant_digest = "g";
  revoked = false;
  pinned_policy_digest = "policy";
  current_policy_digest = "policy";
  quota_id = "q";
  quota_digest = "qd";
  quota_available = true;
  expected_active_fork_pin_digest = none;
}

abbrev capability : ForkAuthorityCapability
capability = record {
  context = record { source = source; authorization = authorization };
  issued = true;
}

abbrev digests : ForkDigests
digests = record {
  pin = λ core. core.fork_id;
  identity = λ digest. digest;
  source = λ s. s.canonical_state_hash;
  authorization = λ a. a.grant_digest;
  scope = λ s. s.task_id;
}

abbrev core : ForkPinCore
core = record {
  fork_id = "f";
  pin_version = 1;
  workspace_id = "w";
  run_id = "r";
  parent_fork_pin_digest = none;
  refreshes_fork_pin_digest = none;
  content = record {
    canonical_revision = 3;
    canonical_state_hash = "state";
    source_observation_cursor = cursor;
    source_context_version = composite 1 1 cursor;
    dependency_join_snapshot_digest = "join";
    delta_authority_scope_digest = "t";
    pinned_policy_digest = "policy";
    created_by_principal_id = "p";
    created_by_grant_digest = "g";
  };
  ancestry = [];
}

abbrev pin : SealedForkPin
pin = record { core = core; fork_pin_digest = "f"; fork_pin_id = "f" }

abbrev projection : ForkProjection
projection = store digests empty_fork_projection pin (identities_of digests capability.context)

run_forks-IsRegistry_example :
    IsRegistry digests (run_forks digests empty_fork_projection (create "f" capability ∷ []))
run_forks-IsRegistry_example =
    run_forks-IsRegistry digests (λ a b h. h) (create "f" capability ∷ [])

reuse-create_example :
    reuse_projected_fork digests projection "f" (expecting capability "f") ≡ ok pin
unfolding create_projected_fork authenticate check_authority context_version_ok one_scope cursor_beq
    truthy str_eq has pin_input scope_digest canonical_scope create_fork_pin seal_fork_pin
    validate_fork_pin_core distinct
reuse-create_example =
    reuse-create digests empty_fork_projection projection pin "f" capability refl refl
