-- ===== src/Orchestrator/Forks/Registry.antt =====
-- packages/orchestrator/src/forks/fork-registry.ts: the operations of the registry.
use horseness.Common.{
  String, Option, none, some, List, [], ◌∷◌, Bool, false, not, ◌&&◌, ◌==◌, str_eq, string_eq,
  truthy, Result, ok, err, ◌>>=◌, ◌>>◌, guard, if◌then◌else◌,
}
use horseness.Common.Maps.{get, put, has}
use horseness.Domain.Delta.Scope.{DeltaAuthorityScope, canonical_scope}
use horseness.Domain.Forks.{
  cursor_beq, PinChanges, SealedForkPin, opt_beq, is_null, verify_fork_pin, create_fork_pin,
  refresh_fork_pin,
}
use horseness.Orchestrator.Forks.{
  ForkError, fork_identity_continuity, fork_refresh_cas_mismatch, fork_parent_mismatch,
  fork_reuse_stale, ForkAuthorityContext, ForkAuthorityCapability, ForkAuthoritySnapshotIdentities,
  ForkProjection, ForkDigests, lift_pin, lift_scope, check_authority, version_beq,
}

abbrev pub found : ForkError → Option SealedForkPin → Result ForkError SealedForkPin
found e none = err e
found e (some p) = ok p

-- `digest ? state.pins.get(digest) : undefined`
abbrev pub pin_at : ForkProjection → Option String → Option SealedForkPin
pin_at s none = none
pin_at s (some digest) = if truthy digest then get digest s.pins else none

abbrev pub active_pin : ForkProjection → String → Option SealedForkPin
active_pin s fork_id = pin_at s (get fork_id s.active_by_fork_id)

pub data ForkRequest : Type 0 where
  create refresh : String → ForkAuthorityCapability → ForkRequest

module _ (digests : ForkDigests) where
  -- The digest of the authorization leaves the expected pin out.
  abbrev pub identities_of : ForkAuthorityContext → ForkAuthoritySnapshotIdentities
  identities_of c = record {
    source_snapshot_digest = digests.source c.source;
    authorization_snapshot_digest =
        digests.authorization (record c.authorization { expected_active_fork_pin_digest = none });
  }

  unfoldable pub authenticate :
      ForkAuthorityCapability → Result ForkError ForkAuthoritySnapshotIdentities
  unfolding check_authority
  authenticate capability = do check_authority capability; ok (identities_of capability.context)

  unfoldable pub scope_digest : DeltaAuthorityScope → Result ForkError String
  scope_digest s = do canonical ← lift_scope (canonical_scope s); ok (digests.scope canonical)

  unfoldable pub pin_input : ForkAuthorityContext → Result ForkError PinChanges
  unfolding scope_digest
  pin_input c = do
    scope_hash ← scope_digest c.source.scope
    ok (record {
      canonical_revision = c.source.canonical_revision;
      canonical_state_hash = c.source.canonical_state_hash;
      source_observation_cursor = c.source.observation_cursor;
      source_context_version = c.source.context_version;
      dependency_join_snapshot_digest = c.source.dependency_join_snapshot_digest;
      delta_authority_scope_digest = scope_hash;
      pinned_policy_digest = c.source.pinned_policy_digest;
      created_by_principal_id = c.authorization.principal_id;
      created_by_grant_digest = c.authorization.grant_digest;
    })

  unfoldable pub store :
      ForkProjection → SealedForkPin → ForkAuthoritySnapshotIdentities → ForkProjection
  store s p identities = record {
    pins = put p.fork_pin_digest p s.pins;
    active_by_fork_id = put p.core.fork_id p.fork_pin_digest s.active_by_fork_id;
    authority_snapshots_by_pin = put p.fork_pin_digest identities s.authority_snapshots_by_pin;
  }

  unfoldable pub create_projected_fork :
      ForkProjection
      → String
      → ForkAuthorityCapability
      → Result ForkError (ForkProjection × SealedForkPin)
  unfolding authenticate pin_input store
  create_projected_fork s fork_id capability = do
    identities ← authenticate capability
    guard
        (not (has fork_id s.active_by_fork_id)
          && is_null capability.context.authorization.expected_active_fork_pin_digest)
        fork_identity_continuity
    input ← pin_input capability.context
    p ← lift_pin (
        create_fork_pin digests.pin digests.identity
          (record {
            fork_id = fork_id;
            pin_version = 1;
            workspace_id = capability.context.source.workspace_id;
            run_id = capability.context.source.run_id;
            parent_fork_pin_digest = none;
            refreshes_fork_pin_digest = none;
            content = input;
            ancestry = [];
          })
          none)
    ok (store s p identities, p)

  unfoldable pub refresh_projected_fork :
      ForkProjection
      → String
      → ForkAuthorityCapability
      → Result ForkError (ForkProjection × SealedForkPin)
  unfolding authenticate pin_input store
  refresh_projected_fork s fork_id capability = do
    identities ← authenticate capability
    parent ← found fork_refresh_cas_mismatch (active_pin s fork_id)
    guard
        (opt_beq capability.context.authorization.expected_active_fork_pin_digest
          (get fork_id s.active_by_fork_id))
        fork_refresh_cas_mismatch
    lift_pin (verify_fork_pin digests.pin digests.identity parent)
    guard
        (str_eq parent.core.workspace_id capability.context.source.workspace_id
          && str_eq parent.core.run_id capability.context.source.run_id)
        fork_parent_mismatch
    input ← pin_input capability.context
    p ← lift_pin (refresh_fork_pin digests.pin digests.identity parent input)
    ok (store s p identities, p)

  abbrev same_identities :
      Option ForkAuthoritySnapshotIdentities → ForkAuthoritySnapshotIdentities → Bool
  same_identities none b = false
  same_identities (some a) b =
      str_eq a.source_snapshot_digest b.source_snapshot_digest
      && str_eq a.authorization_snapshot_digest b.authorization_snapshot_digest

  -- The comparison of the pin with the source, after the recorded snapshots.
  unfoldable pub check_reuse :
      ForkProjection → SealedForkPin → ForkAuthorityContext → Result ForkError (Unit {0})
  unfolding scope_digest version_beq
  check_reuse s p c = do
    guard
        (same_identities (get p.fork_pin_digest s.authority_snapshots_by_pin) (identities_of c)
          && p.core.content.canonical_revision == c.source.canonical_revision
          && str_eq p.core.content.canonical_state_hash c.source.canonical_state_hash
          && str_eq p.core.content.dependency_join_snapshot_digest
              c.source.dependency_join_snapshot_digest)
        fork_reuse_stale
    scope_hash ← scope_digest c.source.scope
    guard
        (str_eq p.core.content.delta_authority_scope_digest scope_hash
          && str_eq p.core.content.pinned_policy_digest c.source.pinned_policy_digest
          && cursor_beq p.core.content.source_observation_cursor c.source.observation_cursor
          && version_beq p.core.content.source_context_version c.source.context_version)
        fork_reuse_stale

  unfoldable pub reuse_projected_fork :
      ForkProjection → String → ForkAuthorityCapability → Result ForkError SealedForkPin
  unfolding authenticate check_reuse
  reuse_projected_fork s fork_id capability = do
    identities ← authenticate capability
    p ← found fork_reuse_stale (active_pin s fork_id)
    guard
        (opt_beq capability.context.authorization.expected_active_fork_pin_digest
          (get fork_id s.active_by_fork_id))
        fork_reuse_stale
    lift_pin (verify_fork_pin digests.pin digests.identity p)
    check_reuse s p capability.context
    ok p

  -- Creations and refreshes one after another, each refused one leaving the registry as it was.
  unfoldable pub run_forks : ForkProjection → List ForkRequest → ForkProjection
  run_forks s [] = s
  run_forks s (create fork c ∷ rs) =
      run_forks (elim (create_projected_fork s fork c) [ ok r ↦ r.0 | err _ ↦ s ]) rs
  run_forks s (refresh fork c ∷ rs) =
      run_forks (elim (refresh_projected_fork s fork c) [ ok r ↦ r.0 | err _ ↦ s ]) rs
