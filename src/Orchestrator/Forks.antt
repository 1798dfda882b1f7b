-- ===== src/Orchestrator/Forks.antt =====
-- packages/orchestrator/src/forks/fork-registry.ts: the active pin of each fork, with the snapshots of
-- authority that it was made under.
pub mod Registry
pub mod Stored
pub mod Reuse
use horseness.Common.{
  ℕ, String, Option, none, some, List, [], ◌∷◌, Bool, true, false, not, ◌&&◌, ◌||◌, ltb, leb, ◌==◌,
  str_eq, string_eq, truthy, Result, ok, err, ◌>>=◌, ◌>>◌, guard, if◌then◌else◌,
}
use horseness.Common.Maps.{Entries, get, put, has}
use horseness.Domain.Delta.Scope.{ScopeError, DeltaAuthorityScope, canonical_scope}
use horseness.Domain.Forks.{
  PinError, CompositeCursor, WorkspaceOnlyCursor, RunOnlyCursor, ContextVersion, workspace_only,
  run_only, composite, cursor_beq, PinChanges, ForkPinCore, SealedForkPin, opt_beq, is_null,
  context_ok, verify_fork_pin, create_fork_pin, refresh_fork_pin,
}

pub data ForkError : Type 0 where
  fork_authority_unauthenticated fork_authority_cursor_invalid context_version_mismatch : ForkError
  capability_scope_mismatch fork_grant_invalid fork_grant_revoked : ForkError
  fork_pinned_policy_substituted fork_current_policy_invalid fork_quota_unavailable : ForkError
  fork_identity_continuity fork_refresh_cas_mismatch fork_parent_mismatch fork_reuse_stale :
      ForkError
  scope : ScopeError → ForkError
  pin : PinError → ForkError

pub record ForkSourceSnapshot : Type 0 where
  pub workspace_id : String
  pub run_id : String
  pub observation_cursor : CompositeCursor
  pub context_version : ContextVersion
  pub canonical_revision : ℕ
  pub canonical_state_hash : String
  pub dependency_join_snapshot_digest : String
  pub scope : DeltaAuthorityScope
  pub pinned_policy_digest : String

pub record ForkAuthorizationSnapshot : Type 0 where
  pub workspace_id : String
  pub run_id : String
  pub observation_cursor : CompositeCursor
  pub context_version : ContextVersion
  pub principal_id : String
  pub grant_digest : String
  pub revoked : Bool
  pub pinned_policy_digest : String
  pub current_policy_digest : String
  pub quota_id : String
  pub quota_digest : String
  pub quota_available : Bool
  pub expected_active_fork_pin_digest : Option String

pub record ForkAuthorityContext : Type 0 where
  pub source : ForkSourceSnapshot
  pub authorization : ForkAuthorizationSnapshot

-- A capability, and whether the module has issued it.
pub record ForkAuthorityCapability : Type 0 where
  pub context : ForkAuthorityContext
  pub issued : Bool

pub record ForkAuthoritySnapshotIdentities : Type 0 where
  pub source_snapshot_digest : String
  pub authorization_snapshot_digest : String

pub record ForkProjection : Type 0 where
  pub pins : Entries String SealedForkPin
  pub active_by_fork_id : Entries String String
  pub authority_snapshots_by_pin : Entries String ForkAuthoritySnapshotIdentities

abbrev pub empty_fork_projection : ForkProjection
empty_fork_projection = record {
  pins = [];
  active_by_fork_id = [];
  authority_snapshots_by_pin = [];
}

-- `assertObservationCursorV1` on the cursors' kinds.
abbrev composite_cursor_ok : CompositeCursor → Bool
composite_cursor_ok c =
    truthy c.workspace_id
    && not (ltb c.workspace_sequence 1)
    && truthy c.workspace_envelope_hash
    && truthy c.run_id
    && not (ltb c.run_sequence 1)
    && truthy c.run_envelope_hash

abbrev workspace_cursor_ok : WorkspaceOnlyCursor → Bool
workspace_cursor_ok c =
    truthy c.workspace_id && not (ltb c.workspace_sequence 1) && truthy c.workspace_envelope_hash

abbrev run_cursor_ok : RunOnlyCursor → Bool
run_cursor_ok c =
    truthy c.workspace_id
    && truthy c.run_id
    && not (ltb c.run_sequence 1)
    && truthy c.run_envelope_hash

-- `assertContextVersionV1`: the epochs are the cursor's.
unfoldable pub context_version_ok : ContextVersion → Bool
context_version_ok (workspace_only w c) = workspace_cursor_ok c && w == c.workspace_context_epoch
context_version_ok (run_only r c) = run_cursor_ok c && r == c.run_context_epoch
context_version_ok (composite w r c) =
    composite_cursor_ok c && w == c.workspace_context_epoch && r == c.run_context_epoch

abbrev workspace_cursor_beq : WorkspaceOnlyCursor → WorkspaceOnlyCursor → Bool
workspace_cursor_beq a b =
    str_eq a.workspace_id b.workspace_id
    && a.workspace_sequence == b.workspace_sequence
    && str_eq a.workspace_envelope_hash b.workspace_envelope_hash
    && a.workspace_context_epoch == b.workspace_context_epoch

abbrev run_cursor_beq : RunOnlyCursor → RunOnlyCursor → Bool
run_cursor_beq a b =
    str_eq a.workspace_id b.workspace_id
    && str_eq a.run_id b.run_id
    && a.run_sequence == b.run_sequence
    && str_eq a.run_envelope_hash b.run_envelope_hash
    && a.run_context_epoch == b.run_context_epoch

-- `canonicalJson(a) === canonicalJson(b)` on context versions.
unfoldable pub version_beq : ContextVersion → ContextVersion → Bool
version_beq (workspace_only w c) (workspace_only w' c') = w == w' && workspace_cursor_beq c c'
version_beq (run_only r c) (run_only r' c') = r == r' && run_cursor_beq c c'
version_beq (composite w r c) (composite w' r' c') = w == w' && r == r' && cursor_beq c c'
version_beq _ _ = false

-- The SHA-256 digests that the registry takes, and the identifier of a digest.
pub record ForkDigests : Type 0 where
  pub pin : ForkPinCore → String
  pub identity : String → String
  pub source : ForkSourceSnapshot → String
  pub authorization : ForkAuthorizationSnapshot → String
  pub scope : DeltaAuthorityScope → String

abbrev pub lift_pin {ℓ} : {A : Type ℓ} → Result PinError A → Result ForkError A
lift_pin (ok a) = ok a
lift_pin (err e) = err (pin e)

abbrev pub lift_scope {ℓ} : {A : Type ℓ} → Result ScopeError A → Result ForkError A
lift_scope (ok a) = ok a
lift_scope (err e) = err (scope e)

-- The scopes of workspace and run that the two snapshots name.
unfoldable pub one_scope : ForkAuthorityContext → Bool
one_scope c =
    str_eq c.source.workspace_id c.authorization.workspace_id
    && str_eq c.source.run_id c.authorization.run_id
    && str_eq c.source.observation_cursor.workspace_id c.source.workspace_id
    && str_eq c.source.observation_cursor.run_id c.source.run_id
    && str_eq c.authorization.observation_cursor.workspace_id c.authorization.workspace_id
    && str_eq c.authorization.observation_cursor.run_id c.authorization.run_id
    && str_eq c.source.scope.workspace_id c.source.workspace_id
    && str_eq c.source.scope.run_id c.source.run_id

-- The checks of `authenticate`.
unfoldable pub check_authority : ForkAuthorityCapability → Result ForkError (Unit {0})
unfolding context_version_ok one_scope
check_authority capability =
    let source : ForkSourceSnapshot = capability.context.source in
    let authorization : ForkAuthorizationSnapshot = capability.context.authorization in
    do
      guard capability.issued fork_authority_unauthenticated
      guard
          (composite_cursor_ok source.observation_cursor
            && composite_cursor_ok authorization.observation_cursor
            && context_version_ok source.context_version
            && context_version_ok authorization.context_version)
          fork_authority_cursor_invalid
      guard
          (context_ok source.context_version source.observation_cursor
            && context_ok authorization.context_version authorization.observation_cursor)
          context_version_mismatch
      guard (one_scope capability.context) capability_scope_mismatch
      guard (truthy authorization.principal_id && truthy authorization.grant_digest)
          fork_grant_invalid
      guard (not authorization.revoked) fork_grant_revoked
      guard (str_eq authorization.pinned_policy_digest source.pinned_policy_digest)
          fork_pinned_policy_substituted
      guard (truthy authorization.current_policy_digest) fork_current_policy_invalid
      guard
          (truthy authorization.quota_id
            && truthy authorization.quota_digest
            && authorization.quota_available)
          fork_quota_unavailable
