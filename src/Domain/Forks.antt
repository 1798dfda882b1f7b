-- ===== src/Domain/Forks.antt =====
-- packages/domain/src/context.ts: fork pins, the versions of a fork of the canonical document that a
-- task works on. A pin is sealed with its digest and names the pins that it descends from.
pub mod Lineage
pub mod Refresh
use horseness.Common.{
  ℕ, suc, ◌+◌, String, Option, none, some, List, [], ◌∷◌, ◌++◌, Bool, true, false, not, ◌&&◌, ◌||◌,
  ltb, ◌==◌, str_eq, truthy, distinct, string_eq, Result, ok, err, ◌>>=◌, ◌>>◌, guard,
  if◌then◌else◌,
}

pub data PinError : Type 0 where
  invalid_envelope context_version_mismatch fork_pin_authentication_failed : PinError
  invalid_fork_lineage fork_parent_mismatch fork_refresh_continuity : PinError
  fork_identity_continuity : PinError

-- The cursors of packages/domain/src/events.ts that a context version holds.
pub record WorkspaceOnlyCursor : Type 0 where
  pub workspace_id : String
  pub workspace_sequence : ℕ
  pub workspace_envelope_hash : String
  pub workspace_context_epoch : ℕ

pub record RunOnlyCursor : Type 0 where
  pub workspace_id : String
  pub run_id : String
  pub run_sequence : ℕ
  pub run_envelope_hash : String
  pub run_context_epoch : ℕ

pub record CompositeCursor : Type 0 where
  pub workspace_id : String
  pub workspace_sequence : ℕ
  pub workspace_envelope_hash : String
  pub workspace_context_epoch : ℕ
  pub run_id : String
  pub run_sequence : ℕ
  pub run_envelope_hash : String
  pub run_context_epoch : ℕ

pub data ContextVersion : Type 0 where
  workspace_only : ℕ → WorkspaceOnlyCursor → ContextVersion
  run_only : ℕ → RunOnlyCursor → ContextVersion
  composite : ℕ → ℕ → CompositeCursor → ContextVersion

-- `canonicalJson(a) === canonicalJson(b)` on composite cursors, which have the same members.
unfoldable pub cursor_beq : CompositeCursor → CompositeCursor → Bool
cursor_beq a b =
    str_eq a.workspace_id b.workspace_id
    && a.workspace_sequence == b.workspace_sequence
    && str_eq a.workspace_envelope_hash b.workspace_envelope_hash
    && a.workspace_context_epoch == b.workspace_context_epoch
    && str_eq a.run_id b.run_id
    && a.run_sequence == b.run_sequence
    && str_eq a.run_envelope_hash b.run_envelope_hash
    && a.run_context_epoch == b.run_context_epoch

-- What a refresh changes.
pub record PinChanges : Type 0 where
  pub canonical_revision : ℕ
  pub canonical_state_hash : String
  pub source_observation_cursor : CompositeCursor
  pub source_context_version : ContextVersion
  pub dependency_join_snapshot_digest : String
  pub delta_authority_scope_digest : String
  pub pinned_policy_digest : String
  pub created_by_principal_id : String
  pub created_by_grant_digest : String

-- `ForkPinCoreV1`, the members that `refreshForkPin` takes from its argument kept together.
pub record ForkPinCore : Type 0 where
  pub fork_id : String
  pub pin_version : ℕ
  pub workspace_id : String
  pub run_id : String
  pub parent_fork_pin_digest : Option String
  pub refreshes_fork_pin_digest : Option String
  pub content : PinChanges
  pub ancestry : List String

pub record SealedForkPin : Type 0 where
  pub core : ForkPinCore
  pub fork_pin_digest : String
  pub fork_pin_id : String

-- `===` on members that may be null.
abbrev pub opt_beq : Option String → Option String → Bool
opt_beq none none = true
opt_beq (some a) (some b) = str_eq a b
opt_beq _ _ = false

abbrev pub is_null : Option String → Bool
is_null none = true
is_null (some _) = false

-- `ancestry.at(-1)`
unfoldable pub last : List String → Option String
last [] = none
last (a ∷ []) = some a
last (a ∷ b ∷ rest) = last (b ∷ rest)

abbrev pub context_ok : ContextVersion → CompositeCursor → Bool
context_ok (composite _ _ cursor) source = cursor_beq cursor source
context_ok _ source = false

abbrev is_empty : List String → Bool
is_empty [] = true
is_empty (_ ∷ _) = false

abbrev pub ancestry_ok : Option String → List String → Bool
ancestry_ok none ancestry = is_empty ancestry
ancestry_ok (some parent) ancestry = opt_beq (last ancestry) (some parent)

unfoldable pub validate_fork_pin_core : ForkPinCore → Result PinError (Unit {0})
unfolding cursor_beq last
validate_fork_pin_core core = do
  guard
      (not (ltb core.pin_version 1)
        && truthy core.fork_id
        && truthy core.workspace_id
        && truthy core.run_id)
      invalid_envelope
  guard (context_ok core.content.source_context_version core.content.source_observation_cursor)
      context_version_mismatch
  guard (distinct core.ancestry && ancestry_ok core.parent_fork_pin_digest core.ancestry)
      invalid_envelope
  guard
      (is_null core.refreshes_fork_pin_digest
        || opt_beq core.parent_fork_pin_digest core.refreshes_fork_pin_digest)
      invalid_envelope
  guard (not (core.pin_version == 1) || is_null core.refreshes_fork_pin_digest) invalid_envelope

-- The checks of `createForkPin` against the parent.
unfoldable pub continues : ForkPinCore → SealedForkPin → Result PinError (Unit {0})
continues core parent = do
  guard
      (opt_beq core.parent_fork_pin_digest (some parent.fork_pin_digest)
        && str_eq core.workspace_id parent.core.workspace_id
        && str_eq core.run_id parent.core.run_id)
      fork_parent_mismatch
  guard
      (is_null core.refreshes_fork_pin_digest
        || opt_beq core.refreshes_fork_pin_digest (some parent.fork_pin_digest)
          && str_eq core.fork_id parent.core.fork_id
          && core.pin_version == parent.core.pin_version + 1)
      fork_refresh_continuity
  guard
      (not (is_null core.refreshes_fork_pin_digest)
        || not (str_eq core.fork_id parent.core.fork_id) && core.pin_version == 1)
      fork_identity_continuity

-- `digest` is the SHA-256 digest of the core's canonical JSON, `identity` the identifier of a digest.
module _ (digest : ForkPinCore → String) (identity : String → String) where
  unfoldable pub seal_fork_pin : ForkPinCore → Result PinError SealedForkPin
  seal_fork_pin core = do
    validate_fork_pin_core core
    ok (record { core = core; fork_pin_digest = digest core; fork_pin_id = identity (digest core) })

  unfoldable pub verify_fork_pin : SealedForkPin → Result PinError (Unit {0})
  verify_fork_pin pin = do
    sealed ← seal_fork_pin pin.core
    guard
        (str_eq sealed.fork_pin_digest pin.fork_pin_digest
          && str_eq sealed.fork_pin_id pin.fork_pin_id)
        fork_pin_authentication_failed

  -- The ancestry of `core` is not read.
  unfoldable pub create_fork_pin :
      ForkPinCore → Option SealedForkPin → Result PinError SealedForkPin
  create_fork_pin core none = do
    guard
        (is_null core.parent_fork_pin_digest
          && is_null core.refreshes_fork_pin_digest
          && core.pin_version == 1)
        invalid_fork_lineage
    seal_fork_pin (record core { ancestry = [] })
  create_fork_pin core (some parent) = do
    verify_fork_pin parent
    continues core parent
    seal_fork_pin (record core { ancestry = parent.core.ancestry ++ parent.fork_pin_digest ∷ [] })

  unfoldable pub refresh_fork_pin : SealedForkPin → PinChanges → Result PinError SealedForkPin
  refresh_fork_pin parent changes = do
    verify_fork_pin parent
    create_fork_pin
        (record {
          fork_id = parent.core.fork_id;
          pin_version = parent.core.pin_version + 1;
          workspace_id = parent.core.workspace_id;
          run_id = parent.core.run_id;
          parent_fork_pin_digest = some parent.fork_pin_digest;
          refreshes_fork_pin_digest = some parent.fork_pin_digest;
          content = changes;
          ancestry = [];
        })
        (some parent)
