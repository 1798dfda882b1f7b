-- ===== src/Domain/Policy/Authorize.antt =====
-- packages/domain/src/policy.ts, `authorizeCommand`, and the admission check of
-- packages/orchestrator/src/authorization that calls it.
pub mod Authority
use horseness.Common.{
  ℕ, String, Option, none, some, List, [], ◌∷◌, Bool, true, false, not, ◌&&◌, ◌||◌, Eq, member, ltb,
  leb, ◌==◌, str_eq, if◌then◌else◌, ◌≡◌, ◌↔◌, arith,
}

pub data PrincipalRole : Type 0 where
  authority approver operator worker adapter : PrincipalRole

pub data PrivilegedCommand : Type 0 where
  create_workspace rebind_workspace grant_admin policy_admin quota_admin : PrivilegedCommand
  approve_proposal reject_proposal release_proposal resolve_unknown : PrivilegedCommand
  duplicate_risk_launch promote_import recovery_admin daemon_admin install : PrivilegedCommand
  dispatch submit_receipt submit_proposal read_bound_context : PrivilegedCommand
  cancel_own_attempt : PrivilegedCommand

-- `ALLOWED[role].includes(command)`
unfoldable pub allowed : PrincipalRole → PrivilegedCommand → Bool
allowed authority command = true
allowed approver approve_proposal = true
allowed operator install = true
allowed operator dispatch = true
allowed worker submit_receipt = true
allowed worker submit_proposal = true
allowed worker read_bound_context = true
allowed worker cancel_own_attempt = true
allowed adapter submit_receipt = true
allowed adapter read_bound_context = true
allowed _ _ = false

-- A number for each command, to compare them.
abbrev code_of : PrivilegedCommand → ℕ
code_of create_workspace = 0
code_of rebind_workspace = 1
code_of grant_admin = 2
code_of policy_admin = 3
code_of quota_admin = 4
code_of approve_proposal = 5
code_of reject_proposal = 6
code_of release_proposal = 7
code_of resolve_unknown = 8
code_of duplicate_risk_launch = 9
code_of promote_import = 10
code_of recovery_admin = 11
code_of daemon_admin = 12
code_of install = 13
code_of dispatch = 14
code_of submit_receipt = 15
code_of submit_proposal = 16
code_of read_bound_context = 17
code_of cancel_own_attempt = 18

abbrev pub command_beq : PrivilegedCommand → PrivilegedCommand → Bool
command_beq a b = code_of a == code_of b

-- `capability.commands.includes(command)`
unfoldable pub lists : List PrivilegedCommand → PrivilegedCommand → Bool
lists [] command = false
lists (c ∷ cs) command = command_beq c command || lists cs command

pub data AuthorizationDenial : Type 0 where
  role_forbidden capability_scope_mismatch cross_workspace_denied grant_stale : AuthorizationDenial
  grant_substituted user_presence_required recovery_quorum_required : AuthorizationDenial

pub record Capability : Type 0 where
  pub workspace_id : String
  pub run_id : Option String
  pub task_id : Option String
  pub attempt_id : Option String
  pub generation : Option ℕ
  pub commands : List PrivilegedCommand
  pub issuer : String
  pub delegatee : String
  pub issued_observation_sequence : ℕ
  pub expires_observation_sequence : ℕ
  pub nonce : String
  pub revocation_sequence : Option ℕ

pub record AuthorizeInput : Type 0 where
  pub role : PrincipalRole
  pub command : PrivilegedCommand
  pub capability : Capability
  pub workspace_id : String
  pub run_id : Option String
  pub task_id : Option String
  pub attempt_id : Option String
  pub generation : Option ℕ
  pub observation_sequence : ℕ
  pub grant_digest : String
  pub expected_grant_digest : String
  pub user_presence : Bool
  pub recovery_quorum : Bool

-- `allowed: true`, a denial with its reason, or the `DomainError` for self approval.
pub data Authorization : Type 0 where
  allow : Authorization
  deny : AuthorizationDenial → Authorization
  self_approval_forbidden : Authorization

-- `bound !== undefined && bound !== given`
abbrev pub mismatch : Option String → Option String → Bool
mismatch none given = false
mismatch (some bound) none = true
mismatch (some bound) (some given) = not (str_eq bound given)

abbrev pub mismatch_generation : Option ℕ → Option ℕ → Bool
mismatch_generation none given = false
mismatch_generation (some bound) none = true
mismatch_generation (some bound) (some given) = not (bound == given)

abbrev revoked_by : Option ℕ → ℕ → Bool
revoked_by none now = false
revoked_by (some r) now = leb r now

abbrev pub stale : Capability → ℕ → Bool
stale c now =
    ltb now c.issued_observation_sequence
    || ltb c.expires_observation_sequence now
    || revoked_by c.revocation_sequence now

abbrev pub needs_presence : PrivilegedCommand → Bool
needs_presence duplicate_risk_launch = true
needs_presence rebind_workspace = true
needs_presence promote_import = true
needs_presence resolve_unknown = true
needs_presence _ = false

abbrev pub needs_quorum : PrivilegedCommand → Bool
needs_quorum recovery_admin = true
needs_quorum _ = false

abbrev pub is_approver : PrincipalRole → Bool
is_approver approver = true
is_approver _ = false

unfoldable pub authorize_command : AuthorizeInput → Authorization
authorize_command i =
    if not (allowed i.role i.command)
    then deny role_forbidden
    else if not (str_eq i.capability.workspace_id i.workspace_id)
    then deny cross_workspace_denied
    else if not (lists i.capability.commands i.command)
    then deny capability_scope_mismatch
    else if mismatch i.capability.run_id i.run_id
        || mismatch i.capability.task_id i.task_id
        || mismatch i.capability.attempt_id i.attempt_id
        || mismatch_generation i.capability.generation i.generation
    then deny capability_scope_mismatch
    else if not (str_eq i.grant_digest i.expected_grant_digest)
    then deny grant_substituted
    else if stale i.capability i.observation_sequence
    then deny grant_stale
    else if needs_presence i.command && not i.user_presence
    then deny user_presence_required
    else if needs_quorum i.command && not i.recovery_quorum
    then deny recovery_quorum_required
    else if is_approver i.role && str_eq i.capability.delegatee i.capability.issuer
    then self_approval_forbidden
    else allow

-- `AuthoritativeAdmissionAuthorization` of packages/orchestrator/src/authorization.
pub record AdmissionAuthority : Type 0 where
  pub role : PrincipalRole
  pub capability_id : String
  pub capability : Capability
  pub grant_digest : String
  pub revoked : Bool

pub record AdmissionSubject : Type 0 where
  pub workspace_id : String
  pub run_id : String
  pub principal_id : String
  pub observation_sequence : ℕ

-- The argument of the call of `authorizeCommand`.
abbrev pub submission : AdmissionAuthority → AdmissionSubject → AuthorizeInput
submission a s = record {
  role = a.role;
  command = submit_proposal;
  capability = a.capability;
  workspace_id = s.workspace_id;
  run_id = some s.run_id;
  task_id = none;
  attempt_id = none;
  generation = none;
  observation_sequence = s.observation_sequence;
  grant_digest = a.grant_digest;
  expected_grant_digest = a.grant_digest;
  user_presence = false;
  recovery_quorum = false;
}

unfoldable pub authorize_admission : String → AdmissionAuthority → AdmissionSubject → Authorization
authorize_admission capability_id a s =
    if not (str_eq capability_id a.capability_id) || a.revoked
    then deny capability_scope_mismatch
    else if not (str_eq a.capability.delegatee s.principal_id)
    then deny capability_scope_mismatch
    else authorize_command (submission a s)
