-- ===== src/Domain/Workspace.antt =====
-- packages/domain/src/receipt.ts: the state of a workspace, as its events leave it. A member of the
-- state that is an object, read and written by a proposal's digest or a quota's identifier, is a
-- list of entries; no such key is the name of a member that every object has.
pub mod Replay
pub mod Settled
pub mod Counting
pub mod Genesis
pub mod Ledger
use horseness.Common.{
  ℕ, ◌+◌, String, Option, none, some, List, [], ◌∷◌, ◌++◌, any, Bool, true, false, not, ◌&&◌, ◌||◌,
  ◌==◌, member, string_eq, str_eq, Result, ok, err, ◌>>=◌, ◌>>◌, guard, if◌then◌else◌,
}
use horseness.Common.Maps.{Entries, get, put, values}

pub data WorkspaceError : Type 0 where
  invalid_genesis aggregate_identity_mismatch event_sequence_invalid : WorkspaceError
  admission_quota_inconsistent duplicate_admission_transition : WorkspaceError
  admission_identity_conflict quota_identity_conflict illegal_admission_transition : WorkspaceError

pub data WorkspaceAdmissionDecisionState : Type 0 where
  accepted rejected conflicted quarantined approval_required : WorkspaceAdmissionDecisionState

pub data AdmissionTransitionState : Type 0 where
  submitted : AdmissionTransitionState
  decided : WorkspaceAdmissionDecisionState → AdmissionTransitionState

abbrev pub is_accepted : WorkspaceAdmissionDecisionState → Bool
is_accepted accepted = true
is_accepted _ = false

-- `ADMISSION_TRANSITIONS[from].includes(to)`
unfoldable pub admission_transitions :
    AdmissionTransitionState → WorkspaceAdmissionDecisionState → Bool
admission_transitions submitted to = true
admission_transitions (decided quarantined) conflicted = false
admission_transitions (decided quarantined) to = true
admission_transitions (decided approval_required) accepted = true
admission_transitions (decided approval_required) rejected = true
admission_transitions (decided approval_required) to = false
admission_transitions (decided accepted) to = false
admission_transitions (decided rejected) to = false
admission_transitions (decided conflicted) to = false

unfoldable pub validate_admission_transition :
    AdmissionTransitionState → WorkspaceAdmissionDecisionState → Result WorkspaceError (Unit {0})
validate_admission_transition from to =
    guard (admission_transitions from to) illegal_admission_transition

pub record WorkspaceAdmissionDecision : Type 0 where
  pub decision_event_id : String
  pub state : WorkspaceAdmissionDecisionState
  pub consumed : Bool

pub record WorkspaceAdmissionProjection : Type 0 where
  pub proposal_digest : String
  pub decision_event_id : String
  pub state : WorkspaceAdmissionDecisionState
  pub quota_id : String
  pub quota_digest : String
  pub consumed : Bool
  pub history : List WorkspaceAdmissionDecision

pub record WorkspaceQuotaProjection : Type 0 where
  pub quota_digest : String
  pub consumed_decision_event_ids : List String
  pub observed_decision_event_ids : List String

pub record WorkspaceState : Type 0 where
  pub workspace_id : String
  pub authority_principal_id : String
  pub initial_grant_digest : String
  pub authority_consumption_marker : String
  pub active_policy_digest : String
  pub admissions : Entries String WorkspaceAdmissionProjection
  pub quotas : Entries String WorkspaceQuotaProjection
  pub context_epoch : ℕ
  pub last_event_sequence : ℕ

pub record WorkspaceCreated : Type 0 where
  pub workspace_id : String
  pub authority_principal_id : String
  pub initial_grant_digest : String
  pub authority_consumption_marker : String
  pub active_policy_digest : String

pub record PolicyReferenceChanged : Type 0 where
  pub workspace_id : String
  pub active_policy_digest : String

pub record WorkspaceAdmissionRecorded : Type 0 where
  pub workspace_id : String
  pub proposal_digest : String
  pub decision_event_id : String
  pub state : WorkspaceAdmissionDecisionState
  pub quota_id : String
  pub quota_digest : String
  pub consumed : Bool

pub data WorkspaceOperationalEvent : Type 0 where
  workspace_created : ℕ → WorkspaceCreated → WorkspaceOperationalEvent
  policy_reference_changed : ℕ → PolicyReferenceChanged → WorkspaceOperationalEvent
  workspace_admission_recorded : ℕ → WorkspaceAdmissionRecorded → WorkspaceOperationalEvent

abbrev pub has_decision : String → WorkspaceAdmissionProjection → Bool
has_decision id a = any (λ d. str_eq d.decision_event_id id) a.history

abbrev history_of : Option WorkspaceAdmissionProjection → List WorkspaceAdmissionDecision
history_of none = []
history_of (some a) = a.history

abbrev pub consumed_of : Option WorkspaceQuotaProjection → List String
consumed_of none = []
consumed_of (some q) = q.consumed_decision_event_ids

abbrev pub observed_of : Option WorkspaceQuotaProjection → List String
observed_of none = []
observed_of (some q) = q.observed_decision_event_ids

-- The checks of a recorded admission against the one before it, of the same proposal.
unfoldable pub check_prior :
    Option WorkspaceAdmissionProjection
    → WorkspaceAdmissionRecorded
    → Result WorkspaceError (Unit {0})
unfolding validate_admission_transition
check_prior none e = validate_admission_transition submitted e.state
check_prior (some prior) e = do
  guard (str_eq prior.quota_id e.quota_id && str_eq prior.quota_digest e.quota_digest)
      admission_identity_conflict
  validate_admission_transition (decided prior.state) e.state

abbrev pub same_quota : Option WorkspaceQuotaProjection → String → Bool
same_quota none digest = true
same_quota (some q) digest = str_eq q.quota_digest digest

abbrev pub next_admission :
    Option WorkspaceAdmissionProjection → WorkspaceAdmissionRecorded → WorkspaceAdmissionProjection
next_admission prior e = record {
  proposal_digest = e.proposal_digest;
  decision_event_id = e.decision_event_id;
  state = e.state;
  quota_id = e.quota_id;
  quota_digest = e.quota_digest;
  consumed = e.consumed;
  history =
      history_of prior
      ++ record { decision_event_id = e.decision_event_id; state = e.state; consumed = e.consumed }
        ∷ [];
}

abbrev pub next_quota :
    Option WorkspaceQuotaProjection → WorkspaceAdmissionRecorded → WorkspaceQuotaProjection
next_quota quota e = record {
  quota_digest = e.quota_digest;
  consumed_decision_event_ids =
      if e.consumed then consumed_of quota ++ e.decision_event_id ∷ [] else consumed_of quota;
  observed_decision_event_ids = observed_of quota ++ e.decision_event_id ∷ [];
}

-- A recorded admission, in the order of the source's checks.
unfoldable pub record_admission :
    WorkspaceState → ℕ → WorkspaceAdmissionRecorded → Result WorkspaceError WorkspaceState
unfolding check_prior
record_admission s sequence e = do
  guard (str_eq e.workspace_id s.workspace_id) aggregate_identity_mismatch
  guard (sequence == s.last_event_sequence + 1) event_sequence_invalid
  guard (if is_accepted e.state then e.consumed else not e.consumed) admission_quota_inconsistent
  guard (not (any (has_decision e.decision_event_id) (values s.admissions)))
      duplicate_admission_transition
  check_prior (get e.proposal_digest s.admissions) e
  guard (same_quota (get e.quota_id s.quotas) e.quota_digest) quota_identity_conflict
  ok (record s {
    admissions =
        put e.proposal_digest (next_admission (get e.proposal_digest s.admissions) e) s.admissions;
    quotas = put e.quota_id (next_quota (get e.quota_id s.quotas) e) s.quotas;
    context_epoch = s.context_epoch + 1;
    last_event_sequence = sequence;
  })

unfoldable pub reduce_workspace_state :
    Option WorkspaceState → WorkspaceOperationalEvent → Result WorkspaceError WorkspaceState
unfolding record_admission
reduce_workspace_state none (workspace_created sequence e) = do
  guard (sequence == 1) invalid_genesis
  ok (record {
    workspace_id = e.workspace_id;
    authority_principal_id = e.authority_principal_id;
    initial_grant_digest = e.initial_grant_digest;
    authority_consumption_marker = e.authority_consumption_marker;
    active_policy_digest = e.active_policy_digest;
    admissions = [];
    quotas = [];
    context_epoch = 0;
    last_event_sequence = 1;
  })
reduce_workspace_state (some s) (workspace_created sequence e) = err invalid_genesis
reduce_workspace_state none (policy_reference_changed sequence e) = err invalid_genesis
reduce_workspace_state (some s) (policy_reference_changed sequence e) = do
  guard (str_eq e.workspace_id s.workspace_id) aggregate_identity_mismatch
  guard (sequence == s.last_event_sequence + 1) event_sequence_invalid
  ok (record s {
    active_policy_digest = e.active_policy_digest;
    context_epoch = s.context_epoch + 1;
    last_event_sequence = sequence;
  })
reduce_workspace_state none (workspace_admission_recorded sequence e) = err invalid_genesis
reduce_workspace_state (some s) (workspace_admission_recorded sequence e) =
    record_admission s sequence e
